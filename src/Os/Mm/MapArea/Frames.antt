-- ===== src/Os/Mm/MapArea/Frames.antt =====
-- The frames of an area and of the page table at work: each is held once, and the calls keep it so.
use r_core_tutorial_code.Base.{
  ℕ, ◌+◌, ◌^◌, ◌≤◌, ◌≡◌, ap, sym, ◌∙◌, arith, Bool, true, false, Option, none, some, List, [], ◌∷◌,
  ◌++◌, State, Result, ok, panic, out_of_fuel, and_then, assert, unwrap, pure, gets, modify, ◌>>=◌,
  if◌then◌else◌, inl, inr, not, bit_or,
}
use mathlib.Core.Path.{subst}
use r_core_tutorial_code.Base.Count.{count, one, one_self, count-append}
use r_core_tutorial_code.Os.Mm.FrameAllocator.{StackFrameAllocator, alloc}
use r_core_tutorial_code.Os.Mm.FrameAllocator.Invariant.{IsWellFormed, alloc_step, give_back}
use r_core_tutorial_code.Os.Mm.PageTable.{
  Space, set_entry, new_entry, ppn_of, is_valid, path, find_pte, frame_alloc, track, create_table,
  find_create_from, find_pte_create, map_page, unmap,
}
use r_core_tutorial_code.Os.Mm.MapArea.{frame_dealloc, with_frames}

abbrev pub frames_of : List (ℕ × ℕ) → List ℕ
frames_of [] = []
frames_of ((vpn, ppn) ∷ rest) = ppn ∷ frames_of rest

abbrev pub extra : Option ℕ → ℕ → ℕ
extra none x = 0
extra (some p) x = one x p

module _ (l r : ℕ) where
  pub recount :
      (a : StackFrameAllocator) (held held' : ℕ → ℕ)
      → ((x : ℕ) → held x ≡ held' x)
      → IsWellFormed l r a held
      → IsWellFormed l r a held'
  recount a held held' same w = record {
    from = w.from;
    to = w.to;
    last = w.last;
    split = λ x. sym (ap (λ n. n + count x a.recycled) (same x)) ∙ w.split x;
  }

  -- Each frame is free or held once, by the page table at work or outside of it.
  abbrev pub Balanced : (ℕ → ℕ) → Space → Type 0
  Balanced outside s = IsWellFormed l r s.frames (λ x. outside x + count x s.owned)

  -- What a call that keeps the balance returns, with other holders after it.
  abbrev pub Outcome : {A : Type 0} → (A → ℕ → ℕ) → Result (A × Space) → Type 0
  Outcome after (ok (a, s)) = Balanced (after a) s
  Outcome after panic = Unit {0}
  Outcome after out_of_fuel = ⊥

  pub record Holds {A : Type 0} (after : A → ℕ → ℕ) (v : Result (A × Space)) : Type 0 where
    pub outcome : Outcome after v

  abbrev pub Moves : {A : Type 0} → (ℕ → ℕ) → (A → ℕ → ℕ) → State Space A → Type 0
  Moves before after m = (s : Space) → Balanced before s → Holds after (m s)

  pub bind-Moves :
      {A B : Type 0} (before : ℕ → ℕ) (between : A → ℕ → ℕ) (after : B → ℕ → ℕ) (m : State Space A)
      (k : A → State Space B)
      → Moves before between m
      → ((a : A) → Moves (between a) after (k a))
      → Moves before after (m >>= k)
  bind-Moves {A} {B} before between after m k hm hk s w = record {
    outcome = go (m s) (let h = hm s w in h.outcome);
  }
    where
      go : (v : Result (A × Space)) → Outcome between v → Outcome after (and_then v k)
      go (ok (a, s1)) good = let h = hk a s1 good in h.outcome
      go panic good = tt
      go out_of_fuel good = absurd good

  pub pure-Moves : {A : Type 0} (held : A → ℕ → ℕ) (a : A) → Moves (held a) held (pure a)
  pure-Moves held a s w = record { outcome = w }

  pub gets-Moves : {A : Type 0} (held : ℕ → ℕ) (f : Space → A) → Moves held (λ _. held) (gets f)
  gets-Moves held f s w = record { outcome = w }

  pub assert-Moves : (held : ℕ → ℕ) (t : Bool) → Moves held (λ _. held) (assert t)
  assert-Moves held true s w = record { outcome = w }
  assert-Moves held false s w = record { outcome = tt }

  -- The holders in another order.
  pub recount-Moves :
      {A : Type 0} (before before' : ℕ → ℕ) (after after' : A → ℕ → ℕ) (m : State Space A)
      → ((x : ℕ) → before' x ≡ before x)
      → ((a : A) (x : ℕ) → after a x ≡ after' a x)
      → Moves before after m
      → Moves before' after' m
  recount-Moves {A} before before' after after' m hb ha hm s w =
      let h = hm s (
        recount s.frames (λ x. before' x + count x s.owned) (λ x. before x + count x s.owned)
          (λ x. ap (λ n. n + count x s.owned) (hb x)) w) in
      record { outcome = go (m s) h.outcome }
    where
      go : (v : Result (A × Space)) → Outcome after v → Outcome after' v
      go (ok (a, s1)) good =
          recount s1.frames (λ x. after a x + count x s1.owned) (λ x. after' a x + count x s1.owned)
            (λ x. ap (λ n. n + count x s1.owned) (ha a x)) good
      go panic good = tt
      go out_of_fuel good = good

  -- A change of the memory.
  pub modify-Moves :
      (held : ℕ → ℕ) (f : Space → ℕ → ℕ → ℕ)
      → Moves held (λ _. held) (modify (λ s. record s { memory = f s }))
  modify-Moves held f s w = record { outcome = w }

module _ (l r : ℕ) (small : r ≤ 2 ^ 44) where
  -- The drop of a frame that is held.
  pub frame_dealloc_lem :
      (p : ℕ) (held : ℕ → ℕ) (s : Space)
      → IsWellFormed l r s.frames (λ x. one x p + held x)
      → (a : StackFrameAllocator) × (frame_dealloc p s ≡ ok (tt, record s { frames = a }))
        × IsWellFormed l r a held
  unfolding frame_dealloc with_frames
  frame_dealloc_lem p held s w =
      let (e, w') =
        give_back l r small s.frames (λ x. one x p + held x) p held w (omega (arith, one_self p))
          (λ x. omega arith) in
      (record s.frames { recycled = p ∷ s.frames.recycled }, ap (with_frames s) e, w')

  pub frame_dealloc-Moves :
      (p : ℕ) (held : ℕ → ℕ) → Moves l r (λ x. one x p + held x) (λ _. held) (frame_dealloc p)
  frame_dealloc-Moves p held s w =
      let (a, e, w') =
        frame_dealloc_lem p (λ x. held x + count x s.owned) s
          (recount l r s.frames (λ x. one x p + held x + count x s.owned)
            (λ x. one x p + (held x + count x s.owned)) (λ x. omega arith) w) in
      record { outcome = subst (Outcome l r (λ (u : Unit {0}). held)) (sym e) w' }

  alloc_held :
      (a : StackFrameAllocator) (held : ℕ → ℕ)
      → IsWellFormed l r a held
      → IsWellFormed l r (alloc a).1 (λ x. extra (alloc a).0 x + held x)
  alloc_held a held w = elim (alloc_step l r a held small w) [
    | inl (p, b, e, lo, hi, fresh, w') ↦
        subst
          (λ (v : Option ℕ × StackFrameAllocator). IsWellFormed l r v.1 (λ x. extra v.0 x + held x))
          (sym e) w'
    | inr (e, full) ↦
        subst
          (λ (v : Option ℕ × StackFrameAllocator). IsWellFormed l r v.1 (λ x. extra v.0 x + held x))
          (sym e) (recount l r a held (λ x. 0 + held x) (λ x. omega arith) w)
  ]

  pub frame_alloc-Moves :
      (held : ℕ → ℕ) → Moves l r held (λ found x. extra found x + held x) frame_alloc
  unfolding frame_alloc track
  frame_alloc-Moves held s w = record {
    outcome = go (alloc s.frames) (alloc_held s.frames (λ x. held x + count x s.owned) w);
  }
    where
      go :
          (v : Option ℕ × StackFrameAllocator)
          → IsWellFormed l r v.1 (λ x. extra v.0 x + (held x + count x s.owned))
          → Outcome l r (λ found x. extra found x + held x) (track v s)
      go (none, a) w' =
          recount l r a (λ x. extra none x + (held x + count x s.owned))
            (λ x. extra none x + held x + count x s.owned) (λ x. omega arith) w'
      go (some p, a) w' =
          recount l r a (λ x. extra (some p) x + (held x + count x s.owned))
            (λ x. extra (some p) x + held x + count x s.owned) (λ x. omega arith) w'

  pub unwrap-Moves :
      {A : Type 0} (held : Option A → ℕ → ℕ) (found : Option A)
      → Moves l r (held found) (λ p. held (some p)) (unwrap found)
  unwrap-Moves held none s w = record { outcome = tt }
  unwrap-Moves held (some p) s w = record { outcome = w }

  -- A frame that the page table takes.
  own-Moves :
      (p : ℕ) (held : ℕ → ℕ) (f : Space → ℕ → ℕ → ℕ)
      → Moves l r
          (λ x. one x p + held x)
          (λ _. held)
          (modify (λ s. record s { memory = f s; owned = s.owned ++ p ∷ [] }))
  unfolding count
  own-Moves p held f s w = record {
    outcome =
        recount l r s.frames (λ x. one x p + held x + count x s.owned)
          (λ x. held x + count x (s.owned ++ p ∷ []))
          (λ x. omega (arith, count-append x s.owned (p ∷ []))) w;
  }

  create_table-Moves :
      (held : ℕ → ℕ) (ppn idx : ℕ) → Moves l r held (λ _. held) (create_table ppn idx)
  unfolding create_table
  create_table-Moves held ppn idx =
      bind-Moves l r held (λ found x. extra found x + held x) (λ _. held) frame_alloc _
        (frame_alloc-Moves held)
        (λ found.
          bind-Moves l r (λ x. extra found x + held x) (λ p x. one x p + held x) (λ _. held)
            (unwrap found) _ (unwrap-Moves (λ v x. extra v x + held x) found)
            (λ p.
              bind-Moves l r (λ x. one x p + held x) (λ _. held) (λ _. held) _ _
                (own-Moves p held (λ s. set_entry s.memory ppn idx (new_entry p 1)))
                (λ _. gets-Moves l r held (λ s. ppn_of (s.memory ppn idx)))))

  find_create_from-Moves :
      (held : ℕ → ℕ) (is : List ℕ) (ppn : ℕ) → Moves l r held (λ _. held) (find_create_from is ppn)
  unfolding find_create_from
  find_create_from-Moves held [] ppn = pure-Moves l r (λ _. held) none
  find_create_from-Moves held (idx ∷ []) ppn = pure-Moves l r (λ _. held) (some (ppn, idx))
  find_create_from-Moves held (idx ∷ i ∷ is) ppn =
      bind-Moves l r held (λ _. held) (λ _. held) _ _ (gets-Moves l r held (λ s. s.memory ppn idx))
        (λ pte.
          bind-Moves l r held (λ _. held) (λ _. held)
            (if is_valid pte then pure (ppn_of pte) else create_table ppn idx) _
            (choice (is_valid pte) pte) (find_create_from-Moves held (i ∷ is)))
    where
      choice :
          (t : Bool) (pte : ℕ)
          → Moves l r held (λ _. held) (if t then pure (ppn_of pte) else create_table ppn idx)
      choice true pte = pure-Moves l r (λ _. held) (ppn_of pte)
      choice false pte = create_table-Moves held ppn idx

  pub map_page-Moves :
      (held : ℕ → ℕ) (root_ppn vpn ppn flags : ℕ)
      → Moves l r held (λ _. held) (map_page root_ppn vpn ppn flags)
  unfolding map_page find_pte_create
  map_page-Moves held root_ppn vpn ppn flags =
      bind-Moves l r held (λ _. held) (λ _. held) (find_create_from (path vpn) root_ppn) _
        (find_create_from-Moves held (path vpn) root_ppn)
        (λ found.
          bind-Moves l r held (λ _. held) (λ _. held) (unwrap found) _
            (unwrap-Moves (λ _. held) found)
            (λ place.
              bind-Moves l r held (λ _. held) (λ _. held) _ _
                (gets-Moves l r held (λ s. s.memory place.0 place.1))
                (λ pte.
                  bind-Moves l r held (λ _. held) (λ _. held) (assert (not (is_valid pte))) _
                    (assert-Moves l r held (not (is_valid pte)))
                    (λ _.
                      modify-Moves l r held (λ s.
                        set_entry s.memory place.0 place.1 (new_entry ppn (bit_or flags 1)))))))

  pub unmap-Moves :
      (held : ℕ → ℕ) (root_ppn vpn : ℕ) → Moves l r held (λ _. held) (unmap root_ppn vpn)
  unfolding unmap
  unmap-Moves held root_ppn vpn =
      bind-Moves l r held (λ _. held) (λ _. held) _ _
        (gets-Moves l r held (λ s. find_pte s.memory root_ppn vpn))
        (λ found.
          bind-Moves l r held (λ _. held) (λ _. held) (unwrap found) _
            (unwrap-Moves (λ _. held) found)
            (λ place.
              bind-Moves l r held (λ _. held) (λ _. held) _ _
                (gets-Moves l r held (λ s. s.memory place.0 place.1))
                (λ pte.
                  bind-Moves l r held (λ _. held) (λ _. held) (assert (is_valid pte)) _
                    (assert-Moves l r held (is_valid pte))
                    (λ _. modify-Moves l r held (λ s. set_entry s.memory place.0 place.1 0)))))
