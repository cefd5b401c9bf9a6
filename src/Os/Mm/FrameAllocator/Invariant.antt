-- ===== src/Os/Mm/FrameAllocator/Invariant.antt =====
-- Each frame is free or held once.
use mathlib.Core.Path.{subst}
use r_core_tutorial_code.Base.{
  ℕ, ◌+◌, ◌^◌, ◌<◌, ◌≤◌, ◌≡◌, refl, sym, ap, ◌∙◌, arith, none, some, List, [], ◌∷◌, ok, panic, leb,
  ltb, ◌==◌, ◌&&◌, ltb→lt, ltb→le, if◌then◌else◌, Bool-cases, inl, inr, ◌⊎◌, ==→eq, ==→ne, lt→leb,
}
use r_core_tutorial_code.Base.Count.{
  count, one, remove, one_self, count→contains, count→none, count-remove,
}
use r_core_tutorial_code.Os.Mm.Address.{phys_page_num}
use r_core_tutorial_code.Os.Mm.FrameAllocator.{
  StackFrameAllocator, new, init, alloc, alloc_next, alloc_from, dealloc, Reachable, start,
  allocated, freed,
}

-- 1 from `l` up to `m` without it, and 0 outside.
unfoldable pub within : ℕ → ℕ → ℕ → ℕ
within l m x = if leb l x && ltb x m then 1 else 0

-- Each frame that was handed out once is either held or in the stack, one time; no other is. `held`
-- counts the holders of a frame.
pub record IsWellFormed (l r : ℕ) (a : StackFrameAllocator) (held : ℕ → ℕ) : Type 0 where
  pub from : l ≤ a.current
  pub to : a.current ≤ r
  pub last : a.end ≡ r
  pub split : (x : ℕ) → held x + count x a.recycled ≡ within l a.current x

-- The three outcomes of `alloc`.
alloc_cases :
    (a : StackFrameAllocator)
    → ((ppn : ℕ) × (rest : List ℕ) × (a.recycled ≡ ppn ∷ rest)
        × (alloc a ≡ (some (phys_page_num ppn), record a { recycled = rest })))
      ⊎ (((a.recycled ≡ []) × (a.current ≡ a.end) × (alloc a ≡ (none, a)))
          ⊎ ((a.recycled ≡ [])
              × (a.current ≡ a.end → ⊥)
              × (alloc a ≡ (some (phys_page_num a.current), record a { current = a.current + 1 }))))
unfolding alloc alloc_from alloc_next
alloc_cases a = go a.recycled refl
  where
    go :
        (v : List ℕ)
        → a.recycled ≡ v
        → ((ppn : ℕ) × (rest : List ℕ) × (a.recycled ≡ ppn ∷ rest)
            × (alloc a ≡ (some (phys_page_num ppn), record a { recycled = rest })))
          ⊎ (((a.recycled ≡ []) × (a.current ≡ a.end) × (alloc a ≡ (none, a)))
              ⊎ ((a.recycled ≡ [])
                  × (a.current ≡ a.end → ⊥)
                  × (alloc a
                      ≡ (some (phys_page_num a.current), record a { current = a.current + 1 }))))
    go (ppn ∷ rest) e = inl (ppn, rest, e, ap (λ v. alloc_from v a) e)
    go [] e = elim (Bool-cases (a.current == a.end)) [
      | inl x ↦ inr (inl (e, ==→eq _ _ x, ap (λ v. alloc_from v a) e ∙ rw x refl))
      | inr x ↦ inr (inr (e, ==→ne _ _ x, ap (λ v. alloc_from v a) e ∙ rw x refl))
    ]

within-grow : (l c x : ℕ) → l ≤ c → within l (c + 1) x ≡ within l c x + one x c
unfolding within one
within-grow l c x h = ground arith

within-pos : (l m x : ℕ) → 0 < within l m x → (l ≤ x) × (x < m)
unfolding within
within-pos l m x h = ground arith

pub within-le : (l m x : ℕ) → within l m x ≤ 1
unfolding within
within-le l m x = ground arith

within-here : (l c : ℕ) → within l c c ≡ 0
unfolding within
within-here l c = ground arith

within-empty : (l x : ℕ) → within l l x ≡ 0
unfolding within
within-empty l x = ground arith

module _ (l r : ℕ) (small : r ≤ 2 ^ 44) (a : StackFrameAllocator) (held : ℕ → ℕ) where
  -- What is handed out, and the state behind it.
  abbrev Fresh : ℕ → StackFrameAllocator → Type 0
  Fresh p b =
      (phys_page_num p ≡ p)
      × (l ≤ p)
      × (p < r)
      × (held p ≡ 0)
      × IsWellFormed l r b (λ x. one x p + held x)

  take_recycled :
      (ppn : ℕ) (rest : List ℕ)
      → IsWellFormed l r a held
      → a.recycled ≡ ppn ∷ rest
      → Fresh ppn (record a { recycled = rest })
  unfolding phys_page_num count
  take_recycled ppn rest w e =
      let counts = λ (x : ℕ). ap (count x) e in
      let self = one_self ppn in
      let at = w.split ppn in
      let bounds = within-pos l a.current ppn (omega (arith, counts ppn, self, at)) in
      let to = w.to in
      (
        omega arith,
        bounds.0,
        omega arith,
        omega (arith, counts ppn, self, at, within-le l a.current ppn),
        record {
          from = w.from;
          to = w.to;
          last = w.last;
          split = λ x. omega (arith, counts x, w.split x);
        },
      )

  take_next :
      IsWellFormed l r a held
      → a.recycled ≡ []
      → (a.current ≡ a.end → ⊥)
      → Fresh a.current (record a { current = a.current + 1 })
  unfolding phys_page_num count
  take_next w e ne =
      let c = a.current in
      let from = w.from in
      let to = w.to in
      let last = w.last in
      let lt : c < r = omega (arith, ne) in
      (
        omega arith,
        from,
        lt,
        omega (arith, w.split c, within-here l c),
        record {
          from = omega arith;
          to = omega arith;
          last = w.last;
          split = λ x. omega (arith, w.split x, within-grow l c x from);
        },
      )

  pub give_back :
      (p : ℕ) (rest : ℕ → ℕ)
      → IsWellFormed l r a held
      → 0 < held p
      → ((x : ℕ) → rest x + one x p ≡ held x)
      → (dealloc a p ≡ ok (record a { recycled = p ∷ a.recycled }))
        × IsWellFormed l r (record a { recycled = p ∷ a.recycled }) rest
  unfolding dealloc count
  give_back p rest w there taken =
      let at = w.split p in
      let bounds = within-pos l a.current p (omega (arith, at)) in
      let free : count p a.recycled ≡ 0 = omega (arith, at, within-le l a.current p) in
      (
        rw (lt→leb a.current p bounds.1, count→none p a.recycled free) refl,
        record {
          from = w.from;
          to = w.to;
          last = w.last;
          split = λ x. omega (arith, w.split x, taken x);
        },
      )

pub start-IsWellFormed : (l r : ℕ) → l ≤ r → IsWellFormed l r (init new l r) (λ _. 0)
unfolding init new count
start-IsWellFormed l r le = record {
  from = omega arith;
  to = le;
  last = refl;
  split = λ x. sym (within-empty l x);
}

-- One call of `alloc` on a well-formed state.
pub alloc_step :
    (l r : ℕ) (a : StackFrameAllocator) (held : ℕ → ℕ)
    → r ≤ 2 ^ 44
    → IsWellFormed l r a held
    → ((p : ℕ) × (b : StackFrameAllocator) × (alloc a ≡ (some p, b))
        × (l ≤ p)
        × (p < r)
        × (held p ≡ 0)
        × IsWellFormed l r b (λ x. one x p + held x))
      ⊎ ((alloc a ≡ (none, a)) × ((x : ℕ) → l ≤ x → x < r → held x ≡ 1))
unfolding count within
alloc_step l r a held small w = elim (alloc_cases a) [
  | inl (ppn, rest, e, res) ↦
      let (same, lo, hi, fresh, w') = take_recycled l r small a held ppn rest w e in
      inl (ppn, record a { recycled = rest }, rw same at res, lo, hi, fresh, w')
  | inr (inl (e, at_end, res)) ↦
      inr (res, λ x lo hi. ground (arith, w.split x, w.last, at_end, ap (count x) e))
  | inr (inr (e, ne, res)) ↦
      let (same, lo, hi, fresh, w') = take_next l r small a held w e ne in
      inl (a.current, record a { current = a.current + 1 }, rw same at res, lo, hi, fresh, w')
]

Reachable-IsWellFormed :
    (l r : ℕ)
    → l ≤ r
    → r ≤ 2 ^ 44
    → (a : StackFrameAllocator) (held : List ℕ) → Reachable l r a held
    → IsWellFormed l r a (λ x. count x held)
unfolding count
Reachable-IsWellFormed l r le small _ _ start = start-IsWellFormed l r le
Reachable-IsWellFormed l r le small _ _ (allocated a b held p run e) =
    elim (alloc_step l r a (λ x. count x held) small
      (Reachable-IsWellFormed l r le small a held run)) [
        | inl (p', b', res, lo, hi, fresh, w') ↦
            let pe : p' ≡ p = cc in
            let be : b' ≡ b = cc in
            subst (λ (c : StackFrameAllocator). IsWellFormed l r c (λ x. count x (p ∷ held))) be
              (subst (λ q. IsWellFormed l r b' (λ x. one x q + count x held)) pe w')
        | inr (res, full) ↦ absurd cc
      ]
Reachable-IsWellFormed l r le small _ _ (freed a b held p run there e) =
    let w = Reachable-IsWellFormed l r le small a held run in
    let (res, w') =
      give_back l r small a (λ x. count x held) p (λ x. count x (remove p held)) w there
        (λ x. count-remove p x held there) in
    let be : record a { recycled = p ∷ a.recycled } ≡ b = cc in
    subst (λ (c : StackFrameAllocator). IsWellFormed l r c (λ x. count x (remove p held))) be w'

-- In each state that calls of `alloc` and `dealloc` lead to from the frames `l` to `r`, of 44 bits:
-- `alloc` hands out a frame between `l` and `r` that is not held, or it returns `None` and leaves
-- the state, and then each frame between `l` and `r` is held exactly once.
pub alloc_frame :
    (l r : ℕ) (a : StackFrameAllocator) (held : List ℕ)
    → l ≤ r
    → r ≤ 2 ^ 44
    → Reachable l r a held
    → ((p : ℕ) × (b : StackFrameAllocator) × (alloc a ≡ (some p, b))
        × (l ≤ p)
        × (p < r)
        × (count p held ≡ 0))
      ⊎ ((alloc a ≡ (none, a)) × ((x : ℕ) → l ≤ x → x < r → count x held ≡ 1))
alloc_frame l r a held le small run =
    elim (alloc_step l r a (λ x. count x held) small
      (Reachable-IsWellFormed l r le small a held run)) [
        | inl (p, b, res, lo, hi, fresh, w) ↦ inl (p, b, res, lo, hi, fresh)
        | inr full ↦ inr full
      ]

-- In each state that calls of `alloc` and `dealloc` lead to from the frames `l` to `r`, of 44
-- bits: `dealloc` of a frame that is held succeeds, and `dealloc` of a frame from `l` on that is
-- not held panics.
pub dealloc_frame :
    (l r : ℕ) (a : StackFrameAllocator) (held : List ℕ) (p : ℕ)
    → l ≤ r
    → r ≤ 2 ^ 44
    → Reachable l r a held
    → l ≤ p
    → ((0 < count p held) × ((b : StackFrameAllocator) × (dealloc a p ≡ ok b)))
      ⊎ ((count p held ≡ 0) × (dealloc a p ≡ panic))
unfolding dealloc within
dealloc_frame l r a held p le small run from =
    let w = Reachable-IsWellFormed l r le small a held run in
    elim (Bool-cases (ltb 0 (count p held))) [
      | inl x ↦
          let (res, w') =
            give_back l r small a (λ y. count y held) p (λ y. count y (remove p held)) w
              (ltb→lt _ _ x) (λ y. count-remove p y held (ltb→lt _ _ x)) in
          inl (ltb→lt _ _ x, (record a { recycled = p ∷ a.recycled }, res))
      | inr x ↦
          let none_held : count p held ≡ 0 = omega (arith, ltb→le _ _ x) in
          elim (Bool-cases (leb a.current p)) [
            | inl y ↦ inr (none_held, rw y refl)
            | inr y ↦
                let free : 0 < count p a.recycled = ground (arith, w.split p) in
                inr (none_held, rw (y, count→contains p a.recycled free) refl)
          ]
    ]
