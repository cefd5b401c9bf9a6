-- ===== src/Os/Task/Totals.antt =====
-- The sums over the control blocks, and how a change through a pointer moves them.
use r_core_tutorial_code.Base.{
  ◌∙◌, ℕ, ◌+◌, ◌<◌, ◌≤◌, ◌≡◌, ◌≢◌, refl, arith, true, false, none, some, List, [], ◌∷◌,
  if◌then◌else◌, ◌==◌, Bool-cases, inl, inr, ==→eq, ==→ne, eq→==, ne→==,
}
use r_core_tutorial_code.Base.Count.{count, one, one_self}
use r_core_tutorial_code.Os.Task.Control.{
  TaskControlBlock, is_zombie, get_task, change_task, free_task, total,
}

module _ {M F : Type 0} where
  -- What a block adds: to the blocks with an id, to those of them that have not ended, to the
  -- references from lists of children, and to those of them from blocks that have ended.
  abbrev pub lives : ℕ → TaskControlBlock M F → ℕ
  lives p t = one p t.pid

  abbrev pub runs : ℕ → TaskControlBlock M F → ℕ
  runs p t = if is_zombie t then 0 else one p t.pid

  abbrev pub kids : ℕ → TaskControlBlock M F → ℕ
  kids p t = count p t.children

  abbrev pub lost : ℕ → TaskControlBlock M F → ℕ
  lost p t = if is_zombie t then count p t.children else 0

  pub get_pid :
      (p : ℕ) (ts : List (TaskControlBlock M F)) (t : TaskControlBlock M F)
      → get_task p ts ≡ some t
      → t.pid ≡ p
  unfolding get_task
  get_pid p [] t h = absurd cc
  get_pid p (u ∷ ts) t h = elim (Bool-cases (u.pid == p)) [
    | inl e ↦
        let q : some u ≡ some t = rw (e, if◌then◌else◌) at h in
        let r : u ≡ t = cc in rw (← r) (==→eq _ _ e)
    | inr e ↦ get_pid p ts t (rw (e, if◌then◌else◌) at h)
  ]

  module _ (m : TaskControlBlock M F → ℕ) (p : ℕ) where
    pub total-change :
        (f : TaskControlBlock M F → TaskControlBlock M F) (ts : List (TaskControlBlock M F))
        (t : TaskControlBlock M F)
        → get_task p ts ≡ some t
        → total m (change_task p f ts) + m t ≡ total m ts + m (f t)
    unfolding get_task change_task total
    total-change f [] t h = absurd cc
    total-change f (u ∷ ts) t h = elim (Bool-cases (u.pid == p)) [
      | inl e ↦
          let q : some u ≡ some t = rw (e, if◌then◌else◌) at h in
          let r : u ≡ t = cc in rw (e, r) (omega arith)
      | inr e ↦ let ih = total-change f ts t (rw (e, if◌then◌else◌) at h) in rw e (omega arith)
    ]

    pub total-change_same :
        (f : TaskControlBlock M F → TaskControlBlock M F) (ts : List (TaskControlBlock M F))
        → ((t : TaskControlBlock M F) → m (f t) ≡ m t)
        → total m (change_task p f ts) ≡ total m ts
    unfolding change_task total
    total-change_same f [] h = refl
    total-change_same f (u ∷ ts) h = elim (Bool-cases (u.pid == p)) [
      | inl e ↦ rw e (omega (arith, h u))
      | inr e ↦ let ih = total-change_same f ts h in rw e (omega arith)
    ]

    pub total-free :
        (ts : List (TaskControlBlock M F)) (t : TaskControlBlock M F)
        → get_task p ts ≡ some t
        → total m (free_task p ts) + m t ≡ total m ts
    unfolding get_task free_task total
    total-free [] t h = absurd cc
    total-free (u ∷ ts) t h = elim (Bool-cases (u.pid == p)) [
      | inl e ↦
          let q : some u ≡ some t = rw (e, if◌then◌else◌) at h in
          let r : u ≡ t = cc in rw (e, r) (omega arith)
      | inr e ↦ let ih = total-free ts t (rw (e, if◌then◌else◌) at h) in rw e (omega arith)
    ]

  pub get_tail :
      (p : ℕ) (u : TaskControlBlock M F) (ts : List (TaskControlBlock M F))
      → u.pid ≢ p
      → get_task p (u ∷ ts) ≡ get_task p ts
  unfolding get_task
  get_tail p u ts ne = rw (ne→== _ _ ne) refl

  pub get_of_lives :
      (p : ℕ) (ts : List (TaskControlBlock M F))
      → 0 < total (lives p) ts
      → (t : TaskControlBlock M F) × (get_task p ts ≡ some t)
  unfolding get_task total one
  get_of_lives p [] h = absurd (omega arith)
  get_of_lives p (u ∷ ts) h = elim (Bool-cases (u.pid == p)) [
    | inl e ↦ (u, rw e refl)
    | inr e ↦
        let there : 0 < 0 + total (lives p) ts = rw (e, if◌then◌else◌) at h in
        let (t, q) = get_of_lives p ts (omega arith) in (t, get_tail p u ts (==→ne _ _ e) ∙ q)
  ]

  pub get_of_none :
      (p : ℕ) (ts : List (TaskControlBlock M F)) → total (lives p) ts ≡ 0 → get_task p ts ≡ none
  unfolding get_task total one
  get_of_none p [] h = refl
  get_of_none p (u ∷ ts) h = elim (Bool-cases (u.pid == p)) [
    | inl e ↦
        let no_sum : 1 + total (lives p) ts ≡ 0 = rw (e, if◌then◌else◌) at h in absurd (omega arith)
    | inr e ↦ rw e (get_of_none p ts (omega (arith, (rw (e, if◌then◌else◌) at h))))
  ]

  pub runs-le-lives :
      (p : ℕ) (ts : List (TaskControlBlock M F)) → total (runs p) ts ≤ total (lives p) ts
  unfolding total
  runs-le-lives p [] = omega arith
  runs-le-lives p (t ∷ ts) = elim (Bool-cases (is_zombie t)) [
    | inl e ↦ let ih = runs-le-lives p ts in rw (e, if◌then◌else◌) (omega arith)
    | inr e ↦ let ih = runs-le-lives p ts in rw (e, if◌then◌else◌) (omega arith)
  ]

  -- Where an id is unique and its process has not ended, the pointer leads to it.
  pub get_of_runs :
      (p : ℕ) (ts : List (TaskControlBlock M F))
      → total (lives p) ts ≤ 1
      → 0 < total (runs p) ts
      → (t : TaskControlBlock M F) × (get_task p ts ≡ some t) × (t.pid ≡ p) × (is_zombie t ≡ false)
  get_of_runs p ts unique h =
      let (t, e) = get_of_lives p ts (omega (arith, runs-le-lives p ts)) in
      let same = get_pid p ts t e in
      let self : one p t.pid ≡ 1 = rw same (one_self p) in
      elim (Bool-cases (is_zombie t)) [
        | inl z ↦
            let none_here : runs p t ≡ 0 = rw (z, if◌then◌else◌) refl in
            absurd (
              omega (
                arith,
                total-free (lives p) p ts t e,
                total-free (runs p) p ts t e,
                runs-le-lives p (free_task p ts),
              ))
        | inr z ↦ (t, e, same, z)
      ]

  module _ (p : ℕ) (f : TaskControlBlock M F → TaskControlBlock M F) where
    pub get-change_self :
        (ts : List (TaskControlBlock M F)) (t : TaskControlBlock M F)
        → get_task p ts ≡ some t
        → ((u : TaskControlBlock M F) → (f u).pid ≡ u.pid)
        → get_task p (change_task p f ts) ≡ some (f t)
    unfolding get_task change_task
    get-change_self [] t h keep = absurd cc
    get-change_self (u ∷ ts) t h keep = elim (Bool-cases (u.pid == p)) [
      | inl e ↦
          let q : some u ≡ some t = rw (e, if◌then◌else◌) at h in
          let r : u ≡ t = cc in
          let here : ((f u).pid == p) ≡ true = eq→== _ _ (keep u ∙ ==→eq _ _ e) in
          rw (e, if◌then◌else◌, here, if◌then◌else◌, r) refl
      | inr e ↦
          let ih = get-change_self ts t (rw (e, if◌then◌else◌) at h) keep in
          rw (e, if◌then◌else◌, e, if◌then◌else◌) ih
    ]

    pub get-change_ne :
        (q : ℕ) (ts : List (TaskControlBlock M F))
        → q ≢ p
        → ((u : TaskControlBlock M F) → (f u).pid ≡ u.pid)
        → get_task q (change_task p f ts) ≡ get_task q ts
    unfolding get_task change_task
    get-change_ne q [] ne keep = refl
    get-change_ne q (u ∷ ts) ne keep = elim (Bool-cases (u.pid == p)) [
      | inl e ↦
          let other : (u.pid == q) ≡ false = ne→== _ _ (λ x. ne (cc (==→eq _ _ e))) in
          rw (e, if◌then◌else◌, keep u, other) refl
      | inr e ↦ let ih = get-change_ne q ts ne keep in rw (e, if◌then◌else◌, ih) refl
    ]
