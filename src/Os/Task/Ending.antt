-- ===== src/Os/Task/Ending.antt =====
-- The end of a process keeps the invariant: its children go to the first process.
use r_core_tutorial_code.Base.{
  ℕ, ◌+◌, ◌≡◌, ◌≢◌, refl, ap, sym, arith, ◌∙◌, false, some, List, [], ◌∷◌, ◌++◌, if◌then◌else◌,
  ◌==◌, Bool-cases, inl, inr, ==→eq, ==→ne,
}
use mathlib.Core.List.{append-nil, append_assoc}
use r_core_tutorial_code.Base.Count.{count, one, count-append}
use r_core_tutorial_code.Os.Task.Control.{TaskControlBlock, is_zombie, get_task, change_task, total}
use r_core_tutorial_code.Os.Task.Totals.{
  lives, runs, kids, lost, total-change, get-change_self, get-change_ne,
}
use r_core_tutorial_code.Os.Task.Table.{initproc}
use r_core_tutorial_code.Os.Task.Consistent.{change_alike}

module _ {M F : Type 0} where
  abbrev pub set_parent : TaskControlBlock M F → TaskControlBlock M F
  set_parent t = record t { parent = some initproc }

  abbrev pub push_child : ℕ → TaskControlBlock M F → TaskControlBlock M F
  push_child c t = record t { children = t.children ++ c ∷ [] }

  -- The blocks once children went to the first process.
  unfoldable pub moved : List ℕ → List (TaskControlBlock M F) → List (TaskControlBlock M F)
  moved [] ts = ts
  moved (c ∷ cs) ts = moved cs (change_task initproc (push_child c) (change_task c set_parent ts))

  -- A round of the move.
  step : ℕ → List (TaskControlBlock M F) → List (TaskControlBlock M F)
  step c ts = change_task initproc (push_child c) (change_task c set_parent ts)

  -- A block and what it has in common with the one that a pointer leads to.
  abbrev Leads : ℕ → List (TaskControlBlock M F) → TaskControlBlock M F → Type 0
  Leads p ts t = (u : TaskControlBlock M F) × (get_task p ts ≡ some u) × (is_zombie u ≡ is_zombie t)

  parent_leads :
      (p c : ℕ) (ts : List (TaskControlBlock M F)) (t : TaskControlBlock M F)
      → get_task p ts ≡ some t
      → (u : TaskControlBlock M F) × (get_task p (change_task c set_parent ts) ≡ some u)
        × (is_zombie u ≡ is_zombie t)
        × (u.children ≡ t.children)
        × (u.exit_code ≡ t.exit_code)
  parent_leads p c ts t g = elim (Bool-cases (p == c)) [
    | inl e ↦
        let h : get_task c ts ≡ some t = ap (λ n. get_task n ts) (sym (==→eq _ _ e)) ∙ g in
        (
          set_parent t,
          ap (λ n. get_task n (change_task c set_parent ts)) (==→eq _ _ e)
              ∙ get-change_self c set_parent ts t h (λ _. refl),
          refl,
          refl,
          refl,
        )
    | inr e ↦ (t, get-change_ne c set_parent p ts (==→ne _ _ e) (λ _. refl) ∙ g, refl, refl, refl)
  ]

  module _ (x : ℕ) where
    step_same :
        (c : ℕ) (ts : List (TaskControlBlock M F)) (i : TaskControlBlock M F)
        → get_task 0 ts ≡ some i
        → is_zombie i ≡ false
        → (total (lives x) (step c ts) ≡ total (lives x) ts)
          × (total (runs x) (step c ts) ≡ total (runs x) ts)
          × (total (kids x) (step c ts) ≡ total (kids x) ts + one x c)
          × (total (lost x) (step c ts) ≡ total (lost x) ts)
    unfolding step count
    step_same c ts i g z =
        let us = change_task c set_parent ts in
        let a = change_alike c set_parent ts (λ _. refl) (λ _. refl) (λ _. refl) in
        let (u, gu, zu, _, _) = parent_leads 0 c ts i g in
        let ended : is_zombie u ≡ false = zu ∙ z in
        let by = λ (m : TaskControlBlock M F → ℕ). total-change m 0 (push_child c) us u gu in
        let none_lost : lost x (push_child c u) ≡ lost x u = rw (ended, if◌then◌else◌) refl in
        (
          omega (arith, a.same_lives x, by (lives x)),
          omega (arith, a.same_runs x, by (runs x)),
          omega (arith, a.same_kids x, by (kids x), count-append x u.children (c ∷ [])),
          omega (arith, a.same_lost x, by (lost x)),
        )

  -- The first process is still there after a round.
  step_first :
      (c : ℕ) (ts : List (TaskControlBlock M F)) (i : TaskControlBlock M F)
      → get_task 0 ts ≡ some i
      → Leads 0 (step c ts) i
  unfolding step
  step_first c ts i g =
      let (u, gu, zu, _, _) = parent_leads 0 c ts i g in
      (
        push_child c u,
        get-change_self 0 (push_child c) (change_task c set_parent ts) u gu (λ _. refl),
        zu,
      )

  -- So is any other, with its children.
  step_other :
      (p c : ℕ) (ts : List (TaskControlBlock M F)) (t : TaskControlBlock M F)
      → p ≢ 0
      → get_task p ts ≡ some t
      → (u : TaskControlBlock M F) × (get_task p (step c ts) ≡ some u)
        × (is_zombie u ≡ is_zombie t)
        × (u.children ≡ t.children)
        × (u.exit_code ≡ t.exit_code)
  unfolding step
  step_other p c ts t ne g =
      let (u, gu, zu, cu, xu) = parent_leads p c ts t g in
      (
        u,
        get-change_ne 0 (push_child c) p (change_task c set_parent ts) ne (λ _. refl) ∙ gu,
        zu,
        cu,
        xu,
      )

  -- The sums after the move.
  pub moved_totals :
      (x : ℕ) (cs : List ℕ) (ts : List (TaskControlBlock M F)) (i : TaskControlBlock M F)
      → get_task 0 ts ≡ some i
      → is_zombie i ≡ false
      → (total (lives x) (moved cs ts) ≡ total (lives x) ts)
        × (total (runs x) (moved cs ts) ≡ total (runs x) ts)
        × (total (kids x) (moved cs ts) ≡ total (kids x) ts + count x cs)
        × (total (lost x) (moved cs ts) ≡ total (lost x) ts)
  unfolding moved step count
  moved_totals x [] ts i g z = (refl, refl, omega arith, refl)
  moved_totals x (c ∷ cs) ts i g z =
      let (u, gu, zu) = step_first c ts i g in
      let (a, b, d, e) = step_same x c ts i g z in
      let (a', b', d', e') = moved_totals x cs (step c ts) u gu (zu ∙ z) in
      (a' ∙ a, b' ∙ b, omega arith, e' ∙ e)

  pub moved_other :
      (p : ℕ) (cs : List ℕ) (ts : List (TaskControlBlock M F)) (t : TaskControlBlock M F)
      → p ≢ 0
      → get_task p ts ≡ some t
      → (u : TaskControlBlock M F) × (get_task p (moved cs ts) ≡ some u)
        × (is_zombie u ≡ is_zombie t)
        × (u.children ≡ t.children)
        × (u.exit_code ≡ t.exit_code)
  unfolding moved step
  moved_other p [] ts t ne g = (t, g, refl, refl, refl)
  moved_other p (c ∷ cs) ts t ne g =
      let (u, gu, zu, cu, xu) = step_other p c ts t ne g in
      let (v, gv, zv, cv, xv) = moved_other p cs (step c ts) u ne gu in
      (v, gv, zv ∙ zu, cv ∙ cu, xv ∙ xu)

  -- The first process has the children behind its own.
  pub moved_first :
      (cs : List ℕ) (ts : List (TaskControlBlock M F)) (i : TaskControlBlock M F)
      → get_task 0 ts ≡ some i
      → (u : TaskControlBlock M F) × (get_task 0 (moved cs ts) ≡ some u)
        × (u.children ≡ i.children ++ cs)
  unfolding moved step
  moved_first [] ts i g = (i, g, sym (append-nil i.children))
  moved_first (c ∷ cs) ts i g =
      let (u, gu, _, cu, _) = parent_leads 0 c ts i g in
      let there = get-change_self 0 (push_child c) (change_task c set_parent ts) u gu (λ _. refl) in
      let (v, gv, cv) = moved_first cs (step c ts) (push_child c u) there in
      (v, gv, cv ∙ ap (λ l. (l ++ c ∷ []) ++ cs) cu ∙ append_assoc i.children (c ∷ []) cs)
