-- ===== src/Os/Task/Zombies.antt =====
-- A process that ends keeps the invariant, and so does the removal of one that has ended.
use r_core_tutorial_code.Base.{
  ℕ, zero, suc, ◌+◌, ◌≡◌, ◌≢◌, refl, ap, sym, arith, ◌∙◌, false, none, some, List, [], ◌∷◌,
  if◌then◌else◌, get_elem?,
}
use r_core_tutorial_code.Base.Count.{count, one, one_self, one_ne}
use r_core_tutorial_code.Os.Task.Control.{
  TaskStatus, TaskControlBlock, is_zombie, get_task, change_task, total,
}
use r_core_tutorial_code.Os.Task.Totals.{
  lives, runs, kids, lost, total-change, get-change_self, get-change_ne, get_pid,
}
use r_core_tutorial_code.Os.Task.Table.{Table, holds}
use r_core_tutorial_code.Os.Task.Consistent.{
  IsConsistent, IsConsistent-AreAlike, change_alike, block_of,
}
use r_core_tutorial_code.Os.Task.Ending.{moved, moved_totals, moved_other}
use r_core_tutorial_code.Os.Task.Process.{remove_at}

pub count-remove_at :
    (c x : ℕ) (cs : List ℕ) (i : ℕ)
    → get_elem? cs i ≡ some c
    → count x (remove_at cs i) + one x c ≡ count x cs
unfolding count remove_at
count-remove_at c x [] i h = absurd cc
count-remove_at c x (d ∷ cs) zero h = let e : d ≡ c = cc in omega (arith, ap (one x) e)
count-remove_at c x (d ∷ cs) (suc i) h = omega (arith, count-remove_at c x cs i h)

module _ {M F : Type 0} where
  abbrev pub end_block : ℕ → TaskControlBlock M F → TaskControlBlock M F
  end_block code t = record t { task_status = TaskStatus.zombie; exit_code = code }

  abbrev pub clear_children : TaskControlBlock M F → TaskControlBlock M F
  clear_children t = record t { children = [] }

  abbrev pub set_memory : M → TaskControlBlock M F → TaskControlBlock M F
  set_memory m t = record t { memory_set = m }

  -- The blocks after the end of a process with these children.
  abbrev pub exited : ℕ → ℕ → M → List ℕ → List (TaskControlBlock M F) → List (TaskControlBlock M F)
  exited p code m cs ts =
      change_task p (set_memory m)
        (change_task p clear_children (moved cs (change_task p (end_block code) ts)))

  -- The sums after the end of a process.
  exited_totals :
      (x p code : ℕ) (ts : List (TaskControlBlock M F)) (t i : TaskControlBlock M F)
      → p ≢ 0
      → get_task p ts ≡ some t
      → get_task 0 ts ≡ some i
      → is_zombie t ≡ false
      → is_zombie i ≡ false
      → let us =
          change_task p clear_children (moved t.children (change_task p (end_block code) ts)) in
        (total (lives x) us ≡ total (lives x) ts)
        × (total (runs x) us + one x t.pid ≡ total (runs x) ts)
        × (total (kids x) us ≡ total (kids x) ts)
        × (total (lost x) us ≡ total (lost x) ts)
  unfolding count
  exited_totals x p code ts t i ne g gi z zi =
      let cs = t.children in
      let ended = change_task p (end_block code) ts in
      let by = λ (m : TaskControlBlock M F → ℕ). total-change m p (end_block code) ts t g in
      let here = get-change_self p (end_block code) ts t g (λ _. refl) in
      let first = get-change_ne p (end_block code) 0 ts (λ h. ne (sym h)) (λ _. refl) ∙ gi in
      let (a, b, d, e) = moved_totals x cs ended i first zi in
      let (u, gu, zu, cu, _) = moved_other p cs ended (end_block code t) ne here in
      let us = moved cs ended in
      let to = λ (m : TaskControlBlock M F → ℕ). total-change m p clear_children us u gu in
      let was : runs x t ≡ one x t.pid = rw (z, if◌then◌else◌) refl in
      let whole : lost x t ≡ 0 = rw (z, if◌then◌else◌) refl in
      let none_runs : runs x u ≡ 0 = rw (zu, if◌then◌else◌) refl in
      let still : runs x (clear_children u) ≡ 0 = rw (zu, if◌then◌else◌) refl in
      let all_lost : lost x u ≡ count x u.children = rw (zu, if◌then◌else◌) refl in
      let gone : lost x (clear_children u) ≡ 0 = rw (zu, if◌then◌else◌) refl in
      let same = ap (count x) cu in
      (
        omega (arith, a, by (lives x), to (lives x)),
        omega (arith, b, by (runs x), to (runs x), was, none_runs, still),
        omega (arith, d, by (kids x), to (kids x), same),
        omega (arith, e, by (lost x), to (lost x), whole, all_lost, gone, same),
      )

  pub exit-IsConsistent :
      (s : Table M F) (p code : ℕ) (m : M) (t : TaskControlBlock M F)
      → IsConsistent s
      → s.current ≡ some p
      → p ≢ 0
      → get_task p s.tasks ≡ some t
      → IsConsistent (record s { tasks = exited p code m t.children s.tasks; current = none })
  unfolding holds
  exit-IsConsistent s p code m t c n ne g =
      let ts = s.tasks in
      let busy = λ (x : ℕ). ap (holds x) n in
      let first = c.first in
      let root = c.root in
      let (t', g', same, z') = block_of s p c (omega (arith, busy p, one_self p)) in
      let (i, gi, _, zi) = block_of s 0 c (omega (arith, c.queued 0)) in
      let eq : some t' ≡ some t = sym g' ∙ g in
      let te : t' ≡ t = cc in
      let z : is_zombie t ≡ false = ap is_zombie (sym te) ∙ z' in
      let pid = get_pid p ts t g in
      let all = λ (x : ℕ). exited_totals x p code ts t i ne g gi z zi in
      let us =
        change_task p clear_children (moved t.children (change_task p (end_block code) ts)) in
      let cleared : IsConsistent (record s { tasks = us; current = none }) = record {
        ids = λ x. omega (arith, c.ids x, all x);
        kept = λ x h. omega (arith, c.kept x h, all x);
        root = omega (arith, all 0);
        queued = λ x. omega (arith, c.queued x, all x, busy x, ap (one x) pid);
        ended = λ x. omega (arith, c.ended x, all x);
        first = omega (arith, all 0, ap (one 0) pid, one_ne 0 p (λ h. ne (sym h)));
      } in
      IsConsistent-AreAlike (record s { tasks = us; current = none }) _ cleared
        (change_alike p (set_memory m) us (λ _. refl) (λ _. refl) (λ _. refl)) refl (λ _. refl)
