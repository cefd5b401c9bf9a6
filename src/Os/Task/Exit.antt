-- ===== src/Os/Task/Exit.antt =====
-- os/src/task/mod.rs: the end of the process that runs.
use r_core_tutorial_code.Base.{
  ℕ, ◌≡◌, ◌≢◌, refl, ap, sym, arith, ◌∙◌, true, none, some, [], ◌++◌, ok, unwrap, if◌then◌else◌,
  ne→==,
}
use r_core_tutorial_code.Base.Count.{one_self, one_ne}
use r_core_tutorial_code.Os.Task.Control.{is_zombie, get_task, change_task, TaskControlBlock}
use r_core_tutorial_code.Os.Task.Table.{Table, holds, strong_count, take_current_task}
use r_core_tutorial_code.Os.Task.Kernel.{
  Resources, Kernel, Task, Exit, borrow, borrow_mut, change_table, on_table,
}
use r_core_tutorial_code.Os.Task.Process.{exit_current_and_run_next, end_task}
use r_core_tutorial_code.Os.Task.Totals.{get-change_self, get-change_ne, runs-le-lives}
use r_core_tutorial_code.Os.Task.Consistent.{IsConsistent, block_of, unique}
use r_core_tutorial_code.Os.Task.Ending.{moved, moved_other, moved_first}
use r_core_tutorial_code.Os.Task.Zombies.{
  exited, end_block, clear_children, set_memory, exit-IsConsistent,
}
use r_core_tutorial_code.Os.Task.Transitions.{lives_of_get}
use r_core_tutorial_code.Os.Task.Effects.{move_children_lem}
use r_core_tutorial_code.Os.Task.Waiting.{lift_lem}
use r_core_tutorial_code.Os.Task.Lifecycle.{Reachable}
use r_core_tutorial_code.Os.Task.Preservation.{Reachable-IsConsistent}

module _ (r : Resources) where
  exit_run :
      (k : Kernel r) (p code : ℕ) (t : Task r) (m : r.MemorySet) (w : r.World)
      → k.table.current ≡ some p
      → p ≢ 0
      → get_task p k.table.tasks ≡ some t
      → r.recycle_data_pages t.memory_set k.world ≡ ok (m, w)
      → exit_current_and_run_next r code k
        ≡ ok (
          Exit.scheduled,
          record {
            world = w;
            table = record k.table {
              tasks = exited p code m t.children k.table.tasks;
              current = none;
            };
          },
        )
  unfolding exit_current_and_run_next end_task on_table take_current_task borrow_mut change_table
      borrow
  exit_run k p code t m w c ne g e =
      let other = ne→== p 0 ne in
      let here = get-change_self p (end_block code) k.table.tasks t g (λ _. refl) in
      let cleared : Kernel r = record k {
        table = record k.table {
          tasks =
              change_task p clear_children
                (moved t.children (change_task p (end_block code) k.table.tasks));
          current = none;
        };
      } in
      rw
        (
          c,
          unwrap,
          other,
          if◌then◌else◌,
          here,
          move_children_lem r t.children _,
          lift_lem r (r.recycle_data_pages t.memory_set) cleared m w e,
        )
        refl

  count_left :
      {M F : Type 0} (s : Table M F) (p code : ℕ) (m : M) (t : TaskControlBlock M F)
      → IsConsistent s
      → (let u : Table M F = record s {
        tasks = exited p code m t.children s.tasks;
        current = none;
      } in
          IsConsistent u)
      → s.current ≡ some p
      → p ≢ 0
      → get_task p s.tasks ≡ some t
      → {u : TaskControlBlock M F} → get_task p (exited p code m t.children s.tasks) ≡ some u
      → strong_count p (record s { tasks = exited p code m t.children s.tasks; current = none }) ≡ 1
  unfolding strong_count holds
  count_left s p code m t before after c ne g {u} last = omega (
    arith,
    before.queued p,
    ap (holds p) c,
    one_self p,
    unique s p before,
    runs-le-lives p s.tasks,
    after.kept p ne,
    unique (record s { tasks = exited p code m t.children s.tasks; current = none }) p after,
    lives_of_get p (exited p code m t.children s.tasks) u last,
    one_ne p 0 ne,
  )

  -- In each state that the steps lead to from the first process on, where a process but the first
  -- one runs and the recycling of its pages returns: its end returns, and another process can run.
  -- Its block has ended, with the exit code, the memory that the recycling left and no children; the
  -- first process has them behind its own children; one reference to the block is left, so it stays
  -- until it is waited for.
  pub exit_current_and_run_next_lem :
      (k : Kernel r) (p code : ℕ) (t : Task r) (m : r.MemorySet) (w : r.World)
      → Reachable r k
      → k.table.current ≡ some p
      → p ≢ 0
      → get_task p k.table.tasks ≡ some t
      → r.recycle_data_pages t.memory_set k.world ≡ ok (m, w)
      → (k' : Kernel r) × (u i v : Task r) × (exit_current_and_run_next r code k
          ≡ ok (Exit.scheduled, k'))
        × (k'.table.current ≡ none)
        × (get_task p k'.table.tasks ≡ some u)
        × (is_zombie u ≡ true)
        × (u.exit_code ≡ code)
        × (u.memory_set ≡ m)
        × (u.children ≡ [])
        × (get_task 0 k.table.tasks ≡ some i)
        × (get_task 0 k'.table.tasks ≡ some v)
        × (v.children ≡ i.children ++ t.children)
        × (strong_count p k'.table ≡ 1)
  exit_current_and_run_next_lem k p code t m w run c ne g e =
      let s = k.table in
      let ts = s.tasks in
      let consistent = Reachable-IsConsistent r k run in
      let ended = change_task p (end_block code) ts in
      let us = moved t.children ended in
      let cleared = change_task p clear_children us in
      let (i, gi, _, _) =
        block_of s 0 consistent (let q = consistent.first in omega (arith, consistent.queued 0)) in
      let root = λ (h : 0 ≡ p). ne (sym h) in
      let (v, gv, cv) =
        moved_first t.children ended i
          (get-change_ne p (end_block code) 0 ts root (λ _. refl) ∙ gi) in
      let (u, gu, zu, _, xu) =
        moved_other p t.children ended (end_block code t) ne
          (get-change_self p (end_block code) ts t g (λ _. refl)) in
      let empty = get-change_self p clear_children us u gu (λ _. refl) in
      let after = exit-IsConsistent s p code m t consistent c ne g in
      let last = get-change_self p (set_memory m) cleared (clear_children u) empty (λ _. refl) in
      (
        _,
        set_memory m (clear_children u),
        i,
        v,
        exit_run k p code t m w c ne g e,
        refl,
        last,
        zu,
        xu,
        refl,
        refl,
        gi,
        get-change_ne p (set_memory m) 0 cleared root (λ _. refl)
            ∙ get-change_ne p clear_children 0 us root (λ _. refl)
            ∙ gv,
        cv,
        count_left s p code m t consistent after c ne g last,
      )
