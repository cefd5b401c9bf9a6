-- ===== src/Os/Task/Lifecycle.antt =====
-- The states that the kernel goes through, from the first process on.
use r_core_tutorial_code.Base.{
  ℕ, ◌+◌, ◌^◌, ◌<◌, ◌≡◌, refl, ap, arith, ◌∙◌, false, Option, none, List, [], ◌∷◌, ◌++◌,
  if◌then◌else◌, ok,
}
use mathlib.Core.Path.{subst}
use r_core_tutorial_code.Base.Count.{count, one, one_self, one_ne}
use r_core_tutorial_code.Base.Keeps.{and_then-ok}
use r_core_tutorial_code.Os.Task.Pid
use r_core_tutorial_code.Os.Task.Pid.Uniqueness.{alloc_step, start-IsWellFormed}
use r_core_tutorial_code.Os.Task.Control.{is_zombie, total}
use r_core_tutorial_code.Os.Task.Table
use r_core_tutorial_code.Os.Task.Table.{Table, holds, add_task}
use r_core_tutorial_code.Os.Task.Kernel.{
  Resources, Kernel, Task, Exit, pid_alloc, on_table, change_table,
}
use r_core_tutorial_code.Os.Task.Process.{
  new, add_initproc, run_tasks, suspend_current_and_run_next, exit_current_and_run_next,
  insert_task, modify_trap_cx, push_ready,
}
use r_core_tutorial_code.Os.Task.Wait.{sys_fork, sys_exec, sys_waitpid}
use r_core_tutorial_code.Os.Task.Totals.{runs, kids, lost}
use r_core_tutorial_code.Os.Task.Consistent.{IsConsistent}
use r_core_tutorial_code.Os.Task.Effects.{after_lift, after_frame, after_stack, pure-ok, pure_value}

module _ (r : Resources) where
  -- A step of the kernel. `run_tasks` goes on where no process runs; the calls are those of the
  -- process that runs. The bound is on the counter of the ids.
  pub data Step : Kernel r → Kernel r → Type 0 where
    dispatched :
        (k k' : Kernel r) (p : Option ℕ)
        → k.table.current ≡ none
        → run_tasks r k ≡ ok (p, k')
        → Step k k'
    suspended : (k k' : Kernel r) → suspend_current_and_run_next r k ≡ ok (tt, k') → Step k k'
    exited :
        (k k' : Kernel r) (exit_code : ℕ)
        → exit_current_and_run_next r exit_code k ≡ ok (Exit.scheduled, k')
        → Step k k'
    forked :
        (k k' : Kernel r) (pid : ℕ)
        → k.table.pids.current + 1 < 2 ^ 64
        → sys_fork r k ≡ ok (pid, k')
        → Step k k'
    executed : (k k' : Kernel r) (path res : ℕ) → sys_exec r path k ≡ ok (res, k') → Step k k'
    waited :
        (k k' : Kernel r) (pid exit_code_ptr res : ℕ)
        → sys_waitpid r pid exit_code_ptr k ≡ ok (res, k')
        → Step k k'

  pub data Reachable : Kernel r → Type 0 where
    booted :
        (w : r.World) (elf_data : List ℕ) (k : Kernel r)
        → add_initproc r elf_data (record { world = w; table = Table.empty }) ≡ ok (tt, k)
        → Reachable k
    stepped : (k k' : Kernel r) → Reachable k → Step k k' → Reachable k'

  -- The first block.
  new-ok :
      (elf_data : List ℕ) (k : Kernel r) (pid : ℕ) (k' : Kernel r)
      → new r elf_data k ≡ ok (pid, k')
      → (t : Task r) × (t.pid ≡ (Pid.alloc k.table.pids).0)
        × (t.children ≡ [])
        × (is_zombie t ≡ false)
        × (t.pid ≡ pid)
        × (record k.table { pids = (Pid.alloc k.table.pids).1; tasks = t ∷ k.table.tasks }
            ≡ k'.table)
  unfolding new pid_alloc on_table insert_task change_table modify_trap_cx
  new-ok elf_data k pid k' h =
      let ((m, sp, entry), w, h1) = after_lift r (r.from_elf elf_data) _ k pid k' h in
      let (ppn, h2) = after_frame r m _ _ pid k' h1 in
      let (w', h3) = after_stack r _ _ _ pid k' h2 in
      let (_, w2, h4) = after_lift r _ _ _ pid k' h3 in
      (_, refl, refl, refl, pure_value r _ _ _ _ h4, pure-ok r _ _ _ _ h4)

  abbrev first_table : Task r → Table r.MemorySet r.File
  first_table t = record {
    pids = (Pid.alloc Pid.new).1;
    tasks = t ∷ [];
    ready_queue = t.pid ∷ [];
    current = none;
  }

  first-IsConsistent :
      (t : Task r)
      → t.pid ≡ (Pid.alloc Pid.new).0
      → t.children ≡ []
      → is_zombie t ≡ false
      → IsConsistent (first_table t)
  unfolding total count holds Pid.new Pid.alloc Pid.alloc_from
  first-IsConsistent t pid leaf awake =
      let (_, ids) = alloc_step Pid.new (λ _. 0) start-IsWellFormed (omega arith) in
      let zeroth : t.pid ≡ 0 = pid in
      let kid = λ (x : ℕ). let e : kids x t ≡ 0 = ap (count x) leaf in e in
      let run = λ (x : ℕ). let e : runs x t ≡ one x t.pid = rw (awake, if◌then◌else◌) refl in e in
      let gone = λ (x : ℕ). let e : lost x t ≡ 0 = rw (awake, if◌then◌else◌) refl in e in
      record {
        ids = λ x. omega (arith, ids x, ap (one x) pid);
        kept = λ x ne. omega (arith, kid x, one_ne x t.pid (λ h. ne (h ∙ zeroth)));
        root = omega (arith, kid 0);
        queued = λ x. omega (arith, run x);
        ended = λ x. omega (arith, gone x);
        first = omega (arith, run 0, one_self 0, ap (one 0) zeroth);
      }

  pub boot-IsConsistent :
      (w : r.World) (elf_data : List ℕ) (k : Kernel r)
      → add_initproc r elf_data (record { world = w; table = Table.empty }) ≡ ok (tt, k)
      → IsConsistent k.table
  unfolding add_initproc push_ready change_table add_task Table.empty
  boot-IsConsistent w elf_data k h =
      let start : Kernel r = record { world = w; table = Table.empty } in
      let (pid, k1, e1, h1) = and_then-ok (new r elf_data start) _ tt k h in
      let (t, id, leaf, awake, named, table) = new-ok elf_data start pid k1 e1 in
      let queued = λ (s : Table r.MemorySet r.File) (n : ℕ).
        let v : Table r.MemorySet r.File = record s { ready_queue = s.ready_queue ++ n ∷ [] } in
        v in
      let same : first_table t ≡ k.table =
        ap (queued (record Table.empty { pids = (Pid.alloc Pid.new).1; tasks = t ∷ [] })) named
        ∙ ap (λ s. queued s pid) table
        ∙ pure-ok r _ _ _ _ h1 in
      subst IsConsistent same (first-IsConsistent t id leaf awake)
