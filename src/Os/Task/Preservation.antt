-- ===== src/Os/Task/Preservation.antt =====
-- Every step of the kernel keeps the invariant of the table of processes.
use r_core_tutorial_code.Base.{
  ℕ, ◌+◌, ◌^◌, ◌<◌, ◌≡◌, ◌≢◌, refl, ap, sym, arith, ◌∙◌, Bool, true, false, Option, none, some,
  List, [], inl, inr, ◌∷◌, if◌then◌else◌, ◌==◌, ok, panic, Result, and_then, unwrap, Option-cases,
  Bool-cases, ==→ne, ==→eq,
}
use mathlib.Core.Path.{subst}
use r_core_tutorial_code.Base.Count.{one_self}
use r_core_tutorial_code.Os.Task.Control.{is_zombie, get_task}
use r_core_tutorial_code.Os.Task.Table.{holds, take_current_task}
use r_core_tutorial_code.Os.Task.Kernel.{Resources, Kernel, Task, Run, Exit, current_task, on_table}
use r_core_tutorial_code.Os.Task.Process.{
  run_tasks, suspend_current_and_run_next, exit_current_and_run_next, any_child, find_zombie,
}
use r_core_tutorial_code.Os.Task.Wait.{sys_fork, sys_exec, sys_waitpid}
use r_core_tutorial_code.Os.Task.Consistent.{IsConsistent, IsConsistent-AreAlike, block_of}
use r_core_tutorial_code.Os.Task.Transitions.{
  dispatch-IsConsistent, suspend-IsConsistent, fork-IsConsistent,
}
use r_core_tutorial_code.Os.Task.Zombies.{exit-IsConsistent}
use r_core_tutorial_code.Os.Task.Reaping.{reap-IsConsistent}
use r_core_tutorial_code.Os.Task.Effects.{
  run_tasks-some, run_tasks-none, suspend_some, exit-ok, exit_first, pure-ok, pure_value,
}
use r_core_tutorial_code.Os.Task.Calls.{sys_fork-ok, sys_exec-ok}
use r_core_tutorial_code.Os.Task.Search.{find_zombie-some, has_ended-true}
use r_core_tutorial_code.Os.Task.Waiting.{waitpid_no_child, waitpid_running, waitpid_reap, reap-ok}
use r_core_tutorial_code.Os.Task.Lifecycle.{
  Step, dispatched, suspended, exited, forked, executed, waited, Reachable, booted, stepped,
  boot-IsConsistent,
}

module _ (r : Resources) where
  -- A call that returned was made by a process.
  unwrap_current :
      {B : Type 0} (o : Option ℕ) (rest : ℕ → Run r B) (k : Kernel r) (res : Result (B × Kernel r))
      → and_then (unwrap o k) rest ≡ res
      → res ≢ panic
      → (p : ℕ) × (o ≡ some p)
  unwrap_current none rest k res h ne = absurd (ne (sym h))
  unwrap_current (some p) rest k res h ne = (p, refl)

  pub caller :
      {B : Type 0} (rest : ℕ → Run r B) (k : Kernel r) (b : B) (k' : Kernel r)
      → and_then (current_task r k) rest ≡ ok (b, k')
      → (p : ℕ) × (k.table.current ≡ some p)
  unfolding current_task
  caller rest k b k' h = unwrap_current k.table.current rest k _ h cc

  pub suspender :
      (k k' : Kernel r)
      → suspend_current_and_run_next r k ≡ ok (tt, k')
      → (p : ℕ) × (k.table.current ≡ some p)
  unfolding suspend_current_and_run_next on_table take_current_task
  suspender k k' h = unwrap_current k.table.current _ _ _ h cc

  pub leaver :
      (k k' : Kernel r) (code : ℕ)
      → exit_current_and_run_next r code k ≡ ok (Exit.scheduled, k')
      → (p : ℕ) × (k.table.current ≡ some p)
  unfolding exit_current_and_run_next on_table take_current_task
  leaver k k' code h = unwrap_current k.table.current _ _ _ h cc

  -- The block of the process that runs.
  pub running_block :
      (k : Kernel r) (p : ℕ)
      → IsConsistent k.table
      → k.table.current ≡ some p
      → (t : Task r) × (get_task p k.table.tasks ≡ some t) × (t.pid ≡ p) × (is_zombie t ≡ false)
  unfolding holds
  running_block k p c e = block_of k.table p c (omega (arith, ap (holds p) e, one_self p))

  dispatch_step :
      (k k' : Kernel r) (p : Option ℕ)
      → IsConsistent k.table
      → k.table.current ≡ none
      → run_tasks r k ≡ ok (p, k')
      → IsConsistent k'.table
  dispatch_step k k' p c idle h = go k.table.ready_queue refl
    where
      go : (q : List ℕ) → k.table.ready_queue ≡ q → IsConsistent k'.table
      go [] e = subst IsConsistent (pure-ok r _ _ _ _ (sym (run_tasks-none r k e) ∙ h)) c
      go (x ∷ xs) e =
          subst IsConsistent (pure-ok r _ _ _ _ (sym (run_tasks-some r k x xs e) ∙ h))
            (dispatch-IsConsistent k.table x xs c e idle)

  suspend_step :
      (k k' : Kernel r)
      → IsConsistent k.table
      → suspend_current_and_run_next r k ≡ ok (tt, k')
      → IsConsistent k'.table
  suspend_step k k' c h =
      let (p, e) = suspender k k' h in
      subst IsConsistent (pure-ok r _ _ _ _ (sym (suspend_some r k p e) ∙ h))
        (suspend-IsConsistent k.table p c e)

  pub not_scheduled :
      {A : Type 0} (b : Bool)
      → (if b then Exit.exit_success else Exit.exit_failure) ≡ Exit.scheduled
      → A
  not_scheduled true h = absurd cc
  not_scheduled false h = absurd cc

  -- The first process never gives way to another by its end.
  exit_step :
      (k k' : Kernel r) (code : ℕ)
      → IsConsistent k.table
      → exit_current_and_run_next r code k ≡ ok (Exit.scheduled, k')
      → IsConsistent k'.table
  exit_step k k' code c h =
      let (p, e) = leaver k k' code h in
      let (t, g, same, z) = running_block k p c e in
      elim (Bool-cases (p == 0)) [
        | inl root ↦
            not_scheduled (code == 0)
              (pure_value r _ _ _ _ (sym (exit_first r k p code e (==→eq _ _ root)) ∙ h))
        | inr other ↦
            let ne = ==→ne _ _ other in
            let (m, table) = exit-ok r k p code t Exit.scheduled k' e ne g h in
            subst IsConsistent table (exit-IsConsistent k.table p code m t c e ne g)
      ]

  fork_step :
      (k k' : Kernel r) (pid : ℕ)
      → IsConsistent k.table
      → k.table.pids.current + 1 < 2 ^ 64
      → sys_fork r k ≡ ok (pid, k')
      → IsConsistent k'.table
  unfolding sys_fork
  fork_step k k' pid c small h =
      let (p, e) = caller _ k pid k' h in
      let (t, g, same, z) = running_block k p c e in
      let (child, is_child, named, table) = sys_fork-ok r k p t pid k' e g h in
      subst IsConsistent table (
        fork-IsConsistent k.table p t child c g z small is_child.new_pid is_child.awake
          is_child.no_children)

  exec_step :
      (k k' : Kernel r) (path res : ℕ)
      → IsConsistent k.table
      → sys_exec r path k ≡ ok (res, k')
      → IsConsistent k'.table
  unfolding sys_exec
  exec_step k k' path res c h =
      let (p, e) = caller _ k res k' h in
      let (ts, alike, table) = sys_exec-ok r k p path res k' e h in
      subst IsConsistent table (IsConsistent-AreAlike k.table _ c alike refl (λ _. refl))

  wait_step :
      (k k' : Kernel r) (pid ptr res : ℕ)
      → IsConsistent k.table
      → sys_waitpid r pid ptr k ≡ ok (res, k')
      → IsConsistent k'.table
  unfolding sys_waitpid
  wait_step k k' pid ptr res c h =
      let (p, e) = caller _ k res k' h in
      let (t, g, same, z) = running_block k p c e in
      elim (Bool-cases (any_child pid t.children)) [
        | inl meant ↦ elim (Option-cases (find_zombie pid k.table.tasks t.children)) [
          | inl running ↦
              subst IsConsistent
                (pure-ok r _ _ _ _ (sym (waitpid_running r k p pid ptr t e g meant running) ∙ h)) c
          | inr (idx, found) ↦
              let (x, listed, _, over) = find_zombie-some k.table.tasks pid t.children idx found in
              let (y, child, ended) = has_ended-true k.table.tasks x over in
              subst IsConsistent
                (reap-ok r k p idx x ptr t y c g z listed child ended res k'
                  (sym (waitpid_reap r k p pid ptr t e g idx meant found) ∙ h))
                (reap-IsConsistent k.table p idx x t y c g z listed child ended)
        ]
        | inr none_meant ↦
            subst IsConsistent
              (pure-ok r _ _ _ _ (sym (waitpid_no_child r k p pid ptr t e g none_meant) ∙ h)) c
      ]

  pub Step-IsConsistent :
      (k k' : Kernel r) → Step r k k' → IsConsistent k.table → IsConsistent k'.table
  Step-IsConsistent _ _ (dispatched k k' p idle h) c = dispatch_step k k' p c idle h
  Step-IsConsistent _ _ (suspended k k' h) c = suspend_step k k' c h
  Step-IsConsistent _ _ (exited k k' code h) c = exit_step k k' code c h
  Step-IsConsistent _ _ (forked k k' pid small h) c = fork_step k k' pid c small h
  Step-IsConsistent _ _ (executed k k' path res h) c = exec_step k k' path res c h
  Step-IsConsistent _ _ (waited k k' pid ptr res h) c = wait_step k k' pid ptr res c h

  -- In each state that the steps lead to from the first process on: the ids of the blocks are those
  -- that the allocator gave out and did not get back; each block but the first stands in the list of
  -- children of one block, once, and of no block that has ended; the processes that have not ended
  -- are those in the queue and the one that runs, once each; the first process has not ended.
  pub Reachable-IsConsistent : (k : Kernel r) → Reachable r k → IsConsistent k.table
  Reachable-IsConsistent _ (booted w elf_data k h) = boot-IsConsistent r w elf_data k h
  Reachable-IsConsistent _ (stepped k k' run step) =
      Step-IsConsistent k k' step (Reachable-IsConsistent k run)
