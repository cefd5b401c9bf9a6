-- ===== src/Os/Task/Fairness.antt =====
-- The order in which the processes run.
use r_core_tutorial_code.Base.{
  ℕ, ◌≡◌, refl, ap, sym, ◌∙◌, Option, none, some, List, [], inl, inr, ◌∷◌, ◌++◌, ◌==◌, ok,
  Option-cases, Bool-cases, ==→ne, ==→eq,
}
use mathlib.Core.List.{append-nil, append_assoc}
use r_core_tutorial_code.Os.Task.Table.{Table}
use r_core_tutorial_code.Os.Task.Kernel.{Resources, Kernel, Exit}
use r_core_tutorial_code.Os.Task.Process.{
  run_tasks, suspend_current_and_run_next, exit_current_and_run_next, any_child, find_zombie,
}
use r_core_tutorial_code.Os.Task.Wait.{sys_fork, sys_exec, sys_waitpid}
use r_core_tutorial_code.Os.Task.Consistent.{IsConsistent}
use r_core_tutorial_code.Os.Task.Effects.{
  run_tasks-some, run_tasks-none, suspend_some, exit-ok, exit_first, pure-ok, pure_value,
}
use r_core_tutorial_code.Os.Task.Calls.{sys_fork-ok, sys_exec-ok}
use r_core_tutorial_code.Os.Task.Search.{find_zombie-some, has_ended-true}
use r_core_tutorial_code.Os.Task.Waiting.{waitpid_no_child, waitpid_running, waitpid_reap, reap-ok}
use r_core_tutorial_code.Os.Task.Lifecycle.{
  Step, dispatched, suspended, exited, forked, executed, waited, Reachable, stepped,
}
use r_core_tutorial_code.Os.Task.Preservation.{
  caller, suspender, leaver, not_scheduled, running_block, Reachable-IsConsistent,
}

-- The process that a round of the loop chose.
abbrev pub chosen : Option ℕ → List ℕ
chosen none = []
chosen (some p) = p ∷ []

module _ (r : Resources) where
  -- The processes that a step starts.
  abbrev pub ran : (k k' : Kernel r) → Step r k k' → List ℕ
  ran _ _ (dispatched k k' p idle h) = chosen p
  ran _ _ (suspended k k' h) = []
  ran _ _ (exited k k' code h) = []
  ran _ _ (forked k k' pid small h) = []
  ran _ _ (executed k k' path res h) = []
  ran _ _ (waited k k' pid ptr res h) = []

  -- A sequence of steps, with the processes that it starts, in their order.
  pub data Trace : Kernel r → List ℕ → Kernel r → Type 0 where
    done : (k : Kernel r) → Trace k [] k
    next :
        (k k' k'' : Kernel r) (ps : List ℕ) (step : Step r k k')
        → Trace k' ps k''
        → Trace k (ran k k' step ++ ps) k''

  -- The queue after a step is the one before it, without the process that was started, and with
  -- others behind it.
  abbrev Moves : List ℕ → Kernel r → Kernel r → Type 0
  Moves ps k k' = (later : List ℕ) × (ps ++ k'.table.ready_queue ≡ k.table.ready_queue ++ later)

  -- A call that leaves the queue.
  stays : (k k' : Kernel r) → k.table.ready_queue ≡ k'.table.ready_queue → Moves [] k k'
  stays k k' e = ([], sym e ∙ sym (append-nil _))

  abbrev queue_of : Table r.MemorySet r.File → List ℕ
  queue_of s = s.ready_queue

  -- The queue and the chosen process after a round of the loop that is known.
  chose :
      (k k' k1 : Kernel r) (p q : Option ℕ)
      → run_tasks r k ≡ ok (q, k1)
      → run_tasks r k ≡ ok (p, k')
      → chosen p ++ k'.table.ready_queue ≡ chosen q ++ k1.table.ready_queue
  chose k k' k1 p q e h =
      let same = sym h ∙ e in
      ap (λ o. chosen o ++ k'.table.ready_queue) (pure_value r _ _ _ _ same)
      ∙ ap (λ (s : Table r.MemorySet r.File). chosen q ++ queue_of s) (pure-ok r _ _ _ _ same)

  dispatch-Moves :
      (k k' : Kernel r) (p : Option ℕ) → run_tasks r k ≡ ok (p, k') → Moves (chosen p) k k'
  dispatch-Moves k k' p h = go k.table.ready_queue refl
    where
      go : (q : List ℕ) → k.table.ready_queue ≡ q → Moves (chosen p) k k'
      go [] e = ([], chose k k' k p none (run_tasks-none r k e) h ∙ sym (append-nil _))
      go (x ∷ xs) e =
          ([], chose k k' _ p (some x) (run_tasks-some r k x xs e) h ∙ sym e ∙ sym (append-nil _))

  suspend-Moves : (k k' : Kernel r) → suspend_current_and_run_next r k ≡ ok (tt, k') → Moves [] k k'
  suspend-Moves k k' h =
      let (p, e) = suspender r k k' h in
      (p ∷ [], ap queue_of (pure-ok r _ _ _ _ (sym h ∙ suspend_some r k p e)))

  exit-Moves :
      (k k' : Kernel r) (code : ℕ)
      → IsConsistent k.table
      → exit_current_and_run_next r code k ≡ ok (Exit.scheduled, k')
      → Moves [] k k'
  exit-Moves k k' code c h =
      let (p, e) = leaver r k k' code h in
      let (t, g, same, z) = running_block r k p c e in
      elim (Bool-cases (p == 0)) [
        | inl root ↦
            not_scheduled r (code == 0)
              (pure_value r _ _ _ _ (sym (exit_first r k p code e (==→eq _ _ root)) ∙ h))
        | inr other ↦
            let (m, table) = exit-ok r k p code t Exit.scheduled k' e (==→ne _ _ other) g h in
            stays k k' (ap queue_of table)
      ]

  fork-Moves :
      (k k' : Kernel r) (pid : ℕ)
      → IsConsistent k.table
      → sys_fork r k ≡ ok (pid, k')
      → Moves [] k k'
  unfolding sys_fork
  fork-Moves k k' pid c h =
      let (p, e) = caller r _ k pid k' h in
      let (t, g, same, z) = running_block r k p c e in
      let (child, is_child, named, table) = sys_fork-ok r k p t pid k' e g h in
      (child.pid ∷ [], sym (ap queue_of table))

  exec-Moves : (k k' : Kernel r) (path res : ℕ) → sys_exec r path k ≡ ok (res, k') → Moves [] k k'
  unfolding sys_exec
  exec-Moves k k' path res h =
      let (p, e) = caller r _ k res k' h in
      let (ts, alike, table) = sys_exec-ok r k p path res k' e h in stays k k' (ap queue_of table)

  wait-Moves :
      (k k' : Kernel r) (pid ptr res : ℕ)
      → IsConsistent k.table
      → sys_waitpid r pid ptr k ≡ ok (res, k')
      → Moves [] k k'
  unfolding sys_waitpid
  wait-Moves k k' pid ptr res c h =
      let (p, e) = caller r _ k res k' h in
      let (t, g, same, z) = running_block r k p c e in
      elim (Bool-cases (any_child pid t.children)) [
        | inl meant ↦ elim (Option-cases (find_zombie pid k.table.tasks t.children)) [
          | inl running ↦ stays k k' (
              ap queue_of
                (pure-ok r _ _ _ _ (sym (waitpid_running r k p pid ptr t e g meant running) ∙ h)))
          | inr (idx, found) ↦
              let (x, listed, _, over) = find_zombie-some k.table.tasks pid t.children idx found in
              let (y, child, ended) = has_ended-true k.table.tasks x over in
              stays k k' (
                ap queue_of (
                  reap-ok r k p idx x ptr t y c g z listed child ended res k'
                    (sym (waitpid_reap r k p pid ptr t e g idx meant found) ∙ h)))
        ]
        | inr none_meant ↦ stays k k' (
            ap queue_of
              (pure-ok r _ _ _ _ (sym (waitpid_no_child r k p pid ptr t e g none_meant) ∙ h)))
      ]

  step-Moves :
      (k k' : Kernel r) (step : Step r k k') → IsConsistent k.table → Moves (ran k k' step) k k'
  step-Moves _ _ (dispatched k k' p idle h) c = dispatch-Moves k k' p h
  step-Moves _ _ (suspended k k' h) c = suspend-Moves k k' h
  step-Moves _ _ (exited k k' code h) c = exit-Moves k k' code c h
  step-Moves _ _ (forked k k' pid small h) c = fork-Moves k k' pid c h
  step-Moves _ _ (executed k k' path res h) c = exec-Moves k k' path res h
  step-Moves _ _ (waited k k' pid ptr res h) c = wait-Moves k k' pid ptr res c h

  -- From each state that the steps lead to from the first process on, along each sequence of further
  -- steps: the processes that it starts, in their order, and behind them the queue at its end are
  -- the queue at its beginning and behind that the processes that came to the queue later. So the
  -- processes run in the order of the queue, and none overtakes another.
  pub trace_order :
      (k k' : Kernel r) (ps : List ℕ)
      → Reachable r k
      → Trace k ps k'
      → (later : List ℕ) × (ps ++ k'.table.ready_queue ≡ k.table.ready_queue ++ later)
  trace_order _ _ _ run (done k) = ([], sym (append-nil _))
  trace_order _ _ _ run (next k k' k'' ps step rest) =
      let (xs, e) = step-Moves k k' step (Reachable-IsConsistent r k run) in
      let (ys, f) = trace_order k' k'' ps (stepped k k' run step) rest in
      let qs = k''.table.ready_queue in
      let started = ran k k' step in
      (
        xs ++ ys,
        append_assoc started ps qs
            ∙ ap (λ l. started ++ l) f
            ∙ sym (append_assoc started k'.table.ready_queue ys)
            ∙ ap (λ l. l ++ ys) e
            ∙ append_assoc k.table.ready_queue xs ys,
      )
