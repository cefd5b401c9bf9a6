-- ===== src/Os/Task/RoundRobin.antt =====
-- Each process that is ready runs, where the timer suspends the one that runs.
use r_core_tutorial_code.Base.{
  ℕ, zero, suc, ◌≤◌, ◌≡◌, refl, ap, sym, arith, ◌∙◌, none, some, List, [], ◌∷◌, ◌++◌, ok, pure,
  and_then, ◌>>=◌, ◌>>◌, length, take, drop,
}
use mathlib.Core.List.{append-nil, append_assoc}
use r_core_tutorial_code.Os.Task.Control.{TaskStatus, change_task}
use r_core_tutorial_code.Os.Task.Kernel.{Resources, Kernel, Run}
use r_core_tutorial_code.Os.Task.Process.{run_tasks, suspend_current_and_run_next}
use r_core_tutorial_code.Os.Task.Fairness.{chosen}
use r_core_tutorial_code.Os.Task.Effects.{run_tasks-some, suspend_some}

module _ (r : Resources) where
  -- A process is chosen and later suspended, a number of times. The result is the list of the
  -- processes that ran.
  unfoldable pub rounds : ℕ → Run r (List ℕ)
  rounds zero = pure []
  rounds (suc n) = do
    started ← run_tasks r
    suspend_current_and_run_next r
    rest ← rounds n
    pure (chosen started ++ rest)

  -- One round, where the queue is not empty.
  round_lem :
      (k : Kernel r) (p : ℕ) (ps : List ℕ) (n : ℕ)
      → k.table.ready_queue ≡ p ∷ ps
      → (k' : Kernel r) × (rounds (suc n) k ≡ and_then (rounds n k') (λ rest. pure (p ∷ rest)))
        × (k'.table.ready_queue ≡ ps ++ p ∷ [])
  unfolding rounds
  round_lem k p ps n h =
      let ran : Kernel r = record k {
        table = record k.table {
          tasks = change_task p (λ t. record t { task_status = TaskStatus.running }) k.table.tasks;
          ready_queue = ps;
          current = some p;
        };
      } in
      let after : Kernel r = record ran {
        table = record ran.table {
          tasks = change_task p (λ t. record t { task_status = TaskStatus.ready }) ran.table.tasks;
          ready_queue = ps ++ p ∷ [];
          current = none;
        };
      } in
      (after, rw (run_tasks-some r k p ps h, suspend_some r ran p refl) refl, refl)

  rounds_over :
      (xs ys : List ℕ) (k : Kernel r)
      → k.table.ready_queue ≡ xs ++ ys
      → (k' : Kernel r) × (rounds (length xs) k ≡ ok (xs, k')) × (k'.table.ready_queue ≡ ys ++ xs)
  unfolding rounds
  rounds_over [] ys k h = (k, refl, h ∙ sym (append-nil ys))
  rounds_over (x ∷ xs) ys k h =
      let (k1, e, q) = round_lem k x (xs ++ ys) (length xs) h in
      let (k2, e2, q2) = rounds_over xs (ys ++ x ∷ []) k1 (q ∙ append_assoc xs ys (x ∷ [])) in
      (k2, e ∙ rw e2 refl, q2 ∙ append_assoc ys (x ∷ []) xs)

  take-drop : (n : ℕ) (xs : List ℕ) → take n xs ++ drop n xs ≡ xs
  take-drop zero xs = refl
  take-drop (suc n) [] = refl
  take-drop (suc n) (x ∷ xs) = ap (λ l. x ∷ l) (take-drop n xs)

  length-take : (n : ℕ) (xs : List ℕ) → n ≤ length xs → length (take n xs) ≡ n
  length-take zero xs h = refl
  length-take (suc n) [] h = absurd (omega arith)
  length-take (suc n) (x ∷ xs) h = ap suc (length-take n xs (omega arith))

  -- For each number of rounds up to the number of the processes in the queue, where each process
  -- that is chosen is suspended later: the rounds return, the processes that run are the first ones
  -- of the queue, in its order, and at the end they are behind the others. So after as many rounds
  -- as there are processes each of them has run, and the queue is the one of the beginning.
  pub rounds_lem :
      (n : ℕ) (k : Kernel r)
      → n ≤ length k.table.ready_queue
      → (k' : Kernel r) × (rounds n k ≡ ok (take n k.table.ready_queue, k'))
        × (k'.table.ready_queue ≡ drop n k.table.ready_queue ++ take n k.table.ready_queue)
  rounds_lem n k h =
      let q = k.table.ready_queue in
      let (k', e, f) = rounds_over (take n q) (drop n q) k (sym (take-drop n q)) in
      (k', ap (λ m. rounds m k) (sym (length-take n q h)) ∙ e, f)
