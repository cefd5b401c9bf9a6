-- ===== src/Os/Task/Transitions.antt =====
-- The creation of a child and the moves between the queue and the processor keep the invariant.
use r_core_tutorial_code.Base.{
  ℕ, ◌+◌, ◌^◌, ◌<◌, ◌≡◌, ◌≢◌, refl, ap, arith, ◌∙◌, false, none, some, List, [], ◌∷◌, ◌++◌,
  if◌then◌else◌,
}
use r_core_tutorial_code.Base.Count.{count, one, one_self, one_ne, count-append}
use r_core_tutorial_code.Os.Task.Pid
use r_core_tutorial_code.Os.Task.Pid.Uniqueness.{alloc_step}
use r_core_tutorial_code.Os.Task.Control.{
  TaskStatus, TaskControlBlock, is_zombie, get_task, change_task, total,
}
use r_core_tutorial_code.Os.Task.Totals.{
  lives, runs, kids, lost, total-change, total-free, get_pid, get_tail, runs-le-lives,
}
use r_core_tutorial_code.Os.Task.Table.{Table, holds}
use r_core_tutorial_code.Os.Task.Consistent.{
  IsConsistent, IsConsistent-AreAlike, change_alike_at, block_of,
}

module _ {M F : Type 0} where
  -- A block that a pointer leads to is counted.
  pub lives_of_get :
      (p : ℕ) (ts : List (TaskControlBlock M F)) (t : TaskControlBlock M F)
      → get_task p ts ≡ some t
      → 0 < total (lives p) ts
  lives_of_get p ts t g =
      let self : one p t.pid ≡ 1 = rw (get_pid p ts t g) (one_self p) in
      omega (arith, total-free (lives p) p ts t g)

  -- `run_tasks`
  pub dispatch-IsConsistent :
      (s : Table M F) (p : ℕ) (ps : List ℕ)
      → IsConsistent s
      → s.ready_queue ≡ p ∷ ps
      → s.current ≡ none
      → IsConsistent (record s {
        tasks = change_task p (λ t. record t { task_status = TaskStatus.running }) s.tasks;
        ready_queue = ps;
        current = some p;
      })
  unfolding count holds
  dispatch-IsConsistent s p ps c q n =
      let queue = λ (x : ℕ). ap (count x) q in
      let idle = λ (x : ℕ). ap (holds x) n in
      let (t, g, same, z) = block_of s p c (omega (arith, queue p, one_self p)) in
      IsConsistent-AreAlike s _ c (change_alike_at p _ s.tasks t g refl refl (rw z refl)) refl
        (λ x. omega (arith, queue x, idle x))

  -- `suspend_current_and_run_next`
  pub suspend-IsConsistent :
      (s : Table M F) (p : ℕ)
      → IsConsistent s
      → s.current ≡ some p
      → IsConsistent (record s {
        tasks = change_task p (λ t. record t { task_status = TaskStatus.ready }) s.tasks;
        ready_queue = s.ready_queue ++ p ∷ [];
        current = none;
      })
  unfolding count holds
  suspend-IsConsistent s p c n =
      let busy = λ (x : ℕ). ap (holds x) n in
      let (t, g, same, z) = block_of s p c (omega (arith, busy p, one_self p)) in
      IsConsistent-AreAlike s _ c (change_alike_at p _ s.tasks t g refl refl (rw z refl)) refl
        (λ x. omega (arith, busy x, count-append x s.ready_queue (p ∷ [])))

  -- `fork` and the entry of the child in the queue.
  abbrev pub forked : ℕ → TaskControlBlock M F → Table M F → Table M F
  forked p child s = record s {
    pids = (Pid.alloc s.pids).1;
    tasks =
        change_task p (λ t. record t { children = t.children ++ child.pid ∷ [] }) (child ∷ s.tasks);
    ready_queue = s.ready_queue ++ child.pid ∷ [];
  }

  pub fork-IsConsistent :
      (s : Table M F) (p : ℕ) (parent child : TaskControlBlock M F)
      → IsConsistent s
      → get_task p s.tasks ≡ some parent
      → is_zombie parent ≡ false
      → s.pids.current + 1 < 2 ^ 64
      → child.pid ≡ (Pid.alloc s.pids).0
      → is_zombie child ≡ false
      → child.children ≡ []
      → IsConsistent (forked p child s)
  unfolding count total
  fork-IsConsistent s p parent child c g awake small e z leaf =
      let ts = s.tasks in
      let (fresh, ids) = alloc_step s.pids (λ x. total (lives x) ts) c.ids small in
      let fresh_child : total (lives child.pid) ts ≡ 0 = rw e fresh in
      let first = c.first in
      let root = c.root in
      let ne_root : 0 ≢ child.pid =
        λ h. omega (arith, runs-le-lives 0 ts, ap (λ n. total (lives n) ts) h) in
      let ne : child.pid ≢ p =
        λ h. omega (arith, lives_of_get p ts parent g, ap (λ n. total (lives n) ts) h) in
      let there : get_task p (child ∷ ts) ≡ some parent = get_tail p child ts ne ∙ g in
      let push =
        λ (t : TaskControlBlock M F). record t { children = t.children ++ child.pid ∷ [] } in
      let pushed = λ (x : ℕ). count-append x parent.children (child.pid ∷ []) in
      let moved =
        λ (m : TaskControlBlock M F → ℕ). total-change m p push (child ∷ ts) parent there in
      let child_runs =
        λ (x : ℕ). let h : runs x child ≡ one x child.pid = rw (z, if◌then◌else◌) refl in h in
      let child_lost = λ (x : ℕ). let h : lost x child ≡ 0 = rw (z, if◌then◌else◌) refl in h in
      let parent_runs = λ (x : ℕ). let h : runs x (push parent) ≡ runs x parent = refl in h in
      let parent_lost = λ (x : ℕ).
        let h : lost x (push parent) ≡ lost x parent = rw (awake, if◌then◌else◌) refl in h in
      let child_kids = λ (x : ℕ). ap (count x) leaf in
      record {
        ids = λ x. omega (arith, ids x, ap (one x) e, moved (lives x));
        kept = λ x n.
            omega (arith, c.kept x n, moved (lives x), moved (kids x), pushed x, child_kids x);
        root = omega (arith, moved (kids 0), pushed 0, child_kids 0, one_ne 0 child.pid ne_root);
        queued = λ x. omega (
          arith,
          c.queued x,
          count-append x s.ready_queue (child.pid ∷ []),
          moved (runs x),
          child_runs x,
          parent_runs x,
        );
        ended = λ x. omega (arith, c.ended x, moved (lost x), child_lost x, parent_lost x);
        first =
            omega (arith, moved (runs 0), child_runs 0, parent_runs 0, one_ne 0 child.pid ne_root);
      }
