-- ===== src/Os/Task/Consistent.antt =====
-- The invariant of the table of processes, and the changes of the table that keep it.
use r_core_tutorial_code.Base.{ℕ, ◌+◌, ◌<◌, ◌≤◌, ◌≡◌, ◌≢◌, refl, ap, ◌∙◌, arith, false, some, List}
use r_core_tutorial_code.Base.Count.{count, one}
use r_core_tutorial_code.Os.Task.Pid.Uniqueness.{IsWellFormed, below-le}
use r_core_tutorial_code.Os.Task.Control.{TaskControlBlock, is_zombie, get_task, change_task, total}
use r_core_tutorial_code.Os.Task.Totals.{
  lives, runs, kids, lost, total-change, total-change_same, get_of_runs,
}
use r_core_tutorial_code.Os.Task.Table.{Table, holds}

-- The ids of the blocks are those that the allocator gave out; each block but the first is a child
-- of one block, which has not ended; the processes that have not ended are those in the queue and
-- the one that runs, once each; the first has not ended.
pub record IsConsistent {M F : Type 0} (s : Table M F) : Type 0 where
  pub ids : IsWellFormed s.pids (λ x. total (lives x) s.tasks)
  pub kept : (x : ℕ) → x ≢ 0 → total (kids x) s.tasks ≡ total (lives x) s.tasks
  pub root : total (kids 0) s.tasks ≡ 0
  pub queued : (x : ℕ) → count x s.ready_queue + holds x s.current ≡ total (runs x) s.tasks
  pub ended : (x : ℕ) → total (lost x) s.tasks ≡ 0
  pub first : total (runs 0) s.tasks ≡ 1

module _ {M F : Type 0} where
  -- The sums of two lists of blocks are the same.
  pub record AreAlike (ts us : List (TaskControlBlock M F)) : Type 0 where
    pub same_lives : (x : ℕ) → total (lives x) us ≡ total (lives x) ts
    pub same_runs : (x : ℕ) → total (runs x) us ≡ total (runs x) ts
    pub same_kids : (x : ℕ) → total (kids x) us ≡ total (kids x) ts
    pub same_lost : (x : ℕ) → total (lost x) us ≡ total (lost x) ts

  pub AreAlike-refl : (ts : List (TaskControlBlock M F)) → AreAlike ts ts
  AreAlike-refl ts = record {
    same_lives = λ _. refl;
    same_runs = λ _. refl;
    same_kids = λ _. refl;
    same_lost = λ _. refl;
  }

  pub AreAlike-trans :
      (ts us vs : List (TaskControlBlock M F)) → AreAlike ts us → AreAlike us vs → AreAlike ts vs
  AreAlike-trans ts us vs a b = record {
    same_lives = λ x. b.same_lives x ∙ a.same_lives x;
    same_runs = λ x. b.same_runs x ∙ a.same_runs x;
    same_kids = λ x. b.same_kids x ∙ a.same_kids x;
    same_lost = λ x. b.same_lost x ∙ a.same_lost x;
  }

  pub unique : (s : Table M F) (p : ℕ) → IsConsistent s → total (lives p) s.tasks ≤ 1
  unique s p c = omega (arith, c.ids p, below-le s.pids.current p)

  -- The block of a process that is in the queue or runs.
  pub block_of :
      (s : Table M F) (p : ℕ)
      → IsConsistent s
      → 0 < count p s.ready_queue + holds p s.current
      → (t : TaskControlBlock M F) × (get_task p s.tasks ≡ some t)
        × (t.pid ≡ p)
        × (is_zombie t ≡ false)
  block_of s p c h = let q = c.queued p in get_of_runs p s.tasks (unique s p c) (omega arith)

  pub IsConsistent-AreAlike :
      (s u : Table M F)
      → IsConsistent s
      → AreAlike s.tasks u.tasks
      → u.pids ≡ s.pids
      → ((x : ℕ)
          → count x u.ready_queue + holds x u.current ≡ count x s.ready_queue + holds x s.current)
      → IsConsistent u
  IsConsistent-AreAlike s u c a e q = record {
    ids = λ x. rw e (omega (arith, c.ids x, a.same_lives x));
    kept = λ x ne. omega (arith, c.kept x ne, a.same_kids x, a.same_lives x);
    root = let h = c.root in omega (arith, a.same_kids 0);
    queued = λ x. omega (arith, c.queued x, a.same_runs x, q x);
    ended = λ x. omega (arith, c.ended x, a.same_lost x);
    first = let h = c.first in omega (arith, a.same_runs 0);
  }

  -- A change that leaves the id, the children and whether the process has ended.
  pub change_alike :
      (p : ℕ) (f : TaskControlBlock M F → TaskControlBlock M F) (ts : List (TaskControlBlock M F))
      → ((t : TaskControlBlock M F) → (f t).pid ≡ t.pid)
      → ((t : TaskControlBlock M F) → (f t).children ≡ t.children)
      → ((t : TaskControlBlock M F) → is_zombie (f t) ≡ is_zombie t)
      → AreAlike ts (change_task p f ts)
  change_alike p f ts pid children zombie = record {
    same_lives = λ x. total-change_same (lives x) p f ts (λ t. rw (pid t) refl);
    same_runs = λ x. total-change_same (runs x) p f ts (λ t. rw (pid t, zombie t) refl);
    same_kids = λ x. total-change_same (kids x) p f ts (λ t. rw (children t) refl);
    same_lost = λ x. total-change_same (lost x) p f ts (λ t. rw (children t, zombie t) refl);
  }

  -- The same for the block that the pointer leads to.
  pub change_alike_at :
      (p : ℕ) (f : TaskControlBlock M F → TaskControlBlock M F) (ts : List (TaskControlBlock M F))
      (t : TaskControlBlock M F)
      → get_task p ts ≡ some t
      → (f t).pid ≡ t.pid
      → (f t).children ≡ t.children
      → is_zombie (f t) ≡ is_zombie t
      → AreAlike ts (change_task p f ts)
  change_alike_at p f ts t g pid children zombie =
      let r = λ (x : ℕ). let e : runs x (f t) ≡ runs x t = rw (zombie, pid) refl in e in
      let l = λ (x : ℕ). let e : lost x (f t) ≡ lost x t = rw (zombie, children) refl in e in
      let k = λ (x : ℕ). ap (count x) children in
      let o = λ (x : ℕ). ap (one x) pid in
      record {
        same_lives = λ x. omega (arith, total-change (lives x) p f ts t g, o x);
        same_runs = λ x. omega (arith, total-change (runs x) p f ts t g, r x);
        same_kids = λ x. omega (arith, total-change (kids x) p f ts t g, k x);
        same_lost = λ x. omega (arith, total-change (lost x) p f ts t g, l x);
      }
