-- ===== src/Os/Task/Table.antt =====
-- os/src/task/manager.rs and processor.rs: the queue of the processes that are ready, and the process
-- that runs. The oldest element of the queue is the head of the list.
use r_core_tutorial_code.Base.{ℕ, ◌+◌, Option, none, some, List, [], ◌∷◌, ◌++◌}
use r_core_tutorial_code.Base.Count.{count, one}
use r_core_tutorial_code.Os.Task.Pid.{PidAllocator}
use r_core_tutorial_code.Os.Task.Pid
use r_core_tutorial_code.Os.Task.Control.{TaskControlBlock, total}

-- `PID_ALLOCATOR`, the blocks in memory, `TASK_MANAGER` and `PROCESSOR`.
pub record Table (MemorySet File : Type 0) : Type 0 where
  pub pids : PidAllocator
  pub tasks : List (TaskControlBlock MemorySet File)
  pub ready_queue : List ℕ
  pub current : Option ℕ

-- `INITPROC` has the first id.
abbrev pub initproc : ℕ
initproc = 0

-- 1 if the pointer is this one.
unfoldable pub holds : ℕ → Option ℕ → ℕ
unfolding one
holds p none = 0
holds p (some q) = one p q

module _ {M F : Type 0} where
  -- `TaskManager::new`, `Processor::new` and `PidAllocator::new`
  unfoldable pub empty : Table M F
  empty = record { pids = Pid.new; tasks = []; ready_queue = []; current = none }

  -- `TaskManager::add`
  unfoldable pub add_task : ℕ → Table M F → Table M F
  add_task p self = record self { ready_queue = self.ready_queue ++ p ∷ [] }

  fetch_from : List ℕ → Table M F → Option ℕ × Table M F
  fetch_from [] self = (none, self)
  fetch_from (p ∷ ps) self = (some p, record self { ready_queue = ps })

  -- `TaskManager::fetch`
  unfoldable pub fetch_task : Table M F → Option ℕ × Table M F
  unfolding fetch_from
  fetch_task self = fetch_from self.ready_queue self

  -- `Processor::take_current`
  unfoldable pub take_current_task : Table M F → Option ℕ × Table M F
  take_current_task self = (self.current, record self { current = none })

  -- The references to a block: in the queue, in the processor, in the lists of children, and the
  -- one of `INITPROC`.
  unfoldable pub strong_count : ℕ → Table M F → ℕ
  unfolding holds total
  strong_count p self =
      count p self.ready_queue
      + holds p self.current
      + total (λ t. count p t.children) self.tasks
      + one p initproc
