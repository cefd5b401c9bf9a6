-- ===== src/Os/Task/Control.antt =====
-- os/src/task/task.rs and context.rs: the control blocks of the processes. A process id stands for
-- the reference-counted pointer to its control block, since a block holds the only handle of its id.
-- `MemorySet` and `File` are the types of address spaces and of open files.
use r_core_tutorial_code.Base.{
  ℕ, suc, Bool, true, false, Option, none, some, List, [], ◌∷◌, ◌++◌, replicate, length,
  if◌then◌else◌, ◌==◌, ◌+◌,
}

pub data TaskStatus : Type 0 where
  ready : TaskStatus
  running : TaskStatus
  zombie : TaskStatus

pub record TaskContext : Type 0 where
  pub ra : ℕ
  pub sp : ℕ
  pub s : List ℕ

unfoldable pub zero_init : TaskContext
zero_init = record { ra = 0; sp = 0; s = replicate 12 0 }

-- The first argument is the address of `trap_return`.
unfoldable pub goto_trap_return : ℕ → ℕ → TaskContext
goto_trap_return trap_return kstack_ptr = record {
  ra = trap_return;
  sp = kstack_ptr;
  s = replicate 12 0;
}

pub record TaskControlBlock (MemorySet File : Type 0) : Type 0 where
  pub pid : ℕ
  pub trap_cx_ppn : ℕ
  pub base_size : ℕ
  pub task_cx : TaskContext
  pub task_status : TaskStatus
  pub memory_set : MemorySet
  pub parent : Option ℕ
  pub children : List ℕ
  pub exit_code : ℕ
  pub fd_table : List (Option File)

abbrev pub is_zombie_status : TaskStatus → Bool
is_zombie_status TaskStatus.ready = false
is_zombie_status TaskStatus.running = false
is_zombie_status TaskStatus.zombie = true

-- The first free descriptor.
unfoldable pub free_fd : {F : Type 0} → List (Option F) → Option ℕ
free_fd [] = none
free_fd (none ∷ fds) = some 0
free_fd (some f ∷ fds) = elim (free_fd fds) [ none ↦ none | some fd ↦ some (suc fd) ]

module _ {M F : Type 0} where
  abbrev pub is_zombie : TaskControlBlock M F → Bool
  is_zombie self = is_zombie_status self.task_status

  unfoldable pub alloc_fd : TaskControlBlock M F → ℕ × TaskControlBlock M F
  unfolding free_fd
  alloc_fd self = elim (free_fd self.fd_table) [
    | some fd ↦ (fd, self)
    | none ↦ (length self.fd_table, record self { fd_table = self.fd_table ++ none ∷ [] })
  ]

  -- The block that a pointer leads to.
  unfoldable pub get_task : ℕ → List (TaskControlBlock M F) → Option (TaskControlBlock M F)
  get_task p [] = none
  get_task p (t ∷ ts) = if t.pid == p then some t else get_task p ts

  -- A change through a pointer.
  unfoldable pub change_task :
      ℕ
      → (TaskControlBlock M F → TaskControlBlock M F)
      → List (TaskControlBlock M F)
      → List (TaskControlBlock M F)
  change_task p f [] = []
  change_task p f (t ∷ ts) = if t.pid == p then f t ∷ ts else t ∷ change_task p f ts

  -- The block that a pointer leads to is freed.
  unfoldable pub free_task : ℕ → List (TaskControlBlock M F) → List (TaskControlBlock M F)
  free_task p [] = []
  free_task p (t ∷ ts) = if t.pid == p then ts else t ∷ free_task p ts

  -- A sum over all blocks.
  unfoldable pub total : (TaskControlBlock M F → ℕ) → List (TaskControlBlock M F) → ℕ
  total f [] = 0
  total f (t ∷ ts) = f t + total f ts
