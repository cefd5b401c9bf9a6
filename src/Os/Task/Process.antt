-- ===== src/Os/Task/Process.antt =====
-- os/src/task/task.rs, mod.rs and processor.rs, and os/src/syscall/process.rs: what is done with a
-- process from its creation to its removal. No pointer to a process that could exit is kept on a
-- kernel stack across a switch, so the table counts them all.
use r_core_tutorial_code.Base.{
  ℕ, zero, suc, Bool, false, ◌&&◌, ◌||◌, Option, none, some, List, [], ◌∷◌, ◌++◌, if◌then◌else◌,
  ◌==◌, ok, pure, ◌>>=◌, ◌>>◌, gets, unwrap,
}
use r_core_tutorial_code.Os.Task.Pid
use r_core_tutorial_code.Os.Task.Control.{
  TaskStatus, TaskControlBlock, goto_trap_return, is_zombie, get_task,
}
use r_core_tutorial_code.Os.Task.Table.{add_task, fetch_task, take_current_task, initproc}
use r_core_tutorial_code.Os.Task.Kernel.{
  Resources, Kernel, Task, Run, Exit, lift, on_table, change_table, borrow, borrow_mut,
  trap_cx_frame, pid_alloc, kernel_stack_new, minus_one,
}
use r_core_tutorial_code.Os.Trap.{TrapContext, app_init_context}

-- The place of the first child that has ended and that the argument of `waitpid` means.
abbrev pub means : ℕ → ℕ → Bool
means pid p = pid == minus_one || pid == p

unfoldable pub any_child : ℕ → List ℕ → Bool
any_child pid [] = false
any_child pid (p ∷ ps) = means pid p || any_child pid ps

unfoldable pub remove_at : List ℕ → ℕ → List ℕ
remove_at [] i = []
remove_at (p ∷ ps) zero = ps
remove_at (p ∷ ps) (suc i) = p ∷ remove_at ps i

module _ {M F : Type 0} where
  unfoldable pub has_ended : ℕ → List (TaskControlBlock M F) → Bool
  has_ended p tasks = elim (get_task p tasks) [ none ↦ false | some t ↦ is_zombie t ]

  unfoldable pub find_zombie : ℕ → List (TaskControlBlock M F) → List ℕ → Option ℕ
  find_zombie pid tasks [] = none
  find_zombie pid tasks (p ∷ ps) =
      if has_ended p tasks && means pid p
      then some 0
      else elim (find_zombie pid tasks ps) [ none ↦ none | some i ↦ some (suc i) ]

module _ (r : Resources) where
  -- The write of a trap context.
  unfoldable pub modify_trap_cx : ℕ → (TrapContext → TrapContext) → Run r (Unit {0})
  modify_trap_cx ppn f = lift r (λ w. ok (tt, r.set_trap_cx ppn (f (r.get_trap_cx ppn w)) w))

  unfoldable pub insert_task : Task r → Run r (Unit {0})
  insert_task t = change_table r (λ s. record s { tasks = t ∷ s.tasks })

  unfoldable pub push_ready : ℕ → Run r (Unit {0})
  push_ready p = change_table r (add_task p)

  -- `TaskControlBlock::new`; the result is the id.
  unfoldable pub new : List ℕ → Run r ℕ
  new elf_data = do
    (memory_set, user_sp, entry_point) ← lift r (r.from_elf elf_data)
    trap_cx_ppn ← trap_cx_frame r memory_set
    pid ← pid_alloc r
    kernel_stack_top ← kernel_stack_new r pid
    insert_task (record {
      pid = pid;
      trap_cx_ppn = trap_cx_ppn;
      base_size = user_sp;
      task_cx = goto_trap_return r.trap_return kernel_stack_top;
      task_status = TaskStatus.ready;
      memory_set = memory_set;
      parent = none;
      children = [];
      exit_code = 0;
      fd_table = some r.stdin ∷ some r.stdout ∷ some r.stdout ∷ [];
    })
    satp ← gets (λ (k : Kernel r). r.kernel_token k.world)
    modify_trap_cx trap_cx_ppn (λ _.
        app_init_context r.user_sstatus entry_point user_sp satp kernel_stack_top r.trap_handler)
    pure pid

  -- `add_initproc`; the argument is the contents of the file `initproc`.
  unfoldable pub add_initproc : List ℕ → Run r (Unit {0})
  add_initproc elf_data = do pid ← new elf_data; push_ready pid

  -- `TaskControlBlock::exec`
  unfoldable pub exec : ℕ → List ℕ → Run r (Unit {0})
  exec pid elf_data = do
    (memory_set, user_sp, entry_point) ← lift r (r.from_elf elf_data)
    trap_cx_ppn ← trap_cx_frame r memory_set
    old ← borrow r pid
    borrow_mut r pid (λ t. record t { memory_set = memory_set })
    lift r (r.drop_memory old.memory_set)
    borrow_mut r pid (λ t. record t { trap_cx_ppn = trap_cx_ppn })
    satp ← gets (λ (k : Kernel r). r.kernel_token k.world)
    modify_trap_cx trap_cx_ppn (λ _.
        app_init_context r.user_sstatus entry_point user_sp satp (Pid.kernel_stack_position pid).1
          r.trap_handler)

  -- The block of a child.
  abbrev pub child_of : Task r → ℕ → r.MemorySet → ℕ → ℕ → Task r
  child_of parent pid memory_set trap_cx_ppn kernel_stack_top = record {
    pid = pid;
    trap_cx_ppn = trap_cx_ppn;
    base_size = parent.base_size;
    task_cx = goto_trap_return r.trap_return kernel_stack_top;
    task_status = TaskStatus.ready;
    memory_set = memory_set;
    parent = some parent.pid;
    children = [];
    exit_code = 0;
    fd_table = parent.fd_table;
  }

  -- `TaskControlBlock::fork`; the result is the id of the child.
  unfoldable pub fork : ℕ → Run r ℕ
  fork self = do
    parent ← borrow r self
    memory_set ← lift r (r.from_existed_user parent.memory_set)
    trap_cx_ppn ← trap_cx_frame r memory_set
    pid ← pid_alloc r
    kernel_stack_top ← kernel_stack_new r pid
    insert_task (child_of parent pid memory_set trap_cx_ppn kernel_stack_top)
    borrow_mut r self (λ t. record t { children = t.children ++ pid ∷ [] })
    modify_trap_cx trap_cx_ppn (λ cx. record cx { kernel_sp = kernel_stack_top })
    pure pid

  -- A round of the loop of `run_tasks`; the result is the process that runs now, if there is one.
  unfoldable pub run_tasks : Run r (Option ℕ)
  run_tasks = do
    fetched ← on_table r fetch_task
    elim fetched [
      | none ↦ pure none
      | some p ↦ do
        borrow_mut r p (λ t. record t { task_status = TaskStatus.running })
        change_table r (λ s. record s { current = some p })
        pure (some p)
    ]

  unfoldable pub suspend_current_and_run_next : Run r (Unit {0})
  suspend_current_and_run_next = do
    taken ← on_table r take_current_task
    task ← unwrap taken
    borrow_mut r task (λ t. record t { task_status = TaskStatus.ready })
    push_ready task

  -- The children of a process go to `INITPROC`.
  unfoldable pub move_children : List ℕ → Run r (Unit {0})
  move_children [] = pure tt
  move_children (child ∷ rest) = do
    borrow_mut r child (λ t. record t { parent = some initproc })
    borrow_mut r initproc (λ t. record t { children = t.children ++ child ∷ [] })
    move_children rest

  unfoldable pub end_task : ℕ → ℕ → Run r Exit
  end_task task exit_code = do
    borrow_mut r task (λ t. record t { task_status = TaskStatus.zombie; exit_code = exit_code })
    inner ← borrow r task
    move_children inner.children
    borrow_mut r task (λ t. record t { children = [] })
    memory_set ← lift r (r.recycle_data_pages inner.memory_set)
    borrow_mut r task (λ t. record t { memory_set = memory_set })
    pure Exit.scheduled

  -- The exit code is an `i32`; the exit of the first process stops the machine.
  unfoldable pub exit_current_and_run_next : ℕ → Run r Exit
  exit_current_and_run_next exit_code = do
    taken ← on_table r take_current_task
    task ← unwrap taken
    if task == initproc
        then pure (if exit_code == 0 then Exit.exit_success else Exit.exit_failure)
        else end_task task exit_code
