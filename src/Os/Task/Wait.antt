-- ===== src/Os/Task/Wait.antt =====
-- os/src/syscall/process.rs: the system calls on processes. An `isize` is its bit pattern.
use r_core_tutorial_code.Base.{
  ℕ, none, some, if◌then◌else◌, ◌==◌, pure, ◌>>=◌, ◌>>◌, assert, gets, unwrap, get_elem?, set, ok,
  panic, Result, not,
}
use r_core_tutorial_code.Os.Task.Pid
use r_core_tutorial_code.Os.Task.Control.{free_task}
use r_core_tutorial_code.Os.Task.Table.{strong_count}
use r_core_tutorial_code.Os.Task.Kernel.{
  Resources, Kernel, Task, Run, lift, change_table, borrow, borrow_mut, current_task,
  kernel_stack_drop, minus_one, minus_two,
}
use r_core_tutorial_code.Os.Task.Process.{
  any_child, find_zombie, remove_at, fork, exec, modify_trap_cx, push_ready,
  suspend_current_and_run_next,
}

module _ (r : Resources) where
  -- The drop of a `PidHandle`
  unfoldable pub with_pids : Result Pid.PidAllocator → Run r (Unit {0})
  with_pids (ok pids) k = ok (tt, record k { table = record k.table { pids = pids } })
  with_pids _ k = panic

  unfoldable pub pid_dealloc : ℕ → Run r (Unit {0})
  unfolding with_pids
  pid_dealloc pid k = with_pids (Pid.dealloc k.table.pids pid) k

  -- The drop of a control block without children, its fields in their order.
  unfoldable pub drop_task : ℕ → Run r (Unit {0})
  drop_task pid = do
    t ← borrow r pid
    pid_dealloc pid
    kernel_stack_drop r pid
    lift r (r.drop_memory t.memory_set)
    change_table r (λ s. record s { tasks = free_task pid s.tasks })

  unfoldable pub sys_yield : Run r ℕ
  sys_yield = do suspend_current_and_run_next r; pure 0

  unfoldable pub sys_getpid : Run r ℕ
  sys_getpid = current_task r

  unfoldable pub sys_fork : Run r ℕ
  sys_fork = do
    current ← current_task r
    new_pid ← fork r current
    new_task ← borrow r new_pid
    modify_trap_cx r new_task.trap_cx_ppn (λ cx. record cx { x = set cx.x 10 0 })
    push_ready r new_pid
    pure new_pid

  unfoldable pub sys_exec : ℕ → Run r ℕ
  sys_exec path = do
    current ← current_task r
    inner ← borrow r current
    name ← lift r (r.translated_str (r.token inner.memory_set) path)
    app ← lift r (r.read_file name)
    elim app [ none ↦ pure minus_one | some all_data ↦ do exec r current all_data; pure 0 ]

  -- The child at a place of the list is removed, and its exit code is written.
  unfoldable pub reap : ℕ → Task r → ℕ → ℕ → Run r ℕ
  reap task inner exit_code_ptr idx = do
    child ← unwrap (get_elem? inner.children idx)
    borrow_mut r task (λ t. record t { children = remove_at t.children idx })
    references ← gets (λ (k : Kernel r). strong_count child k.table)
    assert (references == 0)
    found ← borrow r child
    lift r (r.write_translated (r.token inner.memory_set) exit_code_ptr found.exit_code)
    drop_task child
    pure child

  -- `strong_count` does not count the pointer `child` of the source itself.
  unfoldable pub sys_waitpid : ℕ → ℕ → Run r ℕ
  sys_waitpid pid exit_code_ptr = do
    task ← current_task r
    inner ← borrow r task
    tasks ← gets (λ (k : Kernel r). k.table.tasks)
    if not (any_child pid inner.children)
        then pure minus_one
        else elim (find_zombie pid tasks inner.children) [
          | none ↦ pure minus_two
          | some idx ↦ reap task inner exit_code_ptr idx
        ]
