-- ===== src/Tests/Processes.antt =====
-- The processes on a small machine: an address space is the number of the frame of its trap context,
-- and the memory holds the trap contexts.
use r_core_tutorial_code.Base.{
  if◌then◌else◌, ◌==◌, get_elem?, length, length-tabulate, ℕ, ◌+◌, ◌<◌, ◌≡◌, ◌⊎◌, refl, arith, true,
  false, Option, none, some, List, [], ◌∷◌, ◌++◌, ok, panic, out_of_fuel, Result, update, set, take,
  drop,
}
use r_core_tutorial_code.Base.Count.{count}
use r_core_tutorial_code.Os.Task.Pid
use r_core_tutorial_code.Os.Task.Pid.KernelStack.{stack_page}
use r_core_tutorial_code.Os.Mm.Address
use r_core_tutorial_code.Os.Task.Control.{is_zombie, get_task, TaskControlBlock}
use r_core_tutorial_code.Os.Task.Control
use r_core_tutorial_code.Os.Task.Table
use r_core_tutorial_code.Os.Task.Table.{Table, strong_count}
use r_core_tutorial_code.Os.Task.Kernel
use r_core_tutorial_code.Os.Task.Kernel.{Resources, Kernel, Task, Exit, minus_one, minus_two}
use r_core_tutorial_code.Os.Task.Process
use r_core_tutorial_code.Os.Task.Process.{
  means, add_initproc, run_tasks, suspend_current_and_run_next, exit_current_and_run_next,
}
use r_core_tutorial_code.Os.Task.Wait
use r_core_tutorial_code.Os.Task.Wait.{sys_fork, sys_waitpid}
use r_core_tutorial_code.Os.Task.Consistent.{IsConsistent}
use r_core_tutorial_code.Os.Task.Reaping.{reaped}
use r_core_tutorial_code.Os.Task.Lifecycle.{
  Step, Reachable, booted, stepped, dispatched, suspended, exited, forked,
}
use r_core_tutorial_code.Os.Task.Preservation.{Reachable-IsConsistent}
use r_core_tutorial_code.Os.Task.Fairness.{done, next, trace_order}
use r_core_tutorial_code.Os.Task.Waiting.{after}
use r_core_tutorial_code.Os.Task.Waitpid.{sys_waitpid_lem}
use r_core_tutorial_code.Os.Task.RoundRobin.{rounds, rounds_lem}
use r_core_tutorial_code.Os.Task.Exit.{exit_current_and_run_next_lem}
use r_core_tutorial_code.Os.Task.Fork.{sys_fork_lem}
use r_core_tutorial_code.Os.Task.Machine
use r_core_tutorial_code.Os.Mm.PageTable.{Memory}

abbrev machine : Resources
machine = record {
  World = Memory;
  MemorySet = ℕ;
  File = ℕ;
  from_existed_user = λ m w. ok (m + 1, update w (m + 1) (w m));
  from_elf = λ elf w. ok ((100, 0x2000, 0x10000), w);
  translate = λ m vpn w. some m;
  token = λ m. m;
  recycle_data_pages = λ m w. ok (m, w);
  drop_memory = λ m w. if m == 0 then panic else ok (tt, update w m (λ _. 0));
  kernel_token = λ w. 8;
  insert_framed_area = λ a b w. ok (tt, w);
  remove_area_with_start_vpn = λ vpn w. if vpn == 0 then panic else ok (tt, w);
  get_trap_cx = Machine.get_trap_cx;
  set_trap_cx = Machine.set_trap_cx;
  write_translated = λ token ptr v w. ok (tt, update w token (update (w token) ptr v));
  translated_str = λ token ptr w. ok ([], w);
  read_file = λ name w. ok (none, w);
  stdin = 0;
  stdout = 1;
  trap_return = 0x80200000;
  trap_handler = 0x80200100;
  user_sstatus = 0x20;
}

abbrev off : Kernel machine
off = record { world = λ _ i. 7; table = Table.empty }

abbrev state : {A : Type 0} → Result (A × Kernel machine) → Kernel machine
state (ok (a, k)) = k
state panic = off
state out_of_fuel = off

-- The first process starts and runs, forks and waits in vain; it is suspended, the child runs and
-- ends, and the first process runs again.
abbrev k1 : Kernel machine
k1 = state (add_initproc machine [] off)

abbrev k2 : Kernel machine
k2 = state (run_tasks machine k1)

abbrev k3 : Kernel machine
k3 = state (sys_fork machine k2)

abbrev k4 : Kernel machine
k4 = state (suspend_current_and_run_next machine k3)

abbrev k5 : Kernel machine
k5 = state (run_tasks machine k4)

abbrev k6 : Kernel machine
k6 = state (exit_current_and_run_next machine 42 k5)

abbrev k7 : Kernel machine
k7 = state (run_tasks machine k6)

-- What the runs that follow compute with.
r1 : Reachable machine k1
unfolding add_initproc run_tasks sys_fork suspend_current_and_run_next exit_current_and_run_next
    Process.new Process.push_ready Kernel.lift Kernel.on_table Kernel.change_table
    Kernel.trap_cx_frame Kernel.of_result Kernel.pid_alloc Kernel.kernel_stack_new
    Process.insert_task Process.modify_trap_cx Address.page_of Address.virt_addr Address.page_offset
    Address.floor Kernel.borrow Kernel.borrow_mut Kernel.current_task Process.fork Table.add_task
    Table.fetch_task Table.take_current_task Control.get_task Control.change_task Pid.alloc Pid.new
    Process.end_task Process.move_children Table.empty
r1 = booted (λ _ i. 7) [] k1 refl

s2 : Step machine k1 k2
unfolding add_initproc run_tasks sys_fork suspend_current_and_run_next exit_current_and_run_next
    Process.new Process.push_ready Kernel.lift Kernel.on_table Kernel.change_table
    Kernel.trap_cx_frame Kernel.of_result Kernel.pid_alloc Kernel.kernel_stack_new
    Process.insert_task Process.modify_trap_cx Address.page_of Address.virt_addr Address.page_offset
    Address.floor Kernel.borrow Kernel.borrow_mut Kernel.current_task Process.fork Table.add_task
    Table.fetch_task Table.take_current_task Control.get_task Control.change_task Pid.alloc Pid.new
    Process.end_task Process.move_children Table.empty
s2 = dispatched k1 k2 (some 0) refl refl

r2 : Reachable machine k2
r2 = stepped k1 k2 r1 s2

s3 : Step machine k2 k3
unfolding add_initproc run_tasks sys_fork suspend_current_and_run_next exit_current_and_run_next
    Process.new Process.push_ready Kernel.lift Kernel.on_table Kernel.change_table
    Kernel.trap_cx_frame Kernel.of_result Kernel.pid_alloc Kernel.kernel_stack_new
    Process.insert_task Process.modify_trap_cx Address.page_of Address.virt_addr Address.page_offset
    Address.floor Kernel.borrow Kernel.borrow_mut Kernel.current_task Process.fork Table.add_task
    Table.fetch_task Table.take_current_task Control.get_task Control.change_task Pid.alloc Pid.new
    Process.end_task Process.move_children Table.empty
s3 = forked k2 k3 1 (omega arith) refl

s4 : Step machine k3 k4
unfolding add_initproc run_tasks sys_fork suspend_current_and_run_next exit_current_and_run_next
    Process.new Process.push_ready Kernel.lift Kernel.on_table Kernel.change_table
    Kernel.trap_cx_frame Kernel.of_result Kernel.pid_alloc Kernel.kernel_stack_new
    Process.insert_task Process.modify_trap_cx Address.page_of Address.virt_addr Address.page_offset
    Address.floor Kernel.borrow Kernel.borrow_mut Kernel.current_task Process.fork Table.add_task
    Table.fetch_task Table.take_current_task Control.get_task Control.change_task Pid.alloc Pid.new
    Process.end_task Process.move_children Table.empty
s4 = suspended k3 k4 refl

s5 : Step machine k4 k5
unfolding add_initproc run_tasks sys_fork suspend_current_and_run_next exit_current_and_run_next
    Process.new Process.push_ready Kernel.lift Kernel.on_table Kernel.change_table
    Kernel.trap_cx_frame Kernel.of_result Kernel.pid_alloc Kernel.kernel_stack_new
    Process.insert_task Process.modify_trap_cx Address.page_of Address.virt_addr Address.page_offset
    Address.floor Kernel.borrow Kernel.borrow_mut Kernel.current_task Process.fork Table.add_task
    Table.fetch_task Table.take_current_task Control.get_task Control.change_task Pid.alloc Pid.new
    Process.end_task Process.move_children Table.empty
s5 = dispatched k4 k5 (some 1) refl refl

r5 : Reachable machine k5
r5 = stepped k4 k5 (stepped k3 k4 (stepped k2 k3 r2 s3) s4) s5

s6 : Step machine k5 k6
unfolding add_initproc run_tasks sys_fork suspend_current_and_run_next exit_current_and_run_next
    Process.new Process.push_ready Kernel.lift Kernel.on_table Kernel.change_table
    Kernel.trap_cx_frame Kernel.of_result Kernel.pid_alloc Kernel.kernel_stack_new
    Process.insert_task Process.modify_trap_cx Address.page_of Address.virt_addr Address.page_offset
    Address.floor Kernel.borrow Kernel.borrow_mut Kernel.current_task Process.fork Table.add_task
    Table.fetch_task Table.take_current_task Control.get_task Control.change_task Pid.alloc Pid.new
    Process.end_task Process.move_children Table.empty
s6 = exited k5 k6 42 refl

s7 : Step machine k6 k7
unfolding add_initproc run_tasks sys_fork suspend_current_and_run_next exit_current_and_run_next
    Process.new Process.push_ready Kernel.lift Kernel.on_table Kernel.change_table
    Kernel.trap_cx_frame Kernel.of_result Kernel.pid_alloc Kernel.kernel_stack_new
    Process.insert_task Process.modify_trap_cx Address.page_of Address.virt_addr Address.page_offset
    Address.floor Kernel.borrow Kernel.borrow_mut Kernel.current_task Process.fork Table.add_task
    Table.fetch_task Table.take_current_task Control.get_task Control.change_task Pid.alloc Pid.new
    Process.end_task Process.move_children Table.empty
s7 = dispatched k6 k7 (some 0) refl refl

r7 : Reachable machine k7
r7 = stepped k6 k7 (stepped k5 k6 r5 s6) s7

Reachable-IsConsistent_example : IsConsistent k7.table
Reachable-IsConsistent_example = Reachable-IsConsistent machine k7 r7

trace_order_example :
    (later : List ℕ) × ((1 ∷ 0 ∷ []) ++ k7.table.ready_queue ≡ k3.table.ready_queue ++ later)
unfolding s7 s6 s5 s4
trace_order_example = trace_order machine k3 k7 (1 ∷ 0 ∷ []) (stepped k2 k3 r2 s3) (
    next k3 k4 k7 (1 ∷ 0 ∷ []) s4
      (next k4 k5 k7 (0 ∷ []) s5 (next k5 k6 k7 (0 ∷ []) s6 (next k6 k7 k7 [] s7 (done k7)))))

-- A queue of two.
abbrev two : Kernel machine
two = record off { table = record off.table { ready_queue = 0 ∷ 1 ∷ [] } }

rounds_lem_example :
    (k' : Kernel machine) × (rounds machine 1 two ≡ ok (take 1 (0 ∷ 1 ∷ []), k'))
    × (k'.table.ready_queue ≡ drop 1 (0 ∷ 1 ∷ []) ++ take 1 (0 ∷ 1 ∷ []))
rounds_lem_example = rounds_lem machine 1 two (omega arith)

abbrev nobody : Task machine
nobody = record {
  pid = 0;
  trap_cx_ppn = 0;
  base_size = 0;
  task_cx = Control.zero_init;
  task_status = Control.zombie;
  memory_set = 0;
  parent = none;
  children = [];
  exit_code = 0;
  fd_table = [];
}

abbrev block_in : Option (Task machine) → Task machine
block_in none = nobody
block_in (some t) = t

abbrev block : ℕ → Kernel machine → Task machine
block p k = block_in (get_task p k.table.tasks)

-- The end of the child.
exit_current_and_run_next_lem_example :
    (k' : Kernel machine) × (u i v : Task machine) × (exit_current_and_run_next machine 42 k5
      ≡ ok (Exit.scheduled, k'))
    × (k'.table.current ≡ none)
    × (get_task 1 k'.table.tasks ≡ some u)
    × (is_zombie u ≡ true)
    × (u.exit_code ≡ 42)
    × (u.memory_set ≡ 101)
    × (u.children ≡ [])
    × (get_task 0 k5.table.tasks ≡ some i)
    × (get_task 0 k'.table.tasks ≡ some v)
    × (v.children ≡ i.children ++ (block 1 k5).children)
    × (strong_count 1 k'.table ≡ 1)
unfolding add_initproc run_tasks sys_fork suspend_current_and_run_next exit_current_and_run_next
    Process.new Process.push_ready Kernel.lift Kernel.on_table Kernel.change_table
    Kernel.trap_cx_frame Kernel.of_result Kernel.pid_alloc Kernel.kernel_stack_new
    Process.insert_task Process.modify_trap_cx Address.page_of Address.virt_addr Address.page_offset
    Address.floor Kernel.borrow Kernel.borrow_mut Kernel.current_task Process.fork Table.add_task
    Table.fetch_task Table.take_current_task Control.get_task Control.change_task Pid.alloc Pid.new
    Process.end_task Process.move_children Table.empty
exit_current_and_run_next_lem_example =
    exit_current_and_run_next_lem machine k5 1 42 (block 1 k5) 101 k5.world r5 refl (omega arith)
      refl refl

-- The child is waited for.
sys_waitpid_lem_example :
    (((c : ℕ) → 0 < count c (block 0 k7).children → means minus_one c ≡ false)
      × (sys_waitpid machine minus_one 64 k7 ≡ ok (minus_one, k7)))
    ⊎ (((c : ℕ) × (0 < count c (block 0 k7).children) × (means minus_one c ≡ true))
        × ((c : ℕ) (z : Task machine)
            → 0 < count c (block 0 k7).children
            → means minus_one c ≡ true
            → get_task c k7.table.tasks ≡ some z
            → is_zombie z ≡ false)
        × (sys_waitpid machine minus_one 64 k7 ≡ ok (minus_two, k7)))
    ⊎ ((c : ℕ) × (idx : ℕ) × (z : Task machine) × (get_elem? (block 0 k7).children idx ≡ some c)
        × (means minus_one c ≡ true)
        × (get_task c k7.table.tasks ≡ some z)
        × (is_zombie z ≡ true)
        × (z.children ≡ [])
        × (sys_waitpid machine minus_one 64 k7
            ≡ after
                (machine.write_translated (block 0 k7).memory_set 64 z.exit_code k7.world)
                (λ w1. after (machine.remove_area_with_start_vpn (stack_page c) w1) (λ w2.
                  after
                    (machine.drop_memory z.memory_set w2)
                    (λ w. ok (c, record { world = w; table = reaped 0 idx c k7.table })))))
        × (get_task c (reaped 0 idx c k7.table).tasks ≡ none)
        × (count c (reaped 0 idx c k7.table).pids.recycled ≡ 1))
unfolding add_initproc run_tasks sys_fork suspend_current_and_run_next exit_current_and_run_next
    Process.new Process.push_ready Kernel.lift Kernel.on_table Kernel.change_table
    Kernel.trap_cx_frame Kernel.of_result Kernel.pid_alloc Kernel.kernel_stack_new
    Process.insert_task Process.modify_trap_cx Address.page_of Address.virt_addr Address.page_offset
    Address.floor Kernel.borrow Kernel.borrow_mut Kernel.current_task Process.fork Table.add_task
    Table.fetch_task Table.take_current_task Control.get_task Control.change_task Pid.alloc Pid.new
    Process.end_task Process.move_children Table.empty
sys_waitpid_lem_example = sys_waitpid_lem machine k7 0 minus_one 64 (block 0 k7) r7 refl refl

-- The exit code is at the address 64 of the first process then.
abbrev k8 : Kernel machine
k8 = state (sys_waitpid machine minus_one 64 k7)

waited : (sys_waitpid machine minus_one 64 k7 ≡ ok (1, k8)) × (k8.world 100 64 ≡ 42)
unfolding add_initproc run_tasks sys_fork suspend_current_and_run_next exit_current_and_run_next
    Process.new Process.push_ready Kernel.lift Kernel.on_table Kernel.change_table
    Kernel.trap_cx_frame Kernel.of_result Kernel.pid_alloc Kernel.kernel_stack_new
    Process.insert_task Process.modify_trap_cx Address.page_of Address.virt_addr Address.page_offset
    Address.floor Kernel.borrow Kernel.borrow_mut Kernel.current_task Process.fork Table.add_task
    Table.fetch_task Table.take_current_task Control.get_task Control.change_task Pid.alloc Pid.new
    Process.end_task Process.move_children Table.empty sys_waitpid Wait.reap Wait.drop_task
    Wait.pid_dealloc Wait.with_pids Kernel.kernel_stack_drop Process.any_child Process.find_zombie
    Process.has_ended Process.remove_at strong_count Pid.dealloc count Pid.kernel_stack_position
    update
waited = (refl, refl)

-- The memory with the copied trap context.
abbrev copied : Memory
copied = update k2.world 101 (k2.world 100)

context_size : (w : Memory) → length (machine.get_trap_cx 101 w).x ≡ 32
unfolding Machine.get_trap_cx
context_size w = length-tabulate 32 0 (w 101)

-- The first process forks.
sys_fork_lem_example :
    (k' : Kernel machine) × (sys_fork machine k2 ≡ ok (1, k'))
    × (get_task 1 k2.table.tasks ≡ none)
    × (get_task 1 k'.table.tasks ≡ some (block 1 k3))
    × (is_zombie (block 1 k3) ≡ false)
    × ((block 1 k3).fd_table ≡ (block 0 k2).fd_table)
    × ((block 1 k3).children ≡ [])
    × (get_task 0 k'.table.tasks
        ≡ some (record (block 0 k2) { children = (block 0 k2).children ++ 1 ∷ [] }))
    × (k'.table.ready_queue ≡ k2.table.ready_queue ++ 1 ∷ [])
    × (k'.table.current ≡ some 0)
    × (Machine.get_trap_cx 101 k'.world ≡ record (Machine.get_trap_cx 101 copied) {
      x = set (Machine.get_trap_cx 101 copied).x 10 0;
      kernel_sp = (Pid.kernel_stack_position 1).1;
    })
unfolding add_initproc run_tasks sys_fork suspend_current_and_run_next exit_current_and_run_next
    Process.new Process.push_ready Kernel.lift Kernel.on_table Kernel.change_table
    Kernel.trap_cx_frame Kernel.of_result Kernel.pid_alloc Kernel.kernel_stack_new
    Process.insert_task Process.modify_trap_cx Address.page_of Address.virt_addr Address.page_offset
    Address.floor Kernel.borrow Kernel.borrow_mut Kernel.current_task Process.fork Table.add_task
    Table.fetch_task Table.take_current_task Control.get_task Control.change_task Pid.alloc Pid.new
    Process.end_task Process.move_children Table.empty
sys_fork_lem_example =
    sys_fork_lem machine k2 0 (block 0 k2) 101 copied copied 101 refl refl refl refl refl r2
      (omega arith) context_size (Machine.get_trap_cx-set_trap_cx 101)
