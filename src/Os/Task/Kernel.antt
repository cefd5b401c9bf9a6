-- ===== src/Os/Task/Kernel.antt =====
-- os/src/task and os/src/syscall/process.rs: the operations on processes, and the system calls.
use r_core_tutorial_code.Base.{
  ℕ, ◌-◌, ◌^◌, Option, List, Result, ok, panic, out_of_fuel, State, pure, ◌>>=◌, ◌>>◌, gets, unwrap,
}
use r_core_tutorial_code.Os.Mm.Address
use r_core_tutorial_code.Os.Task.Pid
use r_core_tutorial_code.Os.Task.Control.{TaskControlBlock, get_task, change_task}
use r_core_tutorial_code.Os.Task.Table.{Table}
use r_core_tutorial_code.Os.Trap.{TrapContext}

-- What the processes use of the rest of the kernel and of the machine. `World` is the state of it:
-- the memory, the frames, the address space of the kernel and the files.
pub record Resources : Type 1 where
  pub World : Type 0
  pub MemorySet : Type 0
  pub File : Type 0
  -- `MemorySet::from_existed_user`, `from_elf`, `translate`, `token` and `recycle_data_pages`, and
  -- the drop of an address space.
  pub from_existed_user : MemorySet → State World MemorySet
  pub from_elf : List ℕ → State World (MemorySet × ℕ × ℕ)
  pub translate : MemorySet → ℕ → World → Option ℕ
  pub token : MemorySet → ℕ
  pub recycle_data_pages : MemorySet → State World MemorySet
  pub drop_memory : MemorySet → State World (Unit {0})
  -- `KERNEL_SPACE`: its token, and the areas of the kernel stacks.
  pub kernel_token : World → ℕ
  pub insert_framed_area : ℕ → ℕ → State World (Unit {0})
  pub remove_area_with_start_vpn : ℕ → State World (Unit {0})
  -- `PhysPageNum::get_mut`, at the page of a trap context.
  pub get_trap_cx : ℕ → World → TrapContext
  pub set_trap_cx : ℕ → TrapContext → World → World
  -- The write of an `i32` through `translated_refmut`, and `translated_str`.
  pub write_translated : ℕ → ℕ → ℕ → State World (Unit {0})
  pub translated_str : ℕ → ℕ → State World (List ℕ)
  -- `open_file` with `OpenFlags::RDONLY`, and `read_all` of the file.
  pub read_file : List ℕ → State World (Option (List ℕ))
  pub stdin : File
  pub stdout : File
  -- The addresses of `trap_return` and `trap_handler`, and the status register of a user process.
  pub trap_return : ℕ
  pub trap_handler : ℕ
  pub user_sstatus : ℕ

-- `TRAP_CONTEXT` of os/src/config.rs
abbrev pub trap_context : ℕ
trap_context = Pid.trampoline - 0x1000

-- The results -1 and -2 of a system call, as `usize`.
abbrev pub minus_one : ℕ
minus_one = 2 ^ 64 - 1

abbrev pub minus_two : ℕ
minus_two = 2 ^ 64 - 2

pub record Kernel (r : Resources) : Type 0 where
  pub world : r.World
  pub table : Table r.MemorySet r.File

-- What an exit leads to: the machine stops, or another process runs.
pub data Exit : Type 0 where
  exit_success : Exit
  exit_failure : Exit
  scheduled : Exit

module _ (r : Resources) where
  abbrev pub Task : Type 0
  Task = TaskControlBlock r.MemorySet r.File

  abbrev pub Run : Type 0 → Type 0
  Run A = State (Kernel r) A

  unfoldable pub on_world :
      {A : Type 0} → Table r.MemorySet r.File → Result (A × r.World) → Result (A × Kernel r)
  on_world t (ok (a, w)) = ok (a, record { world = w; table = t })
  on_world t panic = panic
  on_world t out_of_fuel = out_of_fuel

  -- A call of the rest of the kernel.
  unfoldable pub lift : {A : Type 0} → State r.World A → Run A
  unfolding on_world
  lift m k = on_world k.table (m k.world)

  -- A call on the table.
  unfoldable pub on_table :
      {A : Type 0} → (Table r.MemorySet r.File → A × Table r.MemorySet r.File) → Run A
  on_table f k = ok ((f k.table).0, record k { table = (f k.table).1 })

  unfoldable pub change_table :
      (Table r.MemorySet r.File → Table r.MemorySet r.File) → Run (Unit {0})
  change_table f k = ok (tt, record k { table = f k.table })

  -- The block of a pointer, and a change of it.
  unfoldable pub borrow : ℕ → Run Task
  borrow p = do tasks ← gets (λ (k : Kernel r). k.table.tasks); unwrap (get_task p tasks)

  unfoldable pub borrow_mut : ℕ → (Task → Task) → Run (Unit {0})
  borrow_mut p f = change_table (λ t. record t { tasks = change_task p f t.tasks })

  -- `current_task().unwrap()`
  unfoldable pub current_task : Run ℕ
  current_task = do current ← gets (λ (k : Kernel r). k.table.current); unwrap current

  unfoldable pub of_result : {A : Type 0} → Result A → Run A
  of_result (ok a) k = ok (a, k)
  of_result panic k = panic
  of_result out_of_fuel k = out_of_fuel

  -- The frame of the trap context in a new address space.
  unfoldable pub trap_cx_frame : r.MemorySet → Run ℕ
  unfolding of_result
  trap_cx_frame memory_set = do
    vpn ← of_result (Address.page_of (Address.virt_addr trap_context))
    ppn ← gets (λ (k : Kernel r). r.translate memory_set vpn k.world)
    unwrap ppn

  -- `pid_alloc`
  unfoldable pub pid_alloc : Run ℕ
  pid_alloc = on_table (λ t. ((Pid.alloc t.pids).0, record t { pids = (Pid.alloc t.pids).1 }))

  -- `KernelStack::new`, with `get_top` as its result.
  unfoldable pub kernel_stack_new : ℕ → Run ℕ
  kernel_stack_new pid = do
    let position = Pid.kernel_stack_position pid
    lift (r.insert_framed_area (Address.virt_addr position.0) (Address.virt_addr position.1))
    pure position.1

  -- The drop of a kernel stack.
  unfoldable pub kernel_stack_drop : ℕ → Run (Unit {0})
  unfolding of_result
  kernel_stack_drop pid = do
    vpn ← of_result (Address.page_of (Address.virt_addr (Pid.kernel_stack_position pid).0))
    lift (r.remove_area_with_start_vpn vpn)
