-- ===== src/Os/Task/Pid.antt =====
-- os/src/task/pid.rs: process ids and the places of the kernel stacks. The last element of
-- `recycled` is the head of the list here; sums of `usize` wrap around.
pub mod Uniqueness
pub mod KernelStack
use r_core_tutorial_code.Base.{
  ℕ, zero, suc, ◌+◌, ◌-◌, ◌*◌, ◌^◌, ◌%◌, ◌<◌, ◌≡◌, Bool, ◌&&◌, not, List, [], ◌∷◌, Result, ok,
  panic, ltb, if◌then◌else◌,
}
use r_core_tutorial_code.Base.Count.{count, contains, remove}

pub record PidAllocator : Type 0 where
  pub current : ℕ
  pub recycled : List ℕ

unfoldable pub new : PidAllocator
new = record { current = 0; recycled = [] }

unfoldable pub alloc_from : List ℕ → PidAllocator → ℕ × PidAllocator
alloc_from [] self = (self.current, record self { current = (self.current + 1) % 2 ^ 64 })
alloc_from (pid ∷ rest) self = (pid, record self { recycled = rest })

-- `alloc`; behind `current += 1` the source takes the 1 off again.
unfoldable pub alloc : PidAllocator → ℕ × PidAllocator
unfolding alloc_from
alloc self = alloc_from self.recycled self

unfoldable pub dealloc : PidAllocator → ℕ → Result PidAllocator
unfolding contains
dealloc self pid =
    if ltb pid self.current
    then (if contains pid self.recycled
        then panic
        else ok (record self { recycled = pid ∷ self.recycled }))
    else panic

-- The states that the calls of `alloc` and `dealloc` lead to, with the ids of the live handles. The
-- last one is the drop of a handle.
pub data Reachable : PidAllocator → List ℕ → Type 0 where
  start : Reachable new []
  allocated :
      (a : PidAllocator) (live : List ℕ)
      → Reachable a live
      → a.current + 1 < 2 ^ 64
      → Reachable ((alloc a).1) ((alloc a).0 ∷ live)
  dropped :
      (a b : PidAllocator) (live : List ℕ) (pid : ℕ)
      → Reachable a live
      → 0 < count pid live
      → dealloc a pid ≡ ok b
      → Reachable b (remove pid live)

-- `TRAMPOLINE`, `KERNEL_STACK_SIZE` and `PAGE_SIZE` of os/src/config.rs
abbrev pub trampoline : ℕ
trampoline = 2 ^ 64 - 0x1000

abbrev pub kernel_stack_size : ℕ
kernel_stack_size = 4096 * 2

-- `kernel_stack_position`, bottom and top, in `usize`.
unfoldable pub kernel_stack_position : ℕ → ℕ × ℕ
kernel_stack_position app_id =
    let top = (trampoline + 2 ^ 64 - (app_id * (kernel_stack_size + 0x1000)) % 2 ^ 64) % 2 ^ 64 in
    ((top + 2 ^ 64 - kernel_stack_size) % 2 ^ 64, top)
