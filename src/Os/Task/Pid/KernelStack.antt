-- ===== src/Os/Task/Pid/KernelStack.antt =====
-- The kernel stacks of two processes are apart.
use r_core_tutorial_code.Base.{ℕ, ◌+◌, ◌-◌, ◌^◌, ◌<◌, ◌≤◌, ◌≡◌, arith}
use r_core_tutorial_code.Base.{refl, true, ok, ◌==◌, eq→==}
use r_core_tutorial_code.Os.Mm.Address.{page_of, virt_addr, floor, page_offset}
use r_core_tutorial_code.Os.Task.Pid.{kernel_stack_position}

-- For two different ids below `2 ^ 50`: a kernel stack has 8192 bytes and ends at the trampoline
-- page or below it, and the stack of the larger id ends at least a page, the guard page, below the
-- bottom of that of the smaller one.
pub kernel_stack_position_lem :
    (i j : ℕ)
    → i < j
    → j < 2 ^ 50
    → let s = kernel_stack_position i in
      let t = kernel_stack_position j in
      (s.0 + 8192 ≡ s.1) × (s.1 ≤ 2 ^ 64 - 4096) × (t.0 + 8192 ≡ t.1) × (t.1 + 4096 ≤ s.0)
unfolding kernel_stack_position
kernel_stack_position_lem i j lt small = (omega arith, omega arith, omega arith, omega arith)

-- The number of the first page of a kernel stack.
abbrev pub stack_page : ℕ → ℕ
stack_page pid = floor (virt_addr (kernel_stack_position pid).0)

pub page_of_stack :
    (pid : ℕ) → page_of (virt_addr (kernel_stack_position pid).0) ≡ ok (stack_page pid)
unfolding kernel_stack_position page_of virt_addr page_offset
page_of_stack pid =
    let v = virt_addr (kernel_stack_position pid).0 in
    let aligned : (page_offset v == 0) ≡ true = eq→== _ _ (omega arith) in rw aligned refl
