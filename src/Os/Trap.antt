-- ===== src/Os/Trap.antt =====
-- os/src/trap/context.rs: the registers of a process while the kernel runs.
use r_core_tutorial_code.Base.{ℕ, List, set, replicate}

pub record TrapContext : Type 0 where
  pub x : List ℕ
  pub sstatus : ℕ
  pub sepc : ℕ
  pub kernel_satp : ℕ
  pub kernel_sp : ℕ
  pub trap_handler : ℕ

-- Register 2 is the stack pointer.
unfoldable pub set_sp : ℕ → TrapContext → TrapContext
set_sp sp self = record self { x = set self.x 2 sp }

-- `sstatus` is the machine's status register once the previous mode in it is the user's.
unfoldable pub app_init_context : ℕ → ℕ → ℕ → ℕ → ℕ → ℕ → TrapContext
unfolding set_sp
app_init_context sstatus entry sp kernel_satp kernel_sp trap_handler = set_sp sp (record {
  x = replicate 32 0;
  sstatus = sstatus;
  sepc = entry;
  kernel_satp = kernel_satp;
  kernel_sp = kernel_sp;
  trap_handler = trap_handler;
})
