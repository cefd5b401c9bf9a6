-- ===== src/Os/Mm/Load.antt =====
-- os/src/mm/memory_set.rs: the address space of an ELF file, and that of the kernel. What the parser
-- finds in a file and the symbols of the linker are parameters.
pub mod Frames
use r_core_tutorial_code.Base.{
  ℕ, ◌+◌, ◌-◌, ◌*◌, ◌/◌, ◌%◌, ◌^◌, Bool, true, false, Option, none, some, List, [], ◌∷◌, State,
  Result, ok, panic, out_of_fuel, and_then, assert, gets, pure, unwrap, ◌>>=◌, ◌>>◌, leb,
  if◌then◌else◌,
}
use r_core_tutorial_code.Os.Mm.Address.{virt_addr, address_of, usize_of_virt_addr}
use r_core_tutorial_code.Os.Mm.PageTable.{Space}
use r_core_tutorial_code.Os.Mm.MapArea
use r_core_tutorial_code.Os.Mm.MapArea.{
  MapArea, framed, identical, readable, writable, executable, user, lift,
}
use r_core_tutorial_code.Os.Mm.MemorySet.{
  MemorySet, new_bare, map_trampoline, push, push_data, trap_context, user_stack_size,
}
use r_core_tutorial_code.Os.Task.Pid.{trampoline}

-- A program header.
pub record ProgramHeader : Type 0 where
  pub is_load : Bool
  pub virtual_addr : ℕ
  pub mem_size : ℕ
  pub is_read : Bool
  pub is_write : Bool
  pub is_execute : Bool
  pub offset : ℕ
  pub file_size : ℕ

pub record ElfFile : Type 0 where
  pub has_magic : Bool
  pub input : ℕ → ℕ
  pub input_len : ℕ
  pub program_headers : List ProgramHeader
  pub entry_point : ℕ

unfoldable pub permission_of : ProgramHeader → ℕ
permission_of ph =
    user
    + (if ph.is_read then readable else 0)
    + (if ph.is_write then writable else 0)
    + (if ph.is_execute then executable else 0)

-- A round of the loop over the program headers: the area of a segment, with the slice of the file in
-- its bounds.
unfoldable pub load_segment : ElfFile → ProgramHeader → MemorySet → State Space (ℕ × MemorySet)
unfolding permission_of
load_segment elf ph self = do
  map_area ← lift (
      MapArea.new (virt_addr ph.virtual_addr) (virt_addr ((ph.virtual_addr + ph.mem_size) % 2 ^ 64))
        framed (permission_of ph))
  assert (leb (ph.offset + ph.file_size) elf.input_len)
  self' ← push_data map_area (λ i. elf.input (ph.offset + i)) ph.file_size self
  pure (map_area.vpn_range.r, self')

unfoldable pub load_header :
    ElfFile → ProgramHeader → (max_end_vpn : ℕ) → MemorySet → State Space (ℕ × MemorySet)
unfolding load_segment
load_header elf ph max_end_vpn self =
    if ph.is_load then load_segment elf ph self else pure (max_end_vpn, self)

-- The loop; the result is the end of the last area.
unfoldable pub load_headers :
    ElfFile → List ProgramHeader → (max_end_vpn : ℕ) → MemorySet → State Space (ℕ × MemorySet)
unfolding load_header
load_headers elf [] max_end_vpn self = pure (max_end_vpn, self)
load_headers elf (ph ∷ phs) max_end_vpn self = do
  (max_end_vpn', self') ← load_header elf ph max_end_vpn self
  load_headers elf phs max_end_vpn' self'

-- `push` of a new area.
unfoldable pub push_new :
    (start_va end_va : ℕ) → MapArea.MapType → ℕ → MemorySet → State Space MemorySet
push_new start_va end_va map_type permission self = do
  area ← lift (MapArea.new start_va end_va map_type permission)
  push area self

-- The user stack and the page of the trap context, behind the segments.
unfoldable pub push_stack :
    (entry_point max_end_vpn : ℕ) → MemorySet → State Space (MemorySet × ℕ × ℕ)
unfolding push_new
push_stack entry_point max_end_vpn self = do
  let user_stack_bottom = (usize_of_virt_addr (address_of max_end_vpn) + 4096) % 2 ^ 64
  let user_stack_top = (user_stack_bottom + user_stack_size) % 2 ^ 64
  with_stack ←
      push_new (virt_addr user_stack_bottom) (virt_addr user_stack_top) framed
        (readable + writable + user) self
  full ←
      push_new (virt_addr trap_context) (virt_addr trampoline) framed (readable + writable)
        with_stack
  pure (full, user_stack_top, entry_point)

-- The set, the top of the user stack and the entry point.
unfoldable pub from_elf : (strampoline : ℕ) → Option ElfFile → State Space (MemorySet × ℕ × ℕ)
unfolding load_headers push_stack
from_elf strampoline parsed = do
  memory_set ← new_bare
  with_trampoline ← map_trampoline strampoline memory_set
  elf ← unwrap parsed
  assert elf.has_magic
  (max_end_vpn, loaded) ← load_headers elf elf.program_headers 0 with_trampoline
  push_stack elf.entry_point max_end_vpn loaded

-- The symbols of the linker, and the ends of the memory.
pub record KernelLayout : Type 0 where
  pub stext : ℕ
  pub etext : ℕ
  pub srodata : ℕ
  pub erodata : ℕ
  pub sdata : ℕ
  pub edata : ℕ
  pub sbss_with_stack : ℕ
  pub ebss : ℕ
  pub ekernel : ℕ
  pub strampoline : ℕ
  pub memory_end : ℕ
  pub mmio : List (ℕ × ℕ)

unfoldable pub push_mmio : List (ℕ × ℕ) → MemorySet → State Space MemorySet
unfolding push_new
push_mmio [] self = pure self
push_mmio ((start, size) ∷ rest) self = do
  self' ← push_new (virt_addr start) (virt_addr (start + size)) identical (readable + writable) self
  push_mmio rest self'

-- Without the kernel stacks.
unfoldable pub new_kernel : KernelLayout → State Space MemorySet
unfolding push_new push_mmio
new_kernel k = do
  bare ← new_bare
  with_trampoline ← map_trampoline k.strampoline bare
  text ←
      push_new (virt_addr k.stext) (virt_addr k.etext) identical (readable + executable)
        with_trampoline
  rodata ← push_new (virt_addr k.srodata) (virt_addr k.erodata) identical readable text
  sections ← push_new (virt_addr k.sdata) (virt_addr k.edata) identical (readable + writable) rodata
  bss ←
      push_new (virt_addr k.sbss_with_stack) (virt_addr k.ebss) identical (readable + writable)
        sections
  physical ←
      push_new (virt_addr k.ekernel) (virt_addr k.memory_end) identical (readable + writable) bss
  push_mmio k.mmio physical
