-- ===== src/Os/Fs/Descriptor/Panics.antt =====
-- System calls whose arguments stop the kernel.
use r_core_tutorial_code.Base.{
  ℕ, ◌+◌, ◌-◌, ◌/◌, ◌^◌, ◌<◌, ◌≤◌, ◌≡◌, ◌≢◌, refl, arith, false, some, List, panic, leb,
  if◌then◌else◌, get_elem?, length, lt→leb, ne→==, get_elem?-length, bit_and,
}
use r_core_tutorial_code.EasyFs.Efs.{EasyFileSystem}
use r_core_tutorial_code.Os.Mm.PageTable.{Memory, translate, from_token}
use r_core_tutorial_code.Os.Mm.UserBuffer.{Slice, buffer_length}
use r_core_tutorial_code.Os.Mm.UserBuffer.Iterate.{into_iter_lem}
use r_core_tutorial_code.Os.Fs.OsInode.{from_bits}
use r_core_tutorial_code.Os.Fs.File
use r_core_tutorial_code.Os.Fs.File.{stdin, stdout, Files, readable, read_stdin}
use r_core_tutorial_code.Os.Fs.Descriptor.{Table, sys_read, read_file, sys_open}
use r_core_tutorial_code.Os.Task.Control.{TaskControlBlock}

read_stdin-panic :
    (buffers : List Slice) (s : Files) → buffer_length buffers ≢ 1 → read_stdin buffers s ≡ panic
unfolding read_stdin
read_stdin-panic buffers s ne = rw (ne→== _ _ ne) refl

-- A read of the standard input into a mapped buffer below `2 ^ 38` whose size is not 1 stops the
-- kernel: the assertion on the length of the buffer fails.
pub sys_read-panic :
    (m : Memory) (token fd buf size id : ℕ) (fds : Table) (s : Files)
    → get_elem? fds fd ≡ some (some id)
    → s.files id ≡ stdin
    → size ≢ 1
    → buf + size < 2 ^ 38
    → ((va : ℕ)
        → buf ≤ va
        → va < buf + size
        → (pte : ℕ) × (translate m (from_token token) (va / 4096) ≡ some pte))
    → sys_read m token fds fd buf size s ≡ panic
unfolding sys_read read_file readable File.read
sys_read-panic m token fd buf size id fds s there file ne small mapped =
    let (v, run, total, _) = into_iter_lem m token buf size small mapped in
    let inside : leb (length fds) fd ≡ false =
      lt→leb _ _ (get_elem?-length fds fd (some id) there) in
    let fails = read_stdin-panic v s (λ e. ne (omega arith)) in
    rw (inside, if◌then◌else◌, there, read_file, file, run) fails

-- A call of `sys_open` with a flag that is not known stops the kernel, whatever the path is.
pub sys_open-panic :
    {M : Type 0} (fs : EasyFileSystem) (task : TaskControlBlock M ℕ) (path : List ℕ) (flags : ℕ)
    (s : Files)
    → bit_and flags (2 ^ 32 - 1 - 0x603) ≢ 0
    → sys_open fs task path flags s ≡ panic
unfolding sys_open from_bits
sys_open-panic fs task path flags s ne = rw (ne→== _ _ ne) refl
