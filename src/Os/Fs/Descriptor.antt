-- ===== src/Os/Fs/Descriptor.antt =====
-- os/src/syscall/fs.rs: the system calls on file descriptors. A descriptor table holds the numbers of
-- open files; the page tables of the process, which a buffer is translated through, do not lie in the
-- pages that it can write.
pub mod Errors
pub mod Panics
use r_core_tutorial_code.Base.{
  ℕ, zero, suc, ◌+◌, ◌-◌, ◌^◌, Bool, true, false, not, Option, none, some, is_some, List, [], ◌∷◌,
  ◌++◌, State, Result, ok, panic, out_of_fuel, assert, gets, modify, pure, and_then, ◌>>=◌, ◌>>◌,
  unwrap, ◌==◌, leb, if◌then◌else◌, get_elem?, set, length, update,
}
use r_core_tutorial_code.EasyFs.Efs.{EasyFileSystem}
use r_core_tutorial_code.Os.Mm.PageTable.{Memory}
use r_core_tutorial_code.Os.Mm.UserBuffer.{Slice, translated_byte_buffer}
use r_core_tutorial_code.Os.Fs.OsInode
use r_core_tutorial_code.Os.Fs.OsInode.{from_bits, open_file}
use r_core_tutorial_code.Os.Fs.File
use r_core_tutorial_code.Os.Fs.File.{OpenFile, os_inode, Files, readable, writable, on_disk}
use r_core_tutorial_code.Os.Task.Control.{TaskControlBlock, alloc_fd}
use r_core_tutorial_code.Os.Task.Kernel.{minus_one}

abbrev pub Table : Type 0
Table = List (Option ℕ)

-- The open file of a descriptor: the table is not indexed out of its bounds.
abbrev pub entry : Option (Option ℕ) → Option ℕ
entry none = none
entry (some e) = e

-- A result of the memory management.
abbrev pub of_result : {A : Type 0} → Result A → State Files A
of_result (ok a) s = ok (a, s)
of_result panic s = panic
of_result out_of_fuel s = out_of_fuel

unfoldable pub write_file : EasyFileSystem → Memory → (token buf len : ℕ) → Option ℕ → State Files ℕ
write_file fs m token buf len none = pure minus_one
write_file fs m token buf len (some id) = do
  file ← gets (λ (s : Files). s.files id)
  if not (writable file) then pure minus_one else do
    buffers ← of_result (translated_byte_buffer m token buf len)
    File.write fs id buffers file

unfoldable pub sys_write :
    EasyFileSystem → Memory → (token : ℕ) → Table → (fd buf len : ℕ) → State Files ℕ
unfolding write_file
sys_write fs m token fd_table fd buf len =
    if leb (length fd_table) fd
    then pure minus_one
    else write_file fs m token buf len (entry (get_elem? fd_table fd))

unfoldable pub read_file : Memory → (token buf len : ℕ) → Option ℕ → State Files ℕ
read_file m token buf len none = pure minus_one
read_file m token buf len (some id) = do
  file ← gets (λ (s : Files). s.files id)
  if not (readable file) then pure minus_one else do
    buffers ← of_result (translated_byte_buffer m token buf len)
    File.read id buffers file

unfoldable pub sys_read : Memory → (token : ℕ) → Table → (fd buf len : ℕ) → State Files ℕ
unfolding read_file
sys_read m token fd_table fd buf len =
    if leb (length fd_table) fd
    then pure minus_one
    else read_file m token buf len (entry (get_elem? fd_table fd))

module _ {M : Type 0} where
  -- A new open file, in the first free place of the table.
  unfoldable pub install :
      TaskControlBlock M ℕ → Option OsInode.OsInode → State Files (ℕ × TaskControlBlock M ℕ)
  install task none = pure (minus_one, task)
  install task (some file) = do
    id ← gets (λ (s : Files). s.count)
    modify (λ s. record s { files = update s.files id (os_inode file); count = id + 1 })
    let (fd, task') = alloc_fd task
    pure (fd, record task' { fd_table = set task'.fd_table fd (some id) })

  -- The argument `path` is the text that `translated_str` gives.
  unfoldable pub sys_open :
      EasyFileSystem
      → TaskControlBlock M ℕ
      → (path : List ℕ) (flags : ℕ) → State Files (ℕ × TaskControlBlock M ℕ)
  unfolding install
  sys_open fs task path flags = do
    flags ← unwrap (from_bits flags)
    file ← on_disk (open_file fs path flags)
    install task file

  unfoldable pub sys_close : TaskControlBlock M ℕ → ℕ → ℕ × TaskControlBlock M ℕ
  sys_close task fd =
      if leb (length task.fd_table) fd
      then (minus_one, task)
      else if not (is_some (entry (get_elem? task.fd_table fd)))
      then (minus_one, task)
      else (0, record task { fd_table = set task.fd_table fd none })
