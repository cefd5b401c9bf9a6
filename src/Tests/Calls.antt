-- ===== src/Tests/Calls.antt =====
-- Buffers of processes, open files and the calls on descriptors, at concrete inputs.
use r_core_tutorial_code.Base.{
  ◌≢◌, ℕ, ◌-◌, ◌/◌, ◌<◌, ◌≤◌, ◌≡◌, refl, arith, true, false, none, some, List, [], ◌∷◌, ok, panic,
  ◌==◌, if◌then◌else◌, tabulate, lt→ltb, get_elem?,
}
use r_core_tutorial_code.EasyFs.Block.{Disk, get_word}
use r_core_tutorial_code.EasyFs.Efs.{EasyFileSystem}
use r_core_tutorial_code.EasyFs.Layout.Inode
use r_core_tutorial_code.EasyFs.Layout.Inode.{DiskInode}
use r_core_tutorial_code.EasyFs.Layout.Index.{get_block_id}
use r_core_tutorial_code.EasyFs.Layout.Data.{IsMapped, byte_of}
use r_core_tutorial_code.EasyFs.Vfs
use r_core_tutorial_code.Os.Mm.Address.{indexes, phys_page_num}
use r_core_tutorial_code.Os.Mm.PageTable.{
  Memory, translate, from_token, is_valid, has_flag, flags_of, ppn_of, find_pte, find_from, path,
  entry_at,
}
use r_core_tutorial_code.Os.Mm.UserBuffer.{
  Slice, translated_byte_buffer, buffer_length, collect, into_iter,
}
use r_core_tutorial_code.Os.Mm.UserBuffer.Buffer.{place}
use r_core_tutorial_code.Os.Mm.UserBuffer.Iterate.{into_iter_lem}
use r_core_tutorial_code.Os.Fs.OsInode
use r_core_tutorial_code.Os.Fs.OsInode.{OsInode}
use r_core_tutorial_code.Os.Fs.OsInode.ReadAll.{read_all_lem}
use r_core_tutorial_code.Os.Fs.File.{stdin, stdout, os_inode, Files}
use r_core_tutorial_code.Os.Fs.Descriptor.{entry, sys_read, sys_close, install}
use r_core_tutorial_code.Os.Fs.Descriptor.Errors.{IsUsed, sys_close-install}
use r_core_tutorial_code.Os.Fs.Descriptor.Panics.{sys_read-panic}
use r_core_tutorial_code.Os.Task.Control
use r_core_tutorial_code.Os.Task.Control.{TaskControlBlock, alloc_fd}
use r_core_tutorial_code.Os.Task.Kernel.{minus_one}

-- Page 0 is frame 70, through the tables in the frames 1, 2 and 3.
abbrev memory : Memory
memory a i =
    if i == 0
    then if a == 1 then 2049 else if a == 2 then 3073 else if a == 3 then 71695 else 0
    else 0

first_page : translate memory (from_token 1) 0 ≡ some 71695
unfolding translate find_pte find_from path indexes is_valid has_flag flags_of ppn_of phys_page_num
    entry_at from_token
first_page = refl

low_mapped :
    (va : ℕ)
    → 10 ≤ va
    → va < 13
    → (pte : ℕ) × (translate memory (from_token 1) (va / 4096) ≡ some pte)
low_mapped va lo hi = let zeroth : va / 4096 ≡ 0 = omega arith in (71695, rw zeroth first_page)

into_iter_lem_example :
    (v : List Slice) × (translated_byte_buffer memory 1 10 3 ≡ ok v)
    × (buffer_length v ≡ 3)
    × (collect 4 (into_iter v) ≡ ok (tabulate 3 10 (place memory (from_token 1))))
into_iter_lem_example = into_iter_lem memory 1 10 3 (omega arith) low_mapped

-- An inode of 1000 bytes at the front of block 1, in the blocks 10 and 11; each byte of block 11 is 5.
abbrev disk : Disk
disk a o =
    if a == 1
    then if o == 0
      then 232
      else if o == 1
      then 3
      else if o == 4
      then 10
      else if o == 8
      then 11
      else 0
    else if a == 11
    then 5
    else 0

abbrev inode : Vfs.Inode
inode = record { block_id = 1; block_offset = 0 }

abbrev on_disk : DiskInode
on_disk = Inode.decode (disk 1) 0

abbrev ids : ℕ → ℕ
ids k = on_disk.direct k

disk_size : on_disk.size ≡ 1000
unfolding Inode.decode get_word
disk_size = refl

disk_IsMapped : IsMapped on_disk ids disk
unfolding get_block_id
disk_IsMapped e same k lt =
    let below : k < 27 = omega (arith, disk_size) in rw (lt→ltb k 27 below) refl

abbrev half_read : ℕ → OsInode
half_read offset = record { readable = true; writable = false; offset = offset; inode = inode }

read_all_lem_example :
    OsInode.read_all 501 (half_read 500) disk
    ≡ ok ((tabulate (on_disk.size - 500) 500 (byte_of ids disk), half_read on_disk.size), disk)
read_all_lem_example =
    read_all_lem inode ids disk (omega arith) disk_IsMapped (omega (arith, disk_size)) true false
      501 500 (omega (arith, disk_size)) (omega (arith, disk_size))

abbrev files : Files
files = record {
  disk = disk;
  pages = λ ppn offset. 0;
  files = λ id. if id == 0 then stdin else stdout;
  count = 2;
  input = 65 ∷ [];
  output = [];
}

-- A process whose descriptor 1 is free.
abbrev process : TaskControlBlock ℕ ℕ
process = record {
  pid = 0;
  trap_cx_ppn = 0;
  base_size = 0;
  task_cx = Control.zero_init;
  task_status = Control.running;
  memory_set = 0;
  parent = none;
  children = [];
  exit_code = 0;
  fd_table = some 0 ∷ none ∷ some 1 ∷ [];
}

sys_close-install_example :
    (t' t'' : TaskControlBlock ℕ ℕ) × (s' : Files) × (install process (some (half_read 0)) files
      ≡ ok (((alloc_fd process).0, t'), s'))
    × (get_elem? t'.fd_table (alloc_fd process).0 ≡ some (some 2))
    × (s'.files 2 ≡ os_inode (half_read 0))
    × (entry (get_elem? process.fd_table (alloc_fd process).0) ≡ none)
    × ((j : ℕ) → j < (alloc_fd process).0 → IsUsed process.fd_table j)
    × ((j : ℕ) → j ≢ (alloc_fd process).0 → get_elem? t'.fd_table j ≡ get_elem? process.fd_table j)
    × ((id : ℕ) → id ≢ 2 → s'.files id ≡ files.files id)
    × (s' ≡ record files { files = s'.files; count = 3 })
    × (t' ≡ record process { fd_table = t'.fd_table })
    × (sys_close t' (alloc_fd process).0 ≡ (0, t''))
    × ((j : ℕ) → entry (get_elem? t''.fd_table j) ≡ entry (get_elem? process.fd_table j))
    × (t'' ≡ record process { fd_table = t''.fd_table })
    × (sys_close t'' (alloc_fd process).0 ≡ (minus_one, t''))
    × ((m : Memory) (token buf size : ℕ) (u : Files)
        → sys_read m token t''.fd_table (alloc_fd process).0 buf size u ≡ ok (minus_one, u))
sys_close-install_example = sys_close-install process (half_read 0) files

sys_read-panic_example : sys_read memory 1 process.fd_table 0 10 3 files ≡ panic
sys_read-panic_example =
    sys_read-panic memory 1 0 10 3 0 process.fd_table files refl refl (omega arith) (omega arith)
      low_mapped

abbrev fs : EasyFileSystem
fs = record {
  inode_bitmap = record { start_block_id = 1; blocks = 1 };
  data_bitmap = record { start_block_id = 3; blocks = 1 };
  inode_area_start_block = 2;
  data_area_start_block = 4;
}
