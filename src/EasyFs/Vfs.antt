-- ===== src/EasyFs/Vfs.antt =====
-- easy-fs/src/vfs.rs: files and the directory, through the inodes on the disk. The disk is the
-- contents that the block cache shows; a lock that is taken is not part of it.
pub mod Directory
pub mod Files
use r_core_tutorial_code.Base.{
  ℕ, zero, suc, ◌+◌, ◌-◌, ◌*◌, ◌/◌, ◌%◌, ◌^◌, Option, none, some, List, [], ◌∷◌, State, Result, ok,
  panic, out_of_fuel, assert, gets, modify, pure, unwrap, ◌>>=◌, ◌>>◌, update, ◌==◌, ◌&&◌, ltb, leb,
  if◌then◌else◌, length, is_some, Bool, true, false,
}
use r_core_tutorial_code.EasyFs.Block.{block_sz, Block, Disk, u32}
use r_core_tutorial_code.EasyFs.Layout.Inode as OnDisk
use r_core_tutorial_code.EasyFs.Layout.Inode.{
  DiskInode, DiskInodeType, file, directory, inode_size, is_dir,
}
use r_core_tutorial_code.EasyFs.Layout.Size.{blocks_num_needed, total_blocks}
use r_core_tutorial_code.EasyFs.Layout.Data
use r_core_tutorial_code.EasyFs.Layout.Data.{Buffer}
use r_core_tutorial_code.EasyFs.Layout.Grow
use r_core_tutorial_code.EasyFs.Layout.Grow.{Feed, feed}
use r_core_tutorial_code.EasyFs.Layout.Shrink.{clear_size}
use r_core_tutorial_code.EasyFs.Layout.DirEntry
use r_core_tutorial_code.EasyFs.Layout.DirEntry.{DirEntry, dirent_sz, as_bytes, of_bytes, name_of}
use r_core_tutorial_code.EasyFs.Efs.{
  EasyFileSystem, alloc_inode, alloc_data, dealloc_data, get_disk_inode_pos,
}

-- Without the file system and the device, which the operations take.
pub record Inode : Type 0 where
  pub block_id : ℕ
  pub block_offset : ℕ

-- `Inode::new`, of a place that `get_disk_inode_pos` gives.
unfoldable pub new : ℕ × ℕ → Inode
new (block_id, block_offset) = record { block_id = block_id; block_offset = block_offset }

unfoldable pub root_inode : EasyFileSystem → Inode
unfolding get_disk_inode_pos new
root_inode fs = new (get_disk_inode_pos fs 0)

-- A result without a state.
abbrev pub lift : {A : Type 0} → Result A → State Disk A
lift (ok a) d = ok (a, d)
lift panic d = panic
lift out_of_fuel d = out_of_fuel

-- The assertion of the block cache that an inode lies in the block.
abbrev pub in_block : ℕ → State Disk (Unit {0})
in_block offset = assert (leb (offset + inode_size) block_sz)

unfoldable pub read_disk_inode : {V : Type 0} → Inode → (DiskInode → State Disk V) → State Disk V
read_disk_inode self f = do
  in_block self.block_offset
  b ← gets (λ d. d self.block_id)
  f (OnDisk.decode b self.block_offset)

-- The cached block is locked while `f` runs, so `f` changes the inode only through its argument.
unfoldable pub modify_disk_inode :
    {V : Type 0} → Inode → (DiskInode → State Disk (V × DiskInode)) → State Disk V
modify_disk_inode self f = do
  in_block self.block_offset
  b ← gets (λ d. d self.block_id)
  (v, n) ← f (OnDisk.decode b self.block_offset)
  modify (λ d. update d self.block_id (OnDisk.encode (d self.block_id) self.block_offset n))
  pure v

-- Equality of strings.
unfoldable pub same_name : List ℕ → List ℕ → Bool
same_name [] [] = true
same_name [] (y ∷ t) = false
same_name (x ∷ s) [] = false
same_name (x ∷ s) (y ∷ t) = x == y && same_name s t

-- Entry `i` of a directory, its read asserted to be whole.
unfoldable pub read_entry : DiskInode → ℕ → State Disk DirEntry
unfolding Data.read_at as_bytes of_bytes DirEntry.empty
read_entry disk_inode i = do
  (size, bytes) ← Data.read_at disk_inode (dirent_sz * i) dirent_sz (as_bytes DirEntry.empty)
  assert (size == dirent_sz)
  pure (of_bytes bytes)

-- The loop of `find_inode_id` over the `n` entries from `i` on.
unfoldable pub find_loop : ℕ → ℕ → List ℕ → DiskInode → State Disk (Option ℕ)
find_loop zero i name disk_inode = pure none
find_loop (suc n) i name disk_inode = do
  dirent ← read_entry disk_inode i
  s ← lift (name_of dirent)
  let rest = find_loop n (i + 1) name disk_inode
  if same_name s name then pure (some dirent.inode_number) else rest

unfoldable pub find_inode_id : List ℕ → DiskInode → State Disk (Option ℕ)
find_inode_id name disk_inode = do
  assert (is_dir disk_inode)
  find_loop (disk_inode.size / dirent_sz) 0 name disk_inode

-- `fs.get_disk_inode_pos` under `map`.
unfoldable pub inode_of : EasyFileSystem → Option ℕ → Option Inode
unfolding new get_disk_inode_pos
inode_of fs none = none
inode_of fs (some inode_id) = some (new (get_disk_inode_pos fs inode_id))

unfoldable pub find : EasyFileSystem → Inode → List ℕ → State Disk (Option Inode)
find fs self name = do id ← read_disk_inode self (find_inode_id name); pure (inode_of fs id)

-- The loop of `increase_size` that allocates `n` blocks.
unfoldable pub alloc_blocks : EasyFileSystem → ℕ → State Disk (List ℕ)
alloc_blocks fs zero = pure []
alloc_blocks fs (suc n) = do b ← alloc_data fs; rest ← alloc_blocks fs n; pure (b ∷ rest)

-- The iterator over the blocks is dropped with what is left of it.
unfoldable pub discard : Result (DiskInode × Feed) → Result (DiskInode × Disk)
discard (ok (n, s)) = ok (n, s.disk)
discard panic = panic
discard out_of_fuel = out_of_fuel

unfoldable pub increase_size : EasyFileSystem → (new_size : ℕ) → DiskInode → State Disk DiskInode
unfolding discard
increase_size fs new_size disk_inode = if ltb new_size disk_inode.size then pure disk_inode else (do
  blocks_needed ← blocks_num_needed disk_inode new_size
  v ← alloc_blocks fs blocks_needed
  λ d. discard (Grow.increase_size disk_inode new_size (feed d v)))

-- The closure of `create` that appends an entry to the directory.
unfoldable pub append_entry :
    EasyFileSystem → List ℕ → ℕ → DiskInode → State Disk (Unit {0} × DiskInode)
append_entry fs name new_inode_id root_inode = do
  let file_count = root_inode.size / dirent_sz
  root_inode' ← increase_size fs (u32 ((file_count + 1) * dirent_sz)) root_inode
  dirent ← lift (DirEntry.new name new_inode_id)
  written ← Data.write_at root_inode' (file_count * dirent_sz) dirent_sz (as_bytes dirent)
  pure (tt, root_inode')

-- The part of `create` behind the early return.
unfoldable pub create_file : EasyFileSystem → Inode → List ℕ → State Disk (Option Inode)
create_file fs self name = do
  new_inode_id ← alloc_inode fs
  modify_disk_inode (new (get_disk_inode_pos fs new_inode_id))
      (λ new_inode. pure (tt {0}, OnDisk.initialize file))
  modify_disk_inode self (append_entry fs name new_inode_id)
  pure (some (new (get_disk_inode_pos fs new_inode_id)))

unfoldable pub create : EasyFileSystem → Inode → List ℕ → State Disk (Option Inode)
create fs self name = do
  existing ←
      read_disk_inode self
        (λ root_inode. assert (is_dir root_inode) >> find_inode_id name root_inode)
  if is_some existing then pure none else create_file fs self name

-- The loop of `ls` over the `n` entries from `i` on.
unfoldable pub ls_loop : ℕ → ℕ → DiskInode → State Disk (List (List ℕ))
ls_loop zero i disk_inode = pure []
ls_loop (suc n) i disk_inode = do
  dirent ← read_entry disk_inode i
  s ← lift (name_of dirent)
  rest ← ls_loop n (i + 1) disk_inode
  pure (s ∷ rest)

unfoldable pub ls : Inode → State Disk (List (List ℕ))
ls self = read_disk_inode self (λ disk_inode. ls_loop (disk_inode.size / dirent_sz) 0 disk_inode)

unfoldable pub read_at : Inode → (offset len : ℕ) → Buffer → State Disk (ℕ × Buffer)
read_at self offset len buf =
    read_disk_inode self (λ disk_inode. Data.read_at disk_inode offset len buf)

unfoldable pub write_at : EasyFileSystem → Inode → (offset len : ℕ) → Buffer → State Disk ℕ
write_at fs self offset len buf = modify_disk_inode self (λ disk_inode. do
  disk_inode' ← increase_size fs (u32 (offset + len)) disk_inode
  size ← Data.write_at disk_inode' offset len buf
  pure (size, disk_inode'))

-- The loop of `clear`.
unfoldable pub dealloc_blocks : EasyFileSystem → List ℕ → State Disk (Unit {0})
dealloc_blocks fs [] = pure tt
dealloc_blocks fs (b ∷ bs) = do dealloc_data fs b; dealloc_blocks fs bs

unfoldable pub clear : EasyFileSystem → Inode → State Disk (Unit {0})
clear fs self = modify_disk_inode self (λ disk_inode. do
  (disk_inode', v) ← clear_size disk_inode
  assert (length v == total_blocks disk_inode.size)
  dealloc_blocks fs v
  pure (tt, disk_inode'))
