-- ===== src/Os/Fs/OsInode.antt =====
-- os/src/fs/inode.rs: an open file of the file system, with its offset. The memory of the process is
-- the bytes of its pages; the slices of a buffer are those of os/src/mm/page_table.rs.
pub mod ReadAll
use r_core_tutorial_code.Base.{
  ℕ, zero, suc, ◌+◌, ◌-◌, ◌*◌, ◌/◌, ◌%◌, ◌^◌, Bool, true, false, ◌&&◌, Option, none, some, List, [],
  ◌∷◌, ◌++◌, State, Result, ok, panic, out_of_fuel, assert, gets, modify, pure, ◌>>=◌, ◌>>◌, ◌==◌,
  ltb, leb, if◌then◌else◌, tabulate, map, bit_and,
}
use r_core_tutorial_code.EasyFs.Block.{Disk}
use r_core_tutorial_code.EasyFs.Layout.Data.{Buffer}
use r_core_tutorial_code.EasyFs.Efs.{EasyFileSystem}
use r_core_tutorial_code.EasyFs.Vfs
use r_core_tutorial_code.Os.Mm.UserBuffer.{Slice}

pub record OsInode : Type 0 where
  pub readable : Bool
  pub writable : Bool
  pub offset : ℕ
  pub inode : Vfs.Inode

-- `OSInode::new`
unfoldable pub new : Bool → Bool → Vfs.Inode → OsInode
new readable writable inode = record {
  readable = readable;
  writable = writable;
  offset = 0;
  inode = inode;
}

-- The loop of `read_all`, on fuel; the buffer of 512 bytes stays the same.
unfoldable pub read_all_loop : ℕ → OsInode → Buffer → List ℕ → State Disk (List ℕ × OsInode)
read_all_loop zero self buffer v = λ _. out_of_fuel
read_all_loop (suc fuel) self buffer v = do
  (len, buffer') ← Vfs.read_at self.inode self.offset 512 buffer
  if len == 0
      then pure (v, self)
      else read_all_loop fuel (record self { offset = self.offset + len }) buffer'
          (v ++ tabulate len 0 buffer')

unfoldable pub read_all : ℕ → OsInode → State Disk (List ℕ × OsInode)
unfolding read_all_loop
read_all fuel self = read_all_loop fuel self (λ _. 0) []

-- `OpenFlags`, as the number of the bit.
abbrev pub wronly : ℕ
wronly = 0

abbrev pub rdwr : ℕ
rdwr = 1

abbrev pub create_flag : ℕ
create_flag = 9

abbrev pub trunc : ℕ
trunc = 10

unfoldable pub has_bit : ℕ → ℕ → Bool
has_bit k flags = flags / 2 ^ k % 2 == 1

-- `OpenFlags::from_bits`: only these four bits are flags.
unfoldable pub from_bits : ℕ → Option ℕ
from_bits flags = if bit_and flags (2 ^ 32 - 1 - 0x603) == 0 then some flags else none

unfoldable pub read_write : ℕ → Bool × Bool
unfolding has_bit
read_write flags =
    if flags == 0
    then (true, false)
    else if has_bit wronly flags
    then (false, true)
    else (true, true)

-- A found inode, opened.
abbrev pub opened : Bool × Bool → Option Vfs.Inode → Option OsInode
opened access none = none
opened (readable, writable) (some inode) = some (new readable writable inode)

unfoldable pub open_found : EasyFileSystem → ℕ → Option Vfs.Inode → State Disk (Option OsInode)
unfolding read_write has_bit
open_found fs flags none = pure none
open_found fs flags (some inode) = do
  if has_bit trunc flags then Vfs.clear fs inode else pure tt
  pure (opened (read_write flags) (some inode))

unfoldable pub create_or_clear :
    EasyFileSystem → List ℕ → ℕ → Option Vfs.Inode → State Disk (Option OsInode)
unfolding read_write
create_or_clear fs name flags (some inode) = do
  Vfs.clear fs inode
  pure (opened (read_write flags) (some inode))
create_or_clear fs name flags none = do
  created ← Vfs.create fs (Vfs.root_inode fs) name
  pure (opened (read_write flags) created)

unfoldable pub open_file : EasyFileSystem → List ℕ → ℕ → State Disk (Option OsInode)
unfolding create_or_clear open_found has_bit
open_file fs name flags = do
  found ← Vfs.find fs (Vfs.root_inode fs) name
  if has_bit create_flag flags
      then create_or_clear fs name flags found
      else open_found fs flags found

-- The pages of the process: the bytes of the frames.
abbrev pub Pages : Type 0
Pages = ℕ → ℕ → ℕ

unfoldable pub load_slice : Pages → Slice → Buffer
load_slice pages b i = pages b.ppn (b.from + i)

unfoldable pub store_slice : Pages → Slice → Buffer → Pages
store_slice pages b buffer ppn offset =
    if ppn == b.ppn && leb b.from offset && ltb offset b.to
    then buffer (offset - b.from)
    else pages ppn offset

-- The loop of `read`: the size read, the open file and the pages after it.
unfoldable pub read_slices : List Slice → OsInode → ℕ → Pages → State Disk (ℕ × OsInode × Pages)
unfolding load_slice store_slice
read_slices [] self total pages = pure (total, self, pages)
read_slices (b ∷ bs) self total pages = do
  (size, buffer) ← Vfs.read_at self.inode self.offset (b.to - b.from) (load_slice pages b)
  if size == 0
      then pure (total, self, store_slice pages b buffer)
      else read_slices bs (record self { offset = self.offset + size }) (total + size)
          (store_slice pages b buffer)

unfoldable pub read : List Slice → OsInode → Pages → State Disk (ℕ × OsInode × Pages)
unfolding read_slices
read buffers self pages = read_slices buffers self 0 pages

unfoldable pub write_slices :
    EasyFileSystem → List Slice → OsInode → ℕ → Pages → State Disk (ℕ × OsInode)
unfolding load_slice
write_slices fs [] self total pages = pure (total, self)
write_slices fs (b ∷ bs) self total pages = do
  size ← Vfs.write_at fs self.inode self.offset (b.to - b.from) (load_slice pages b)
  assert (size == b.to - b.from)
  write_slices fs bs (record self { offset = self.offset + size }) (total + size) pages

unfoldable pub write : EasyFileSystem → List Slice → OsInode → Pages → State Disk (ℕ × OsInode)
unfolding write_slices
write fs buffers self pages = write_slices fs buffers self 0 pages
