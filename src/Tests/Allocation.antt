-- ===== src/Tests/Allocation.antt =====
-- The allocation of data blocks, at concrete inputs.
use r_core_tutorial_code.Base.{
  ℕ, zero, suc, ◌+◌, ◌<◌, ◌≡◌, ◌⊎◌, refl, arith, List, ok, panic, length, update, ◌==◌,
  if◌then◌else◌,
}
use r_core_tutorial_code.Base.Bits.{bit, trailing_ones}
use r_core_tutorial_code.EasyFs.Block.{Disk, get_word, put_word}
use r_core_tutorial_code.EasyFs.Bitmap.{
  Bitmap, maximum, alloc, bit_at, block_bit, alloc_loop, alloc_next, alloc_in, find_word,
}
use r_core_tutorial_code.EasyFs.Bitmap.Alloc.{IsDisk}
use r_core_tutorial_code.EasyFs.Layout.Shrink.Indices.{ListsIndices}
use r_core_tutorial_code.EasyFs.Layout.Inode as OnDisk
use r_core_tutorial_code.EasyFs.Layout.Inode.{DiskInode, DiskInodeType, file}
use r_core_tutorial_code.Base.Count.{count}
use r_core_tutorial_code.EasyFs.Layout.Index.{get_block_id}
use r_core_tutorial_code.EasyFs.Layout.Shrink.{clear_size}
use r_core_tutorial_code.EasyFs.Layout.Size.{data_blocks, data_blocks_of, total_blocks}
use r_core_tutorial_code.EasyFs.Layout.Grow.Exact.{need}
use r_core_tutorial_code.EasyFs.Efs.{EasyFileSystem, sizes, layout, alloc_data, dealloc_data}
use r_core_tutorial_code.EasyFs.Efs.Areas.{formatted}
use r_core_tutorial_code.EasyFs.Efs.Exhaustion.{
  IsSmall, Allocated, alloc_data_lem, alloc_data_beyond, dealloc_data-alloc_data,
}
use r_core_tutorial_code.EasyFs.Vfs.{Inode, increase_size, alloc_blocks, dealloc_blocks, clear}
use r_core_tutorial_code.EasyFs.Vfs.Files.{IsFull, increase_size_lem, clear_lem}

abbrev blank : Disk
blank a o = 0

blank-IsDisk : IsDisk blank
blank-IsDisk a o = omega arith

abbrev bitmap : Bitmap
bitmap = record { start_block_id = 1; blocks = 1 }

-- Bit 0 taken.
abbrev first_taken : Disk
first_taken = update blank 1 (put_word 8 (λ _. 0) 0 1)

-- A disk of 1030 blocks, three of which are for data.
abbrev tiny : EasyFileSystem
tiny = record {
  inode_bitmap = record { start_block_id = 1; blocks = 1 };
  data_bitmap = record { start_block_id = 1026; blocks = 1 };
  inode_area_start_block = 2;
  data_area_start_block = 1027;
}

tiny-IsSmall : IsSmall tiny
unfolding maximum
tiny-IsSmall = omega arith

alloc_data_lem_example :
    Allocated tiny blank (alloc_data tiny blank)
    ⊎ ((alloc_data tiny blank ≡ panic)
        × ((q : ℕ) → q < maximum tiny.data_bitmap → bit_at tiny.data_bitmap blank q ≡ 1))
alloc_data_lem_example = alloc_data_lem tiny blank tiny-IsSmall blank-IsDisk

abbrev data_taken : Disk
data_taken = update blank 1026 (put_word 8 (λ _. 0) 0 1)

dealloc_data-alloc_data_example :
    (f : Disk) × (dealloc_data tiny 1027 data_taken ≡ ok (tt, f))
    × ((o : ℕ) → f 1027 o ≡ 0)
    × ((q : ℕ)
        → q < maximum tiny.data_bitmap
        → bit_at tiny.data_bitmap f q ≡ bit_at tiny.data_bitmap blank q)
unfolding alloc_data alloc alloc_loop alloc_next alloc_in find_word trailing_ones get_word
dealloc_data-alloc_data_example =
    dealloc_data-alloc_data tiny blank data_taken 1027 tiny-IsSmall (omega arith) blank-IsDisk refl

-- The bits of the three data blocks are set.
abbrev three_taken : Disk
three_taken a o = if o == 0 then 7 else 0

three_taken-IsDisk : IsDisk three_taken
three_taken-IsDisk a o = ground arith

three_bits : (q : ℕ) → q < 3 → bit_at tiny.data_bitmap three_taken q ≡ 1
unfolding bit_at block_bit bit get_word
three_bits zero lt = refl
three_bits (suc zero) lt = refl
three_bits (suc (suc zero)) lt = refl
three_bits (suc (suc (suc q))) lt = absurd (omega arith)

alloc_data_beyond_example : (e : Disk) × (alloc_data (formatted 1030 1) three_taken ≡ ok (1030, e))
unfolding formatted layout sizes maximum bit_at block_bit bit get_word
alloc_data_beyond_example =
    alloc_data_beyond 1030 1 three_taken (record { small = omega arith; room = omega arith })
      (omega arith) three_taken-IsDisk (omega arith) three_bits refl

abbrev small_file : DiskInode
small_file = record {
  size = 1000;
  direct = λ i. 1027 + i;
  indirect1 = 0;
  indirect2 = 0;
  indirect3 = 0;
  type_ = file;
}

increase_size_lem_example :
    ((m : DiskInode) × (e : Disk) × (increase_size tiny 1500 small_file blank ≡ ok (m, e))
      × (m.size ≡ 1500))
    ⊎ ((increase_size tiny 1500 small_file blank ≡ panic)
        × ((j : ℕ) × (v : List ℕ) × (e : Disk) × (j
              < need (data_blocks small_file) (data_blocks_of 1500))
            × (alloc_blocks tiny j blank ≡ ok (v, e))
            × IsFull tiny e))
unfolding data_blocks_of
increase_size_lem_example =
    increase_size_lem tiny small_file 1500 blank tiny-IsSmall blank-IsDisk (omega arith)
      (omega arith) (omega arith)

abbrev place : Inode
place = record { block_id = 2; block_offset = 128 }

-- A file of 1000 bytes in the blocks 1027 and 1028, which are taken in the bitmap.
abbrev two_blocks : Disk
two_blocks a o =
    if a == 2
    then if o == 128
      then 232
      else if o == 129
      then 3
      else if o == 132
      then 3
      else if o == 133
      then 4
      else if o == 136
      then 4
      else if o == 137
      then 4
      else 0
    else if a == 1026
    then if o == 0 then 3 else 0
    else 0

abbrev stored_file : DiskInode
stored_file = OnDisk.decode (two_blocks 2) 128

stored_size : (stored_file.size ≡ 1000) × (stored_file.direct 1 ≡ 1028)
unfolding OnDisk.decode get_word
stored_size = (refl, refl)

stored_blocks : data_blocks stored_file ≡ 2
unfolding data_blocks data_blocks_of OnDisk.decode get_word
stored_blocks = refl

clear_lem_example :
    (m : DiskInode) × (v : List ℕ) × (clear_size stored_file two_blocks ≡ ok ((m, v), two_blocks))
    × (length v ≡ total_blocks stored_file.size)
    × ((k : ℕ)
        → k < data_blocks stored_file
        → (id : ℕ) × (get_block_id stored_file k two_blocks ≡ ok (id, two_blocks))
          × (0 < count id v))
    × ListsIndices stored_file (data_blocks stored_file) v
    × (dealloc_blocks tiny v two_blocks ≡ panic → clear tiny place two_blocks ≡ panic)
    × ((e : Disk)
        → dealloc_blocks tiny v two_blocks ≡ ok (tt, e)
        → let f = update e 2 (OnDisk.encode (e 2) 128 m) in
          (clear tiny place two_blocks ≡ ok (tt, f)) × ((OnDisk.decode (f 2) 128).size ≡ 0))
clear_lem_example =
    clear_lem tiny place two_blocks (omega arith) (omega (arith, stored_size.0))
      (omega (arith, stored_blocks))
