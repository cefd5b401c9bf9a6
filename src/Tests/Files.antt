-- ===== src/Tests/Files.antt =====
-- Files, their indexes and the entries of directories, at concrete inputs.
use r_core_tutorial_code.Base.{
  ℕ, zero, suc, ◌+◌, ◌*◌, ◌%◌, ◌<◌, ◌≤◌, ◌≡◌, ◌⊎◌, refl, arith, List, [], ◌∷◌, ok, panic, length,
  lt→ltb, replicate,
}
use r_core_tutorial_code.EasyFs.Block.{Disk}
use r_core_tutorial_code.EasyFs.Layout.Inode
use r_core_tutorial_code.EasyFs.Layout.Inode.{DiskInode, DiskInodeType, file, directory}
use r_core_tutorial_code.EasyFs.Layout.Index.{get_block_id}
use r_core_tutorial_code.EasyFs.Layout.Size.{
  data_blocks, data_blocks_of, total_blocks, blocks_num_needed, extra1, extra2, extra3,
}
use r_core_tutorial_code.EasyFs.Layout.Data.{Buffer, IsMapped, byte_of, read_at, write_at}
use r_core_tutorial_code.EasyFs.Layout.Data.Read.{read_at_lem}
use r_core_tutorial_code.EasyFs.Layout.Data.Write.{
  IsInjective, SameOutside, write_at_lem, read_at-write_at,
}
use r_core_tutorial_code.EasyFs.Layout.Grow.{increase_size, feed}
use r_core_tutorial_code.EasyFs.Layout.Grow.Needed.{increase_size_exact}
use r_core_tutorial_code.EasyFs.Layout.Shrink.{clear_size}
use r_core_tutorial_code.EasyFs.Layout.Shrink.Clear.{clear_size_count, clear_size-panic}
use r_core_tutorial_code.EasyFs.Layout.DirEntry.{DirEntry, new, name_of}
use r_core_tutorial_code.EasyFs.Layout.DirEntry.Utf8.{is_utf8}
use r_core_tutorial_code.EasyFs.Layout.DirEntry.Roundtrip.{NoNul, name_of-new, name_too_long}

abbrev zero_disk : Disk
zero_disk a o = 0

-- 1000 bytes in the blocks 10 and 11.
abbrev small_file : DiskInode
small_file = record {
  size = 1000;
  direct = λ i. 10 + i;
  indirect1 = 0;
  indirect2 = 0;
  indirect3 = 0;
  type_ = file;
}

abbrev small_ids : ℕ → ℕ
small_ids k = 10 + k

small_IsMapped : IsMapped small_file small_ids zero_disk
unfolding get_block_id
small_IsMapped e same k lt = rw (lt→ltb k 27 (omega arith)) refl

small_IsInjective : IsInjective small_file small_ids
small_IsInjective i j lt lt' e = omega arith

-- The bytes 0, 1, 2 and so on.
abbrev counting : Buffer
counting p = p % 256

-- More than 155 + 128^3 data blocks.
abbrev huge_file : DiskInode
huge_file = record {
  size = 155 * 512 + 2097152 * 512 + 1;
  direct = λ i. 1;
  indirect1 = 1;
  indirect2 = 1;
  indirect3 = 1;
  type_ = file;
}

abbrev empty_file : DiskInode
empty_file = Inode.initialize file

increase_size_exact_example :
    (m : DiskInode) × (e : Disk) × (increase_size small_file 1500 (feed zero_disk (77 ∷ []))
      ≡ ok (m, feed e []))
    × (m.size ≡ 1500)
unfolding blocks_num_needed data_blocks_of total_blocks extra1 extra2 extra3
increase_size_exact_example =
    increase_size_exact small_file 1500 zero_disk (77 ∷ []) (omega arith) (omega arith)
      (omega arith) refl

read_at_lem_example :
    (out : Buffer) × (read_at small_file 500 100 counting zero_disk ≡ ok ((100, out), zero_disk))
    × ((p : ℕ) → p < 100 → out p ≡ byte_of small_ids zero_disk (500 + p))
    × ((p : ℕ) → 100 ≤ p → out p ≡ counting p)
read_at_lem_example =
    read_at_lem small_file small_ids zero_disk small_IsMapped (omega arith) 500 100 counting
      (omega arith)

write_at_lem_example :
    (e : Disk) × (write_at small_file 500 100 counting zero_disk ≡ ok (100, e))
    × SameOutside small_file small_ids zero_disk e
    × ((p : ℕ) → p < 100 → byte_of small_ids e (500 + p) ≡ counting p)
    × ((p : ℕ)
        → p < 1000
        → (p < 500) ⊎ (600 ≤ p)
        → byte_of small_ids e p ≡ byte_of small_ids zero_disk p)
write_at_lem_example =
    write_at_lem small_file small_ids small_IsInjective (omega arith) 500 100 counting zero_disk
      small_IsMapped (omega arith) (omega arith)

read_at-write_at_example :
    (e : Disk) × (out : Buffer) × (write_at small_file 500 100 counting zero_disk ≡ ok (100, e))
    × (read_at small_file 500 100 (λ _. 0) e ≡ ok ((100, out), e))
    × ((p : ℕ) → p < 100 → out p ≡ counting p)
read_at-write_at_example =
    read_at-write_at small_file small_ids small_IsInjective (omega arith) 500 100 counting (λ _. 0)
      zero_disk small_IsMapped (omega arith) (omega arith)

clear_size_count_example :
    (m : DiskInode) × (v : List ℕ) × (clear_size small_file zero_disk ≡ ok ((m, v), zero_disk))
    × (length v ≡ total_blocks 1000)
    × (m.size ≡ 0)
unfolding data_blocks data_blocks_of
clear_size_count_example = clear_size_count small_file zero_disk (omega arith) (omega arith)

clear_size-panic_example : clear_size huge_file zero_disk ≡ panic
unfolding data_blocks data_blocks_of
clear_size-panic_example = clear_size-panic huge_file zero_disk (omega arith)

-- "ab"
abbrev short_name : List ℕ
short_name = 97 ∷ 98 ∷ []

short_name-NoNul : NoNul short_name
short_name-NoNul zero lt e = omega arith
short_name-NoNul (suc zero) lt e = omega arith
short_name-NoNul (suc (suc i)) lt e = omega arith

name_of-new_example :
    (e : DirEntry) × (new short_name 5 ≡ ok e) × (name_of e ≡ ok short_name) × (e.inode_number ≡ 5)
unfolding is_utf8
name_of-new_example = name_of-new short_name 5 (omega arith) short_name-NoNul refl

-- A name of `n` letters "a".
letters-NoNul : (n : ℕ) → NoNul (replicate n 97)
letters-NoNul zero i lt e = omega arith
letters-NoNul (suc n) zero lt e = omega arith
letters-NoNul (suc n) (suc i) lt e = letters-NoNul n i (omega arith) e

abbrev long_name : List ℕ
long_name = replicate 28 97

name_too_long_example :
    ((length long_name ≡ 28) × ((e : DirEntry) × (new long_name 5 ≡ ok e) × (name_of e ≡ panic)))
    ⊎ ((28 < length long_name) × (new long_name 5 ≡ panic))
name_too_long_example = name_too_long long_name 5 (omega arith) (letters-NoNul 28)
