-- ===== src/Tests/Disks.antt =====
-- The block cache, the bitmaps and the file system, at concrete inputs.
use r_core_tutorial_code.Base.{
  ℕ, ◌+◌, ◌*◌, ◌<◌, ◌≤◌, ◌≡◌, ◌≢◌, ◌⊎◌, inl, refl, arith, none, [], ok, panic, update, update_at,
  update_ne,
}
use r_core_tutorial_code.EasyFs.Block.{Disk}
use r_core_tutorial_code.EasyFs.Bitmap.{Bitmap, maximum, alloc, dealloc, bit_at}
use r_core_tutorial_code.EasyFs.Bitmap.Alloc.{IsDisk, Found, Full, alloc_lem}
use r_core_tutorial_code.EasyFs.Bitmap.Dealloc.{dealloc_lem}
use r_core_tutorial_code.EasyFs.BlockCache.{
  BlockDevice, Manager, get_block_cache, modify_block, block_cache_sync_all, view, find_entry,
  block_cache_size,
}
use r_core_tutorial_code.EasyFs.BlockCache.Queue.{All}
use r_core_tutorial_code.EasyFs.BlockCache.Refinement.{
  IsCoherent, Gets, SameView, get_block_cache_lem,
}
use r_core_tutorial_code.EasyFs.BlockCache.Access.{modify_block_lem}
use r_core_tutorial_code.EasyFs.BlockCache.SyncAll.{block_cache_sync_all_lem}
use r_core_tutorial_code.EasyFs.Layout.SuperBlock.{SuperBlock, IsU32}
use r_core_tutorial_code.EasyFs.Efs.{sizes, create, get_disk_inode_pos}
use r_core_tutorial_code.EasyFs.Efs.Areas.{Fits, formatted, areas_lem, get_disk_inode_pos_lem}
use r_core_tutorial_code.EasyFs.Efs.Mount.{Created, create_lem}

abbrev blank : Disk
blank a o = 0

blank-IsDisk : IsDisk blank
blank-IsDisk a o = omega arith

-- A device that is the array of its blocks.
abbrev ram_disk : BlockDevice
ram_disk = record {
  Dev = Disk;
  read_block = λ d a. d a;
  write_block = λ d a b. update d a b;
  read-write_self = λ d a b. update_at d a b a refl;
  read-write_ne = λ d a b c ne. update_ne d a b c ne;
}

-- A cache with nothing in it.
abbrev cold : Manager ram_disk
cold = record { queue = []; device = blank }

cold-IsCoherent : IsCoherent ram_disk cold
cold-IsCoherent = record { distinct = tt; agrees = tt; bounded = omega arith }

get_block_cache_lem_example :
    Gets ram_disk 3 cold (get_block_cache ram_disk 3 cold)
    ⊎ (get_block_cache ram_disk 3 cold ≡ panic)
      × (find_entry 3 [] ≡ none)
      × (0 ≡ block_cache_size)
      × All (λ e. e.strong_count ≢ 1) []
get_block_cache_lem_example = get_block_cache_lem ram_disk 3 cold cold-IsCoherent

modify_block_lem_example :
    (m' : Manager ram_disk) × (modify_block ram_disk 3 0 512 (λ _ _. 9) cold ≡ ok (tt, m'))
    × IsCoherent ram_disk m'
    × ((b : ℕ) → view ram_disk m' b ≡ update (view ram_disk cold) 3 (λ _. 9) b)
modify_block_lem_example =
    modify_block_lem ram_disk 3 0 512 (λ _ _. 9) cold cold-IsCoherent (omega arith)
      (inl (λ e. omega arith))

block_cache_sync_all_lem_example :
    IsCoherent ram_disk (block_cache_sync_all ram_disk cold)
    × SameView ram_disk cold (block_cache_sync_all ram_disk cold)
    × ((b : ℕ)
        → (block_cache_sync_all ram_disk cold).device b
          ≡ view ram_disk (block_cache_sync_all ram_disk cold) b)
block_cache_sync_all_lem_example = block_cache_sync_all_lem ram_disk cold cold-IsCoherent

abbrev one_block : Bitmap
one_block = record { start_block_id = 1; blocks = 1 }

alloc_lem_example :
    Found 0 (maximum one_block) one_block blank (alloc one_block blank)
    ⊎ Full 0 (maximum one_block) one_block blank (alloc one_block blank)
alloc_lem_example = alloc_lem one_block blank blank-IsDisk

dealloc_lem_example :
    ((bit_at one_block blank 70 ≡ 0) × (dealloc one_block 70 blank ≡ panic))
    ⊎ ((bit_at one_block blank 70 ≡ 1)
        × ((e : Disk) × (dealloc one_block 70 blank ≡ ok (tt, e))
            × IsDisk e
            × (bit_at one_block e 70 ≡ 0)
            × ((q : ℕ) → q ≢ 70 → bit_at one_block e q ≡ bit_at one_block blank q)
            × ((a : ℕ) → a ≢ 1 → e a ≡ blank a)))
dealloc_lem_example = dealloc_lem one_block 70 blank blank-IsDisk

abbrev first_super_block : SuperBlock
first_super_block = record {
  magic = 0x3b800001;
  total_blocks = 8192;
  inode_bitmap_blocks = 1;
  inode_area_blocks = 1024;
  data_bitmap_blocks = 2;
  data_area_blocks = 7164;
}

first_super_block-IsU32 : IsU32 first_super_block
first_super_block-IsU32 = record {
  magic = omega arith;
  total_blocks = omega arith;
  inode_bitmap_blocks = omega arith;
  inode_area_blocks = omega arith;
  data_bitmap_blocks = omega arith;
  data_area_blocks = omega arith;
}

-- 4 MiB with one block of inode bitmap, as easy-fs-fuse makes them.
image_Fits : Fits 8192 1
image_Fits = record { small = omega arith; room = omega arith }

areas_lem_example :
    ((formatted 8192 1).inode_bitmap.start_block_id ≡ 1)
    × ((formatted 8192 1).inode_area_start_block ≡ 1 + (formatted 8192 1).inode_bitmap.blocks)
    × ((formatted 8192 1).data_bitmap.start_block_id
        ≡ (formatted 8192 1).inode_area_start_block + (sizes 8192 1).inode_area_blocks)
    × ((formatted 8192 1).data_area_start_block
        ≡ (formatted 8192 1).data_bitmap.start_block_id + (formatted 8192 1).data_bitmap.blocks)
    × ((formatted 8192 1).data_area_start_block + (sizes 8192 1).data_area_blocks ≡ 8192)
    × (maximum (formatted 8192 1).inode_bitmap ≡ 4 * (sizes 8192 1).inode_area_blocks)
    × ((sizes 8192 1).data_area_blocks ≤ maximum (formatted 8192 1).data_bitmap)
areas_lem_example = areas_lem 8192 1 image_Fits

get_disk_inode_pos_lem_example :
    ((formatted 8192 1).inode_area_start_block ≤ (get_disk_inode_pos (formatted 8192 1) 6).0)
    × ((get_disk_inode_pos (formatted 8192 1) 6).0 < (formatted 8192 1).data_bitmap.start_block_id)
    × ((get_disk_inode_pos (formatted 8192 1) 6).1 + 128 ≤ 512)
    × ((j : ℕ)
        → j < maximum (formatted 8192 1).inode_bitmap
        → j ≢ 6
        → get_disk_inode_pos (formatted 8192 1) j ≢ get_disk_inode_pos (formatted 8192 1) 6)
unfolding formatted maximum
get_disk_inode_pos_lem_example = get_disk_inode_pos_lem 8192 1 6 image_Fits (omega arith)

create_lem_example :
    (e : Disk) × (create 8192 1 blank ≡ ok (formatted 8192 1, e)) × Created 8192 1 e
create_lem_example = create_lem 8192 1 blank image_Fits (omega arith) blank-IsDisk
