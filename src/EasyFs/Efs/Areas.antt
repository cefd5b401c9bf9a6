-- ===== src/EasyFs/Efs/Areas.antt =====
-- The areas of a file system do not overlap.
use r_core_tutorial_code.Base.{ℕ, ◌+◌, ◌-◌, ◌*◌, ◌/◌, ◌^◌, ◌<◌, ◌≤◌, ◌≡◌, ◌≢◌, arith, refl, ap}
use r_core_tutorial_code.EasyFs.Bitmap
use r_core_tutorial_code.EasyFs.Bitmap.{Bitmap, maximum}
use r_core_tutorial_code.EasyFs.Efs.{EasyFileSystem, sizes, layout, get_disk_inode_pos}

-- The blocks of the inode bitmap and of its inodes leave room for the data.
pub record Fits (total_blocks inode_bitmap_blocks : ℕ) : Type 0 where
  pub small : total_blocks < 2 ^ 32 - 4096
  pub room : 1 + inode_bitmap_blocks * 1025 < total_blocks

pub sizes_inode_area :
    (total ibb : ℕ) → Fits total ibb → (sizes total ibb).inode_area_blocks ≡ ibb * 1024
unfolding sizes maximum Bitmap.new
sizes_inode_area total ibb fits = let h = fits.small in let h' = fits.room in omega arith

pub sizes_data_bitmap :
    (total ibb : ℕ)
    → Fits total ibb
    → (sizes total ibb).data_bitmap_blocks ≡ (total - 1 - ibb * 1025 + 4096) / 4097
unfolding sizes maximum Bitmap.new
sizes_data_bitmap total ibb fits = let h = fits.small in let h' = fits.room in omega arith

pub sizes_data_area :
    (total ibb : ℕ)
    → Fits total ibb
    → (sizes total ibb).data_area_blocks
      ≡ total - 1 - ibb * 1025 - (total - 1 - ibb * 1025 + 4096) / 4097
unfolding sizes maximum Bitmap.new
sizes_data_area total ibb fits = let h = fits.small in let h' = fits.room in omega arith

-- The file system that `create` makes.
unfoldable pub formatted : (total_blocks inode_bitmap_blocks : ℕ) → EasyFileSystem
unfolding sizes layout
formatted total_blocks inode_bitmap_blocks =
    let s = sizes total_blocks inode_bitmap_blocks in
    layout inode_bitmap_blocks s.inode_area_blocks s.data_bitmap_blocks

-- Where the areas of that file system start.
pub formatted_starts :
    (total ibb : ℕ)
    → Fits total ibb
    → ((formatted total ibb).inode_area_start_block ≡ 1 + ibb)
      × ((formatted total ibb).data_bitmap.start_block_id ≡ 1 + ibb * 1025)
      × ((formatted total ibb).data_area_start_block
          ≡ 1 + ibb * 1025 + (total - 1 - ibb * 1025 + 4096) / 4097)
unfolding formatted layout Bitmap.new maximum sizes
formatted_starts total ibb fits =
    let h = fits.small in let h' = fits.room in (omega arith, omega arith, omega arith)

-- Where there are fewer than `2 ^ 32 - 4096` blocks, and the inode bitmap and its inodes leave
-- room for data: the areas of the file system follow each other without a gap up to the end of the
-- disk, each bit of the inode bitmap has its inode, and each data block has its bit.
pub areas_lem :
    (total ibb : ℕ)
    → Fits total ibb
    → ((formatted total ibb).inode_bitmap.start_block_id ≡ 1)
      × ((formatted total ibb).inode_area_start_block
          ≡ 1 + (formatted total ibb).inode_bitmap.blocks)
      × ((formatted total ibb).data_bitmap.start_block_id
          ≡ (formatted total ibb).inode_area_start_block + (sizes total ibb).inode_area_blocks)
      × ((formatted total ibb).data_area_start_block
          ≡ (formatted total ibb).data_bitmap.start_block_id
            + (formatted total ibb).data_bitmap.blocks)
      × ((formatted total ibb).data_area_start_block + (sizes total ibb).data_area_blocks ≡ total)
      × (maximum (formatted total ibb).inode_bitmap ≡ 4 * (sizes total ibb).inode_area_blocks)
      × ((sizes total ibb).data_area_blocks ≤ maximum (formatted total ibb).data_bitmap)
unfolding formatted layout Bitmap.new maximum sizes
areas_lem total ibb fits =
    let h = fits.small in
    let h' = fits.room in
    (refl, omega arith, omega arith, omega arith, omega arith, omega arith, omega arith)

inode_bitmap_blocks : (total ibb : ℕ) → (formatted total ibb).inode_bitmap.blocks ≡ ibb
unfolding formatted layout Bitmap.new
inode_bitmap_blocks total ibb = refl

-- Where there are fewer than `2 ^ 32 - 4096` blocks, and the inode bitmap and its inodes leave
-- room for data: an inode of the bitmap lies inside of one block of the inode area, and two inodes
-- of the bitmap have different places.
pub get_disk_inode_pos_lem :
    (total ibb i : ℕ)
    → Fits total ibb
    → i < maximum (formatted total ibb).inode_bitmap
    → ((formatted total ibb).inode_area_start_block
        ≤ (get_disk_inode_pos (formatted total ibb) i).0)
      × ((get_disk_inode_pos (formatted total ibb) i).0
          < (formatted total ibb).data_bitmap.start_block_id)
      × ((get_disk_inode_pos (formatted total ibb) i).1 + 128 ≤ 512)
      × ((j : ℕ)
          → j < maximum (formatted total ibb).inode_bitmap
          → j ≢ i
          → get_disk_inode_pos (formatted total ibb) j ≢ get_disk_inode_pos (formatted total ibb) i)
unfolding maximum get_disk_inode_pos
get_disk_inode_pos_lem total ibb i fits lt =
    let (a, b, c) = formatted_starts total ibb fits in
    let h = fits.small in
    let h' = fits.room in
    let k = inode_bitmap_blocks total ibb in
    let n : i < ibb * 4096 = omega arith in
    rw (a, b)
      (
        omega arith,
        omega arith,
        omega arith,
        λ j lt' ne e.
            let n' : j < ibb * 4096 = omega arith in
            let p = ap (λ t. t.0) e in let q = ap (λ t. t.1) e in ne (omega arith),
      )
