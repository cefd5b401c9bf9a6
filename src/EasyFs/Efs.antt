-- ===== src/EasyFs/Efs.antt =====
-- easy-fs/src/efs.rs: the layout of the disk, and the allocation of its inodes and data blocks.
-- The disk is the contents that the block cache shows; sums of `u32` wrap around.
pub mod Areas
pub mod Blank
pub mod Mount
pub mod Exhaustion
use r_core_tutorial_code.Base.{
  ℕ, zero, suc, ◌+◌, ◌-◌, ◌*◌, ◌/◌, ◌%◌, ◌^◌, Option, State, assert, gets, modify, pure, unwrap,
  ◌>>=◌, ◌>>◌, update, ◌==◌, if◌then◌else◌, fail,
}
use r_core_tutorial_code.EasyFs.Block.{block_sz, Block, Disk, u32}
use r_core_tutorial_code.EasyFs.Bitmap
use r_core_tutorial_code.EasyFs.Bitmap.{Bitmap, maximum, alloc, dealloc}
use r_core_tutorial_code.EasyFs.Layout.SuperBlock
use r_core_tutorial_code.EasyFs.Layout.SuperBlock.{SuperBlock, is_valid}
use r_core_tutorial_code.EasyFs.Layout.Inode
use r_core_tutorial_code.EasyFs.Layout.Inode.{DiskInodeType, directory, inode_size}

-- Without the device, which is the disk of the state.
pub record EasyFileSystem : Type 0 where
  pub inode_bitmap : Bitmap
  pub data_bitmap : Bitmap
  pub inode_area_start_block : ℕ
  pub data_area_start_block : ℕ

-- `a - b` on `u32`
abbrev pub u32_sub : ℕ → ℕ → ℕ
u32_sub a b = (a + 2 ^ 32 - b) % 2 ^ 32

-- The sizes that `create` computes.
pub record Sizes : Type 0 where
  pub inode_area_blocks : ℕ
  pub data_bitmap_blocks : ℕ
  pub data_area_blocks : ℕ

unfoldable pub sizes : (total_blocks inode_bitmap_blocks : ℕ) → Sizes
unfolding maximum Bitmap.new
sizes total_blocks inode_bitmap_blocks =
    let inode_num = maximum (Bitmap.new 1 inode_bitmap_blocks) in
    let inode_area_blocks = u32 ((inode_num * inode_size + block_sz - 1) / block_sz) in
    let inode_total_blocks = u32 (inode_bitmap_blocks + inode_area_blocks) in
    let data_total_blocks = u32_sub (u32_sub total_blocks 1) inode_total_blocks in
    let data_bitmap_blocks = u32 (data_total_blocks + 4096) / 4097 in
    record {
      inode_area_blocks = inode_area_blocks;
      data_bitmap_blocks = data_bitmap_blocks;
      data_area_blocks = u32_sub data_total_blocks data_bitmap_blocks;
    }

-- The file system of some sizes, as both `create` and `open` build it.
unfoldable pub layout :
    (inode_bitmap_blocks inode_area_blocks data_bitmap_blocks : ℕ) → EasyFileSystem
unfolding Bitmap.new
layout inode_bitmap_blocks inode_area_blocks data_bitmap_blocks =
    let inode_total_blocks = u32 (inode_bitmap_blocks + inode_area_blocks) in
    record {
      inode_bitmap = Bitmap.new 1 inode_bitmap_blocks;
      data_bitmap = Bitmap.new (u32 (1 + inode_total_blocks)) data_bitmap_blocks;
      inode_area_start_block = u32 (1 + inode_bitmap_blocks);
      data_area_start_block = u32 (u32 (1 + inode_total_blocks) + data_bitmap_blocks);
    }

unfoldable pub get_disk_inode_pos : EasyFileSystem → ℕ → ℕ × ℕ
get_disk_inode_pos fs inode_id =
    let inodes_per_block = block_sz / inode_size in
    (
      u32 (fs.inode_area_start_block + inode_id / inodes_per_block),
      (inode_id % inodes_per_block) * inode_size,
    )

unfoldable pub get_data_block_id : EasyFileSystem → ℕ → ℕ
get_data_block_id fs data_block_id = u32 (fs.data_area_start_block + data_block_id)

unfoldable pub alloc_inode : EasyFileSystem → State Disk ℕ
alloc_inode fs = do found ← alloc fs.inode_bitmap; n ← unwrap found; pure (u32 n)

unfoldable pub alloc_data : EasyFileSystem → State Disk ℕ
alloc_data fs = do
  found ← alloc fs.data_bitmap
  n ← unwrap found
  pure (u32 (u32 n + fs.data_area_start_block))

unfoldable pub dealloc_data : EasyFileSystem → ℕ → State Disk (Unit {0})
dealloc_data fs block_id = do
  modify (λ d. update d block_id (λ _. 0))
  dealloc fs.data_bitmap (u32_sub block_id fs.data_area_start_block)

-- The loop of `create` that clears the first `n` blocks.
unfoldable pub clear_blocks : ℕ → Disk → Disk
clear_blocks zero d = d
clear_blocks (suc n) d = update (clear_blocks n d) n (λ _. 0)

unfoldable pub create : (total_blocks inode_bitmap_blocks : ℕ) → State Disk EasyFileSystem
unfolding sizes layout get_disk_inode_pos alloc_inode
create total_blocks inode_bitmap_blocks = do
  let s = sizes total_blocks inode_bitmap_blocks
  let fs = layout inode_bitmap_blocks s.inode_area_blocks s.data_bitmap_blocks
  modify (clear_blocks total_blocks)
  let super_block =
      SuperBlock.initialize total_blocks inode_bitmap_blocks s.inode_area_blocks
        s.data_bitmap_blocks s.data_area_blocks
  modify (λ d. update d 0 (SuperBlock.encode (d 0) super_block))
  id ← alloc_inode fs
  assert (id == 0)
  let (root_inode_block_id, root_inode_offset) = get_disk_inode_pos fs 0
  modify (λ d.
      update d root_inode_block_id
        (Inode.encode (d root_inode_block_id) root_inode_offset (Inode.initialize directory)))
  pure fs

-- `EasyFileSystem::open`
unfoldable pub open_fs : State Disk EasyFileSystem
unfolding layout
open_fs = do
  block ← gets (λ d. d 0)
  let super_block = SuperBlock.decode block
  assert (is_valid super_block)
  pure (
      layout super_block.inode_bitmap_blocks super_block.inode_area_blocks
        super_block.data_bitmap_blocks)
