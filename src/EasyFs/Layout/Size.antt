-- ===== src/EasyFs/Layout/Size.antt =====
-- How many blocks a size needs: `data_blocks`, `total_blocks` and `blocks_num_needed`.
use r_core_tutorial_code.Base.{
  ℕ, ◌+◌, ◌-◌, ◌/◌, ◌^◌, min, State, assert, pure, ◌>>◌, leb, ltb, if◌then◌else◌,
}
use r_core_tutorial_code.EasyFs.Block.{block_sz, u32, Disk}
use r_core_tutorial_code.EasyFs.Layout.Inode.{
  DiskInode, inode_direct_count, inode_indirect1_count, inode_indirect2_count, indirect1_bound,
  indirect2_bound,
}

-- `DiskInode::_data_blocks`, in `u32`: the sum wraps.
unfoldable pub data_blocks_of : ℕ → ℕ
data_blocks_of size = u32 (size + block_sz - 1) / block_sz

unfoldable pub data_blocks : DiskInode → ℕ
unfolding data_blocks_of
data_blocks n = data_blocks_of n.size

-- The three additions of `total_blocks`.
unfoldable pub extra1 : ℕ → ℕ
extra1 data_blocks = if ltb inode_direct_count data_blocks then 1 else 0

unfoldable pub extra2 : ℕ → ℕ
extra2 data_blocks =
    if ltb indirect1_bound data_blocks
    then 1
      + min ((data_blocks - indirect1_bound + inode_indirect1_count - 1) / inode_indirect1_count)
          inode_indirect1_count
    else 0

unfoldable pub extra3 : ℕ → ℕ
extra3 data_blocks =
    if ltb indirect2_bound data_blocks
    then (let remaining = data_blocks - indirect2_bound in
        1
        + (remaining + inode_indirect2_count - 1) / inode_indirect2_count
        + (remaining + inode_indirect1_count - 1) / inode_indirect1_count)
    else 0

-- `DiskInode::total_blocks`
unfoldable pub total_blocks : ℕ → ℕ
unfolding data_blocks_of extra1 extra2 extra3
total_blocks size = let n = data_blocks_of size in u32 (n + extra1 n + extra2 n + extra3 n)

-- `DiskInode::blocks_num_needed`, in `u32` behind the assertion.
unfoldable pub blocks_num_needed : DiskInode → ℕ → State Disk ℕ
unfolding total_blocks
blocks_num_needed n new_size = do
  assert (leb n.size new_size)
  pure (u32 (total_blocks new_size + 2 ^ 32 - total_blocks n.size))
