-- ===== src/EasyFs/Layout/Index.antt =====
-- The index of a disk inode: `get_block_id` and the entries of index blocks.
use r_core_tutorial_code.Base.{
  ℕ, ◌*◌, ◌-◌, ◌/◌, ◌%◌, State, assert, gets, modify, pure, ◌>>=◌, ◌>>◌, ltb, if◌then◌else◌, update,
}
use r_core_tutorial_code.EasyFs.Block.{Disk, get_u32, put_u32}
use r_core_tutorial_code.EasyFs.Layout.Inode.{
  DiskInode, inode_direct_count, inode_indirect1_count, inode_indirect2_count, indirect1_bound,
  indirect2_bound,
}

-- `indirect_block[i]`, which panics out of range.
unfoldable pub entry : ℕ → ℕ → State Disk ℕ
entry block_id i = do assert (ltb i inode_indirect1_count); gets (λ d. get_u32 (d block_id) (4 * i))

-- `indirect_block[i] = v`
unfoldable pub set_entry : ℕ → ℕ → ℕ → State Disk (Unit {0})
set_entry block_id i v = do
  assert (ltb i inode_indirect1_count)
  modify (λ d. update d block_id (put_u32 (d block_id) (4 * i) v))

-- `DiskInode::get_block_id`
unfoldable pub get_block_id : DiskInode → ℕ → State Disk ℕ
unfolding entry
get_block_id n inner_id =
    if ltb inner_id inode_direct_count
    then pure (n.direct inner_id)
    else if ltb inner_id indirect1_bound
    then entry n.indirect1 (inner_id - inode_direct_count)
    else if ltb inner_id indirect2_bound
    then (do
      let last = inner_id - indirect1_bound
      indirect1 ← entry n.indirect2 (last / inode_indirect1_count)
      entry indirect1 (last % inode_indirect1_count))
    else (do
      let last = inner_id - indirect2_bound
      indirect1 ← entry n.indirect3 (last / inode_indirect2_count)
      indirect2 ← entry indirect1 (last % inode_indirect2_count / inode_indirect1_count)
      entry indirect2 (last % inode_indirect2_count % inode_indirect1_count))

-- `DiskInode::decompose2`
unfoldable pub decompose2 : ℕ → ℕ × ℕ
decompose2 id = (id / inode_indirect1_count, id % inode_indirect1_count)
