-- ===== src/EasyFs/Layout/Grow.antt =====
-- `increase_size` and `build_tree`: the index grows by the blocks that the caller has allocated.
pub mod Rounds
pub mod Indirect2
pub mod Tree
pub mod Exact
pub mod Needed
use r_core_tutorial_code.Base.{
  Bool, ℕ, zero, suc, ◌+◌, ◌*◌, ◌-◌, ◌/◌, ◌%◌, ◌^◌, min, List, [], ◌∷◌, State, Result, ok, panic,
  out_of_fuel, pure, ◌>>=◌, ◌>>◌, and_then, leb, ltb, ◌==◌, ◌&&◌, ◌||◌, if◌then◌else◌, update,
}
use r_core_tutorial_code.EasyFs.Block.{Disk}
use r_core_tutorial_code.EasyFs.Layout.Inode.{
  DiskInode, inode_direct_count, inode_indirect1_count, inode_indirect2_count,
}
use r_core_tutorial_code.EasyFs.Layout.Index.{entry, set_entry, decompose2}
use r_core_tutorial_code.EasyFs.Layout.Size.{data_blocks, data_blocks_of}

-- The disk, and the iterator over the new blocks.
pub record Feed : Type 0 where
  pub disk : Disk
  pub blocks : List ℕ

abbrev pub feed : Disk → List ℕ → Feed
feed d v = record { disk = d; blocks = v }

-- `new_blocks.next().unwrap()`
unfoldable pub next_block : List ℕ → Disk → Result (ℕ × Feed)
next_block [] d = panic
next_block (b ∷ v) d = ok (b, feed d v)

unfoldable pub next : State Feed ℕ
next s = next_block s.blocks s.disk

-- An operation on the disk alone.
abbrev pub on_feed : {A : Type 0} → List ℕ → Result (A × Disk) → Result (A × Feed)
on_feed v (ok (a, d)) = ok (a, feed d v)
on_feed v panic = panic
on_feed v out_of_fuel = out_of_fuel

abbrev pub on_disk : {A : Type 0} → State Disk A → State Feed A
on_disk m s = on_feed s.blocks (m s.disk)

-- `if test { x = new_blocks.next().unwrap(); }`, for a field or for an entry that the rest reads.
unfoldable pub next_if : {A : Type 0} → Bool → (ℕ → A) → A → State Feed A
next_if test assign old = if test then (do b ← next; pure (assign b)) else pure old

-- `while current_blocks < total_blocks.min(INODE_DIRECT_COUNT)`, with the rounds that are left.
unfoldable pub fill_direct : ℕ → ℕ → DiskInode → State Feed DiskInode
fill_direct zero current n = pure n
fill_direct (suc k) current n = do
  b ← next
  fill_direct k (current + 1) (record n { direct = update n.direct current b })

-- The same loop over an index block.
unfoldable pub fill_block : ℕ → ℕ → ℕ → State Feed (Unit {0})
fill_block block_id zero current = pure tt
fill_block block_id (suc k) current = do
  b ← next
  on_disk (set_entry block_id current b)
  fill_block block_id k (current + 1)

-- `if test { indirect_block[i] = new_blocks.next().unwrap(); }`
unfoldable pub set_next_if : Bool → ℕ → ℕ → State Feed (Unit {0})
set_next_if test block_id i =
    if test then (do b ← next; on_disk (set_entry block_id i b)) else pure tt

-- From `(a0, b0)` to `(a1, b1)` under `indirect2`; the result is `current_blocks`.
unfoldable pub fill_indirect2 : ℕ → (block_id a0 b0 a1 b1 current : ℕ) → State Feed ℕ
fill_indirect2 zero block_id a0 b0 a1 b1 current = λ _. out_of_fuel
fill_indirect2 (suc fuel) block_id a0 b0 a1 b1 current =
    if ltb a0 a1 || (a0 == a1 && ltb b0 b1)
    then (do
      set_next_if (b0 == 0) block_id a0
      indirect1 ← on_disk (entry block_id a0)
      b ← next
      on_disk (set_entry indirect1 b0 b)
      let full = b0 + 1 == inode_indirect1_count
      fill_indirect2 fuel block_id (if full then a0 + 1 else a0) (if full then 0 else b0 + 1) a1 b1
          (current + 1))
    else pure current

-- The loop of `build_tree` over the `k` entries from `i` on; the result is `cur_leaf`.
unfoldable pub build_loop :
    (ℕ → ℕ → State Feed ℕ) → ℕ → ℕ → (i cur_leaf src_leaf dst_leaf : ℕ) → State Feed ℕ
build_loop child block_id zero i cur_leaf src_leaf dst_leaf = pure cur_leaf
build_loop child block_id (suc k) i cur_leaf src_leaf dst_leaf =
    if ltb cur_leaf dst_leaf
    then (do
      set_next_if (leb src_leaf cur_leaf) block_id i
      id ← on_disk (entry block_id i)
      leaf ← child id cur_leaf
      build_loop child block_id k (i + 1) leaf src_leaf dst_leaf)
    else pure cur_leaf

-- `build_tree`, by the depth that is left: `dst_depth - cur_depth`.
unfoldable pub build_tree : ℕ → (block_id cur_leaf src_leaf dst_leaf : ℕ) → State Feed ℕ
build_tree zero block_id cur_leaf src_leaf dst_leaf = pure (cur_leaf + 1)
build_tree (suc depth) block_id cur_leaf src_leaf dst_leaf =
    build_loop (λ id leaf. build_tree depth id leaf src_leaf dst_leaf) block_id
      inode_indirect1_count 0 cur_leaf src_leaf dst_leaf

-- The parts of `increase_size` behind its early returns. No subtraction wraps: the loop before it
-- has brought `current_blocks` up to the count.
unfoldable pub grow_indirect3 : DiskInode → (current total : ℕ) → State Feed DiskInode
grow_indirect3 n current total = do
  n' ← next_if (current == inode_indirect2_count) (λ b. record n { indirect3 = b }) n
  build_tree 3 n'.indirect3 0 (current - inode_indirect2_count) (total - inode_indirect2_count)
  pure n'

unfoldable pub grow_indirect2 : DiskInode → (current total : ℕ) → State Feed DiskInode
grow_indirect2 n current total = do
  n' ← next_if (current == inode_indirect1_count) (λ b. record n { indirect2 = b }) n
  let c = current - inode_indirect1_count
  let t = total - inode_indirect1_count
  let (a0, b0) = decompose2 c
  let (a1, b1) = decompose2 (min t inode_indirect2_count)
  c' ← fill_indirect2 (min t inode_indirect2_count - c + 1) n'.indirect2 a0 b0 a1 b1 c
  if ltb inode_indirect2_count t then grow_indirect3 n' c' t else pure n'

unfoldable pub grow_indirect1 : DiskInode → (current total : ℕ) → State Feed DiskInode
grow_indirect1 n current total = do
  n' ← next_if (current == inode_direct_count) (λ b. record n { indirect1 = b }) n
  let c = current - inode_direct_count
  let t = total - inode_direct_count
  let rounds = min t inode_indirect1_count - c
  fill_block n'.indirect1 rounds c
  if ltb inode_indirect1_count t then grow_indirect2 n' (c + rounds) t else pure n'

-- `DiskInode::increase_size`
unfoldable pub increase_size : DiskInode → (new_size : ℕ) → State Feed DiskInode
increase_size n new_size = do
  let current = data_blocks n
  let total = data_blocks_of new_size
  let rounds = min total inode_direct_count - current
  n' ← fill_direct rounds current (record n { size = new_size })
  if ltb inode_direct_count total then grow_indirect1 n' (current + rounds) total else pure n'
