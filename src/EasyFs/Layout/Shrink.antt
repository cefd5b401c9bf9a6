-- ===== src/EasyFs/Layout/Shrink.antt =====
-- `clear_size` and `collect_tree_blocks`: the blocks of a file, index blocks included, in the order
-- in which they are given back. Neither changes a block: the writes to the index are commented out.
pub mod Count
pub mod Contents
pub mod Places
pub mod Complete
pub mod Indices
pub mod Clear
use r_core_tutorial_code.Base.{
  ℕ, zero, suc, ◌+◌, ◌*◌, ◌-◌, ◌/◌, ◌%◌, ◌^◌, min, List, [], ◌∷◌, ◌++◌, State, Result, ok, panic,
  pure, ◌>>=◌, ◌>>◌, assert, gets, leb, ltb, ◌==◌, if◌then◌else◌, update,
}
use r_core_tutorial_code.EasyFs.Block.{Disk, get_u32, get_word}
use r_core_tutorial_code.EasyFs.Layout.Inode.{
  DiskInode, inode_direct_count, inode_indirect1_count, inode_indirect2_count,
  inode_indirect3_count,
}
use r_core_tutorial_code.EasyFs.Layout.Index.{decompose2}
use r_core_tutorial_code.EasyFs.Layout.Size.{data_blocks}

-- `v.push(x)`
abbrev pub push : List ℕ → ℕ → List ℕ
push v x = v ++ x ∷ []

-- The loop over the direct entries: each is pushed and cleared.
unfoldable pub take_direct : ℕ → ℕ → DiskInode → List ℕ → DiskInode × List ℕ
take_direct zero i n v = (n, v)
take_direct (suc k) i n v =
    take_direct k (i + 1) (record n { direct = update n.direct i 0 }) (push v (n.direct i))

-- An entry of an index block; the loops below read none out of range.
unfoldable pub entry_at : Disk → ℕ → ℕ → ℕ
entry_at d block_id i = get_u32 (d block_id) (4 * i)

-- The first entries of an index block: `k` of them, from `i` on.
unfoldable pub take_entries : Disk → ℕ → ℕ → ℕ → List ℕ → List ℕ
take_entries d block_id zero i v = v
take_entries d block_id (suc k) i v =
    take_entries d block_id k (i + 1) (push v (entry_at d block_id i))

-- The full index blocks under `indirect2`, each behind its own id.
unfoldable pub take_full : Disk → ℕ → ℕ → ℕ → List ℕ → List ℕ
take_full d block_id zero i v = v
take_full d block_id (suc k) i v =
    let e = entry_at d block_id i in
    take_full d block_id k (i + 1) (take_entries d e inode_indirect1_count 0 (push v e))

-- The index block under `indirect2` that is not full.
unfoldable pub take_last : Disk → ℕ → (a1 b1 : ℕ) → List ℕ → List ℕ
take_last d block_id a1 b1 v =
    if ltb 0 b1 then (let e = entry_at d block_id a1 in take_entries d e b1 0 (push v e)) else v

-- The loop of `collect_tree_blocks` over the `k` entries from `i` on: `cur_leaf` and the blocks.
unfoldable pub collect_loop :
    Disk → (ℕ → ℕ → List ℕ → ℕ × List ℕ) → ℕ → ℕ → (i cur_leaf max_leaf : ℕ) → List ℕ → ℕ × List ℕ
collect_loop d child block_id zero i cur_leaf max_leaf v = (cur_leaf, v)
collect_loop d child block_id (suc k) i cur_leaf max_leaf v =
    let e = entry_at d block_id i in
    let r = child e cur_leaf (push v e) in
    let rest = collect_loop d child block_id k (i + 1) r.0 max_leaf r.1 in
    if ltb cur_leaf max_leaf then rest else (cur_leaf, v)

-- `collect_tree_blocks`, by the depth that is left.
unfoldable pub collect_tree_blocks :
    ℕ → Disk → (block_id cur_leaf max_leaf : ℕ) → List ℕ → ℕ × List ℕ
collect_tree_blocks zero d block_id cur_leaf max_leaf v = (cur_leaf + 1, v)
collect_tree_blocks (suc depth) d block_id cur_leaf max_leaf v =
    collect_loop d (λ e leaf w. collect_tree_blocks depth d e leaf max_leaf w) block_id
      inode_indirect1_count 0 cur_leaf max_leaf v

-- The parts of `clear_size` behind its early returns.
unfoldable pub clear_indirect3 : DiskInode → ℕ → List ℕ → State Disk (DiskInode × List ℕ)
clear_indirect3 n data_blocks v = do
  v' ← gets (λ d.
      (collect_tree_blocks 3 d n.indirect3 0 (data_blocks - inode_indirect2_count)
        (push v n.indirect3)).1)
  pure (record n { indirect3 = 0 }, v')

unfoldable pub clear_indirect2 : DiskInode → ℕ → List ℕ → State Disk (DiskInode × List ℕ)
clear_indirect2 n total v = do
  let data_blocks = total - inode_indirect1_count
  let (a1, b1) = decompose2 (min data_blocks inode_indirect2_count)
  v' ← gets (λ d. take_last d n.indirect2 a1 b1 (take_full d n.indirect2 a1 0 (push v n.indirect2)))
  let n' = record n { indirect2 = 0 }
  assert (leb data_blocks inode_indirect3_count)
  if ltb inode_indirect2_count data_blocks then clear_indirect3 n' data_blocks v' else pure (n', v')

unfoldable pub clear_indirect1 : DiskInode → ℕ → List ℕ → State Disk (DiskInode × List ℕ)
clear_indirect1 n total v = do
  let data_blocks = total - inode_direct_count
  v' ← gets (λ d.
      take_entries d n.indirect1 (min data_blocks inode_indirect1_count) 0 (push v n.indirect1))
  let n' = record n { indirect1 = 0 }
  if ltb inode_indirect1_count data_blocks then clear_indirect2 n' data_blocks v' else pure (n', v')

-- `DiskInode::clear_size`
unfoldable pub clear_size : DiskInode → State Disk (DiskInode × List ℕ)
clear_size n =
    let total = data_blocks n in
    let (n', v) = take_direct (min total inode_direct_count) 0 (record n { size = 0 }) [] in
    if ltb inode_direct_count total then clear_indirect1 n' total v else pure (n', v)
