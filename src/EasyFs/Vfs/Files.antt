-- ===== src/EasyFs/Vfs/Files.antt =====
-- Growing and clearing files: `increase_size` and `clear` of `Inode`.
use r_core_tutorial_code.Base.{
  ℕ, zero, suc, ◌+◌, ◌^◌, ◌<◌, ◌≤◌, ◌≡◌, refl, ap, ◌∙◌, sym, arith, inl, inr, ◌⊎◌, List, [], ◌∷◌,
  length, Result, ok, panic, update, update_at, eq→==, le→ltb, le→leb,
}
use r_core_tutorial_code.EasyFs.Block.{Disk}
use r_core_tutorial_code.EasyFs.Bitmap.{maximum, bit_at}
use r_core_tutorial_code.EasyFs.Bitmap.Alloc.{IsDisk}
use r_core_tutorial_code.EasyFs.Layout.Inode as OnDisk
use r_core_tutorial_code.EasyFs.Layout.Inode.{DiskInode}
use r_core_tutorial_code.EasyFs.Layout.Inode.Bytes.{decode-encode_size}
use r_core_tutorial_code.EasyFs.Layout.Size.{
  data_blocks, data_blocks_of, blocks_num_needed, total_blocks,
}
use r_core_tutorial_code.EasyFs.Layout.Grow.Needed.{increase_size_exact, blocks_num_needed-need}
use r_core_tutorial_code.EasyFs.Layout.Grow.Exact.{need}
use r_core_tutorial_code.Base.Count.{count}
use r_core_tutorial_code.EasyFs.Layout.Index.{get_block_id}
use r_core_tutorial_code.EasyFs.Layout.Shrink.{clear_size}
use r_core_tutorial_code.EasyFs.Layout.Shrink.Indices.{ListsIndices, clear_size_indices}
use r_core_tutorial_code.EasyFs.Layout.Shrink.Complete.{clear_size_has}
use r_core_tutorial_code.EasyFs.Layout.Shrink.Clear.{clear_size_count}
use r_core_tutorial_code.EasyFs.Efs.{EasyFileSystem, alloc_data}
use r_core_tutorial_code.EasyFs.Efs.Exhaustion.{IsSmall, Allocated, alloc_data_lem}
use r_core_tutorial_code.EasyFs.Vfs.{
  Inode, increase_size, alloc_blocks, clear, dealloc_blocks, modify_disk_inode,
}

-- All bits of the data bitmap are set.
abbrev pub IsFull : EasyFileSystem → Disk → Type 0
IsFull fs d = (q : ℕ) → q < maximum fs.data_bitmap → bit_at fs.data_bitmap d q ≡ 1

-- `count` blocks are allocated, or the bitmap is full once fewer have been.
abbrev pub Blocks : EasyFileSystem → ℕ → Disk → Result (List ℕ × Disk) → Type 0
Blocks fs count d res =
    ((v : List ℕ) × (e : Disk) × (res ≡ ok (v, e)) × (length v ≡ count) × IsDisk e)
    ⊎ ((res ≡ panic)
        × ((j : ℕ) × (v : List ℕ) × (e : Disk) × (j < count)
            × (alloc_blocks fs j d ≡ ok (v, e))
            × IsFull fs e))

alloc_blocks_lem :
    (fs : EasyFileSystem) (count : ℕ) (d : Disk)
    → IsSmall fs
    → IsDisk d
    → Blocks fs count d (alloc_blocks fs count d)
unfolding alloc_blocks
alloc_blocks_lem fs zero d small disk = inl ([], d, refl, refl, disk)
alloc_blocks_lem fs (suc count) d small disk =
    go (λ e disk'. alloc_blocks_lem fs count e small disk') (alloc_data_lem fs d small disk)
  where
    go :
        ((e : Disk) → IsDisk e → Blocks fs count e (alloc_blocks fs count e))
        → Allocated fs d (alloc_data fs d) ⊎ ((alloc_data fs d ≡ panic) × IsFull fs d)
        → Blocks fs (suc count) d (alloc_blocks fs (suc count) d)
    go rest (inr (res, full)) =
        inr (rw (alloc_blocks, res) refl, (0, [], d, omega arith, refl, full))
    go rest (inl (p, e, res, hi, clear_, set, disk', same, before)) = elim (rest e disk') [
      | inl (v, f, res', len, disk'') ↦ inl (
        (fs.data_area_start_block + p) ∷ v,
        f,
        rw (alloc_blocks, res, res') refl,
        omega arith,
        disk'',
      )
      | inr (res', (j, v, f, lt, some_blocks, full)) ↦ inr (
        rw (alloc_blocks, res, res') refl,
        (
          suc j,
          (fs.data_area_start_block + p) ∷ v,
          f,
          omega arith,
          rw (alloc_blocks, res, some_blocks) refl,
          full,
        ),
      )
    ]

-- On a disk of bytes, where no block number wraps around: to grow a file to a size that is not
-- smaller, below `2 ^ 32 - 511`, and of at most 155 + 128^2 + 128^3 data blocks, either succeeds
-- and sets the size, or panics, and then the data bitmap was full after fewer allocations than the
-- blocks that are needed.
pub increase_size_lem :
    (fs : EasyFileSystem) (n : DiskInode) (new_size : ℕ) (d : Disk)
    → IsSmall fs
    → IsDisk d
    → n.size ≤ new_size
    → new_size + 511 < 2 ^ 32
    → data_blocks_of new_size ≤ 155 + 16384 + 2097152
    → ((m : DiskInode) × (e : Disk) × (increase_size fs new_size n d ≡ ok (m, e))
        × (m.size ≡ new_size))
      ⊎ ((increase_size fs new_size n d ≡ panic)
          × ((j : ℕ) × (v : List ℕ) × (e : Disk) × (j
                < need (data_blocks n) (data_blocks_of new_size))
              × (alloc_blocks fs j d ≡ ok (v, e))
              × IsFull fs e))
unfolding increase_size
increase_size_lem fs n new_size d small disk le no_wrap top =
    let asked = blocks_num_needed-need n new_size d le no_wrap in
    let grows = le→ltb new_size n.size le in
    elim (alloc_blocks_lem fs (need (data_blocks n) (data_blocks_of new_size)) d small disk) [
      | inl (v, e, res, len, disk') ↦
          let asked' : blocks_num_needed n new_size e ≡ ok (length v, e) =
            blocks_num_needed-need n new_size e le no_wrap ∙ ap (λ k. ok (k, e)) (sym len) in
          let (m, f, grown, size) = increase_size_exact n new_size e v le no_wrap top asked' in
          inl (m, f, rw (increase_size, grows, asked, res, grown) refl, size)
      | inr (res, full) ↦ inr (rw (increase_size, grows, asked, res) refl, full)
    ]

-- For an inode inside of its block, of a `u32` size and at most 155 + 128^3 data blocks: `clear`
-- gives back the blocks that `clear_size` returns. These are as many as `total_blocks` says; each
-- data block that `get_block_id` finds is one of them, and so is each of the three index blocks that
-- the inode names, where the file is large enough to have it. When giving them back panics, so does
-- `clear`. When it leads to a disk, `clear` succeeds, its disk is that one with the cleared inode
-- written in its place, and the stored size is zero.
pub clear_lem :
    (fs : EasyFileSystem) (self : Inode) (d : Disk)
    → self.block_offset + 128 ≤ 512
    → (OnDisk.decode (d self.block_id) self.block_offset).size < 2 ^ 32
    → data_blocks (OnDisk.decode (d self.block_id) self.block_offset) ≤ 155 + 2097152
    → let n = OnDisk.decode (d self.block_id) self.block_offset in
      (m : DiskInode) × (v : List ℕ) × (clear_size n d ≡ ok ((m, v), d))
      × (length v ≡ total_blocks n.size)
      × ((k : ℕ)
          → k < data_blocks n
          → (id : ℕ) × (get_block_id n k d ≡ ok (id, d)) × (0 < count id v))
      × ListsIndices n (data_blocks n) v
      × (dealloc_blocks fs v d ≡ panic → clear fs self d ≡ panic)
      × ((e : Disk)
          → dealloc_blocks fs v d ≡ ok (tt, e)
          → let f = update e self.block_id (OnDisk.encode (e self.block_id) self.block_offset m) in
            (clear fs self d ≡ ok (tt, f))
            × ((OnDisk.decode (f self.block_id) self.block_offset).size ≡ 0))
unfolding clear modify_disk_inode
clear_lem fs self d inside small le =
    let n = OnDisk.decode (d self.block_id) self.block_offset in
    let (m, v, res, len, cleared) = clear_size_count n d small le in
    let inside' = le→leb (self.block_offset + 128) 512 inside in
    let len' = eq→== (length v) (total_blocks n.size) len in
    (
      m,
      v,
      res,
      len,
      λ k lt. clear_size_has d n m v d k res le lt,
      clear_size_indices d n m v d res le,
      λ lost. rw (clear, inside', res, len', lost) refl,
      λ e done.
          let b = OnDisk.encode (e self.block_id) self.block_offset m in
          (
            rw (clear, inside', res, len', done) refl,
            ap (λ c. (OnDisk.decode c self.block_offset).size)
                  (update_at e self.block_id b self.block_id refl)
                ∙ decode-encode_size (e self.block_id) self.block_offset m (omega arith)
                ∙ cleared,
          ),
    )
