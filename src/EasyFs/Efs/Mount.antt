-- ===== src/EasyFs/Efs/Mount.antt =====
-- A file system that was made can be opened.
use r_core_tutorial_code.Base.{
  ℕ, zero, suc, ◌+◌, ◌-◌, ◌*◌, ◌/◌, ◌%◌, ◌<◌, ◌≤◌, ◌≡◌, arith, refl, ◌∙◌, ap, some, ok, ◌⊎◌, inl,
  inr, update, update_at, update_ne, true,
}
use r_core_tutorial_code.EasyFs.Block.{Block, Disk, u32}
use r_core_tutorial_code.EasyFs.Bitmap.{Bitmap, maximum, alloc, bit_at, block_bit}
use r_core_tutorial_code.EasyFs.Bitmap.Alloc.{IsDisk, Found, Full, alloc_lem}
use r_core_tutorial_code.EasyFs.Layout.SuperBlock
use r_core_tutorial_code.EasyFs.Layout.SuperBlock.{SuperBlock, efs_magic, is_valid}
use r_core_tutorial_code.EasyFs.Layout.Inode
use r_core_tutorial_code.EasyFs.Layout.Inode.{DiskInode, DiskInodeType, directory, is_dir}
use r_core_tutorial_code.EasyFs.Layout.Inode.Bytes.{decode-encode_inode, initialize-IsU32}
use r_core_tutorial_code.EasyFs.Efs.{
  sizes, create, open_fs, alloc_inode, get_disk_inode_pos, clear_blocks,
}
use r_core_tutorial_code.EasyFs.Efs.Exhaustion.{bit_at-update}
use r_core_tutorial_code.EasyFs.Efs.Areas.{
  Fits, sizes_inode_area, formatted, formatted_starts, areas_lem,
}
use r_core_tutorial_code.EasyFs.Efs.Blank.{
  bit_at-with_super_block, super_block, with_super_block, with_super_block-IsDisk,
}

super_block-IsU32 : (total ibb : ℕ) → Fits total ibb → SuperBlock.IsU32 (super_block total ibb)
unfolding super_block SuperBlock.initialize sizes
super_block-IsU32 total ibb fits =
    let h = fits.small in
    let h' = fits.room in
    record {
      magic = omega arith;
      total_blocks = omega arith;
      inode_bitmap_blocks = omega arith;
      inode_area_blocks = omega arith;
      data_bitmap_blocks = omega arith;
      data_area_blocks = omega arith;
    }

-- `open` builds the same file system from that super block.
open_run :
    (total ibb : ℕ) (b : Block) (e : Disk)
    → Fits total ibb
    → e 0 ≡ SuperBlock.encode b (super_block total ibb)
    → open_fs e ≡ ok (formatted total ibb, e)
unfolding open_fs formatted is_valid super_block SuperBlock.initialize
open_run total ibb b e fits h =
    let back =
      SuperBlock.decode-encode b (super_block total ibb) (super_block-IsU32 total ibb fits) in
    let sb : SuperBlock.decode (e 0) ≡ super_block total ibb = rw h back in rw (open_fs, sb) refl

-- The root inode written to a disk.
with_root : (total ibb : ℕ) → Disk → Disk
with_root total ibb e =
    update e (1 + ibb) (Inode.encode (e (1 + ibb)) 0 (Inode.initialize directory))

create_run :
    (total ibb : ℕ) (d e : Disk)
    → Fits total ibb
    → alloc (formatted total ibb).inode_bitmap (with_super_block total ibb d) ≡ ok (some 0, e)
    → create total ibb d ≡ ok (formatted total ibb, with_root total ibb e)
unfolding create formatted with_super_block super_block alloc_inode get_disk_inode_pos with_root
create_run total ibb d e fits res =
    let h = fits.small in
    let h' = fits.room in
    let q : u32 (u32 (1 + ibb) + 0) ≡ 1 + ibb = omega arith in rw (create, res, q) refl

-- The root inode, read from its place.
root_lem :
    (total ibb : ℕ) (e : Disk)
    → Fits total ibb
    → ((Inode.decode (with_root total ibb e (1 + ibb)) 0).size ≡ 0)
      × (is_dir (Inode.decode (with_root total ibb e (1 + ibb)) 0) ≡ true)
unfolding with_root is_dir Inode.initialize
root_lem total ibb e fits =
    let b = e (1 + ibb) in
    let n = Inode.initialize directory in
    let at = update_at e (1 + ibb) (Inode.encode b 0 n) (1 + ibb) refl in
    let (size, _, _, _, _, type_) = decode-encode_inode b 0 n (initialize-IsU32 directory) in
    rw at (size, rw type_ refl)

bit_at_same :
    (m : Bitmap) (d e : Disk) (q : ℕ)
    → e (q / 4096 + m.start_block_id) ≡ d (q / 4096 + m.start_block_id)
    → bit_at m e q ≡ bit_at m d q
unfolding bit_at
bit_at_same m d e q h = ap (λ b. block_bit b (q % 4096)) h

-- The allocation of the root inode found bit 0; what the disk holds in the end.
module _ (total ibb : ℕ) (d e : Disk) (fits : Fits total ibb) (pos : 0 < ibb)
    (frame : (a : ℕ)
      → (a < (formatted total ibb).inode_bitmap.start_block_id)
        ⊎ (maximum (formatted total ibb).inode_bitmap
            ≤ (a - (formatted total ibb).inode_bitmap.start_block_id) * 4096)
      → e a ≡ with_super_block total ibb d a) where
  super_block_kept :
      with_root total ibb e 0 ≡ SuperBlock.encode (clear_blocks total d 0) (super_block total ibb)
  unfolding with_root with_super_block
  super_block_kept =
      let s = SuperBlock.encode (clear_blocks total d 0) (super_block total ibb) in
      let a = areas_lem total ibb fits in
      update_ne e (1 + ibb) _ 0 (omega arith)
      ∙ frame 0 (inl (omega (arith, a.0)))
      ∙ update_at (clear_blocks total d) 0 s 0 refl

  data_bits :
      (q : ℕ)
      → q < maximum (formatted total ibb).data_bitmap
      → bit_at (formatted total ibb).data_bitmap (with_root total ibb e) q ≡ 0
  unfolding with_root maximum
  data_bits q lt =
      let m = (formatted total ibb).data_bitmap in
      let (a, b, c, f, g, i, j) = areas_lem total ibb fits in
      let (u, v, w) = formatted_starts total ibb fits in
      let h = fits.small in
      let h' = fits.room in
      bit_at-update m e (1 + ibb) _ q (inl (omega arith)) lt
      ∙ bit_at_same m (with_super_block total ibb d) e q
          (frame (q / 4096 + m.start_block_id) (inr (omega arith)))
      ∙ bit_at-with_super_block m total ibb d q (omega arith) (omega arith) lt

  inode_bits :
      (q : ℕ)
      → q < maximum (formatted total ibb).inode_bitmap
      → bit_at (formatted total ibb).inode_bitmap (with_root total ibb e) q
        ≡ bit_at (formatted total ibb).inode_bitmap e q
  unfolding with_root
  inode_bits q lt =
      let (a, b, c, f, g, i, j) = areas_lem total ibb fits in
      let (u, v, w) = formatted_starts total ibb fits in
      bit_at-update (formatted total ibb).inode_bitmap e (1 + ibb) _ q (inr (omega arith)) lt

-- What `create` promises of its result.
abbrev pub Created : (total ibb : ℕ) → Disk → Type 0
Created total ibb e =
    (open_fs e ≡ ok (formatted total ibb, e))
    × ((Inode.decode (e (1 + ibb)) 0).size ≡ 0)
    × (is_dir (Inode.decode (e (1 + ibb)) 0) ≡ true)
    × (bit_at (formatted total ibb).inode_bitmap e 0 ≡ 1)
    × ((q : ℕ)
        → 0 < q
        → q < maximum (formatted total ibb).inode_bitmap
        → bit_at (formatted total ibb).inode_bitmap e q ≡ 0)
    × ((q : ℕ)
        → q < maximum (formatted total ibb).data_bitmap
        → bit_at (formatted total ibb).data_bitmap e q ≡ 0)

-- On a disk of bytes, where there are fewer than `2 ^ 32 - 4096` blocks, the inode bitmap has a
-- block, and it and its inodes leave room for data: `create` succeeds. `open` of the disk that it
-- leaves gives the same file system. Its inode 0, in the first block of the inode area, is an
-- empty directory; the inode bitmap has this bit only, and the data bitmap none.
pub create_lem :
    (total ibb : ℕ) (d : Disk)
    → Fits total ibb
    → 0 < ibb
    → IsDisk d
    → (e : Disk) × (create total ibb d ≡ ok (formatted total ibb, e)) × Created total ibb e
create_lem total ibb d fits pos disk =
    go (alloc_lem m (with_super_block total ibb d) (with_super_block-IsDisk total ibb d disk))
  where
    m : Bitmap
    m = (formatted total ibb).inode_bitmap

    blank : (q : ℕ) → q < maximum m → bit_at m (with_super_block total ibb d) q ≡ 0
    blank q lt =
        let (a, b, c, f, g, i, j) = areas_lem total ibb fits in
        let (u, v, w) = formatted_starts total ibb fits in
        let h' = fits.room in bit_at-with_super_block m total ibb d q (omega arith) (omega arith) lt

    some_bit : 0 < maximum m
    some_bit =
        let (a, b, c, f, g, i, j) = areas_lem total ibb fits in
        let n = sizes_inode_area total ibb fits in omega arith

    go :
        Found 0
            (maximum m)
            m
            (with_super_block total ibb d)
            (alloc m (with_super_block total ibb d))
          ⊎ Full 0
              (maximum m)
              m
              (with_super_block total ibb d)
              (alloc m (with_super_block total ibb d))
        → (e : Disk) × (create total ibb d ≡ ok (formatted total ibb, e)) × Created total ibb e
    go (inr (res, full)) = absurd (omega (arith, full 0 (omega arith) some_bit, blank 0 some_bit))
    go (inl (suc p, e, res, lo, hi, clear, set, disk', same, before, frame)) =
        absurd (omega (arith, before 0 (omega arith) (omega arith), blank 0 some_bit))
    go (inl (zero, e, res, lo, hi, clear, set, disk', same, before, frame)) = (
      with_root total ibb e,
      create_run total ibb d e fits res,
      (
        open_run total ibb (clear_blocks total d 0) (with_root total ibb e) fits
            (super_block_kept total ibb d e fits pos frame),
        (root_lem total ibb e fits).0,
        (root_lem total ibb e fits).1,
        inode_bits total ibb d e fits pos frame 0 some_bit ∙ set,
        λ q q_pos lt.
            inode_bits total ibb d e fits pos frame q lt ∙ same q (omega arith) ∙ blank q lt,
        data_bits total ibb d e fits pos frame,
      ),
    )
