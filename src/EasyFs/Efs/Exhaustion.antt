-- ===== src/EasyFs/Efs/Exhaustion.antt =====
-- Allocation and deallocation of data blocks, to the end of the data area and beyond.
use r_core_tutorial_code.Base.{
  ℕ, ◌+◌, ◌-◌, ◌/◌, ◌%◌, ◌^◌, ◌<◌, ◌≤◌, ◌≡◌, ◌≢◌, arith, refl, ◌∙◌, sym, ap, Result, ok, panic, ◌⊎◌,
  inl, inr, update, update_at, update_ne, Bool-cases, ◌==◌, ==→eq, ==→ne, ltb, ltb→lt, ltb→le,
}
use r_core_tutorial_code.EasyFs.Block.{Block, Disk}
use r_core_tutorial_code.EasyFs.Bitmap.{Bitmap, maximum, alloc, bit_at, block_bit}
use r_core_tutorial_code.EasyFs.Bitmap.Alloc.{IsDisk, Found, Full, alloc_lem}
use r_core_tutorial_code.EasyFs.Bitmap.Dealloc.{dealloc_lem}
use r_core_tutorial_code.EasyFs.Efs.{EasyFileSystem, sizes, alloc_data, dealloc_data}
use r_core_tutorial_code.EasyFs.Efs.Areas.{Fits, formatted, areas_lem}

-- No number of the data area wraps around.
abbrev pub IsSmall : EasyFileSystem → Type 0
IsSmall fs = fs.data_area_start_block + maximum fs.data_bitmap < 2 ^ 32

-- What `alloc_data` promises.
abbrev pub Allocated : EasyFileSystem → Disk → Result (ℕ × Disk) → Type 0
Allocated fs d res =
    (p : ℕ) × (e : Disk) × (res ≡ ok (fs.data_area_start_block + p, e))
    × (p < maximum fs.data_bitmap)
    × (bit_at fs.data_bitmap d p ≡ 0)
    × (bit_at fs.data_bitmap e p ≡ 1)
    × IsDisk e
    × ((q : ℕ) → q ≢ p → bit_at fs.data_bitmap e q ≡ bit_at fs.data_bitmap d q)
    × ((q : ℕ) → q < p → bit_at fs.data_bitmap d q ≡ 1)

-- On a disk of bytes, where no block number wraps around, `alloc_data` takes the lowest clear bit of
-- the data bitmap, sets it alone and returns the block of the data area that belongs to it; it
-- panics if all bits are set, and then only.
pub alloc_data_lem :
    (fs : EasyFileSystem) (d : Disk)
    → IsSmall fs
    → IsDisk d
    → Allocated fs d (alloc_data fs d)
      ⊎ ((alloc_data fs d ≡ panic)
          × ((q : ℕ) → q < maximum fs.data_bitmap → bit_at fs.data_bitmap d q ≡ 1))
unfolding alloc_data
alloc_data_lem fs d small disk = go (alloc_lem fs.data_bitmap d disk)
  where
    go :
        Found 0 (maximum fs.data_bitmap) fs.data_bitmap d (alloc fs.data_bitmap d)
          ⊎ Full 0 (maximum fs.data_bitmap) fs.data_bitmap d (alloc fs.data_bitmap d)
        → Allocated fs d (alloc_data fs d)
          ⊎ ((alloc_data fs d ≡ panic)
              × ((q : ℕ) → q < maximum fs.data_bitmap → bit_at fs.data_bitmap d q ≡ 1))
    go (inl (p, e, res, lo, hi, clear, set, disk', same, before, frame)) =
        let q : (p % 2 ^ 32 + fs.data_area_start_block) % 2 ^ 32 ≡ fs.data_area_start_block + p =
          omega arith in
        inl (
          p,
          e,
          rw (alloc_data, res, q) refl,
          hi,
          clear,
          set,
          disk',
          same,
          λ r lt. before r (omega arith) lt,
        )
    go (inr (res, full)) = inr (rw (alloc_data, res) refl, λ q lt. full q (omega arith) lt)

-- On a disk of bytes, where there are fewer than `2 ^ 32 - 4096` blocks, the inode bitmap and its
-- inodes leave room for data, and no number of a bit of the data bitmap wraps around: if the bits
-- of all data blocks are set and the bitmap has a bit more, which is clear, then `alloc_data`
-- returns the number of blocks of the disk, which is no block of it.
pub alloc_data_beyond :
    (total ibb : ℕ) (d : Disk)
    → Fits total ibb
    → IsSmall (formatted total ibb)
    → IsDisk d
    → (sizes total ibb).data_area_blocks < maximum (formatted total ibb).data_bitmap
    → ((q : ℕ)
        → q < (sizes total ibb).data_area_blocks
        → bit_at (formatted total ibb).data_bitmap d q ≡ 1)
    → bit_at (formatted total ibb).data_bitmap d (sizes total ibb).data_area_blocks ≡ 0
    → (e : Disk) × (alloc_data (formatted total ibb) d ≡ ok (total, e))
alloc_data_beyond total ibb d fits small disk more set clear =
    go (alloc_data_lem (formatted total ibb) d small disk)
  where
    go :
        Allocated (formatted total ibb) d (alloc_data (formatted total ibb) d)
          ⊎ ((alloc_data (formatted total ibb) d ≡ panic)
              × ((q : ℕ)
                  → q < maximum (formatted total ibb).data_bitmap
                  → bit_at (formatted total ibb).data_bitmap d q ≡ 1))
        → (e : Disk) × (alloc_data (formatted total ibb) d ≡ ok (total, e))
    go (inl (p, e, res, hi, z, o, disk', same, before)) = elim (Bool-cases (ltb p n)) [
      | inl x ↦ absurd (omega (arith, z, set p (ltb→lt _ _ x)))
      | inr x ↦ elim (Bool-cases (ltb n p)) [
        | inl y ↦ absurd (omega (arith, clear, before n (ltb→lt _ _ y)))
        | inr y ↦
            let at_n : p ≡ n = omega (arith, ltb→le _ _ x, ltb→le _ _ y) in
            let end = (areas_lem total ibb fits).4 in (e, rw (res, at_n, end) refl)
      ]
    ]
      where
        n : ℕ
        n = (sizes total ibb).data_area_blocks
    go (inr (res, full)) = absurd (omega (arith, clear, full _ more))

-- The contents of a block outside of the bitmap do not matter to the bits.
pub bit_at-update :
    (m : Bitmap) (d : Disk) (a : ℕ) (b : Block) (q : ℕ)
    → (a < m.start_block_id) ⊎ (m.start_block_id + m.blocks ≤ a)
    → q < maximum m
    → bit_at m (update d a b) q ≡ bit_at m d q
unfolding bit_at maximum
bit_at-update m d a b q out lt =
    ap (λ c. block_bit c (q % 4096)) (update_ne d a b (q / 4096 + m.start_block_id) (omega arith))

update_zero-IsDisk : (d : Disk) (a : ℕ) → IsDisk d → IsDisk (update d a (λ _. 0))
update_zero-IsDisk d a h k o = elim (Bool-cases (k == a)) [
  | inl x ↦ let e = update_at d a (λ _. 0) k (==→eq _ _ x) in rw e (omega arith)
  | inr x ↦ let e = update_ne d a (λ _. 0) k (==→ne _ _ x) in rw e (h k o)
]

-- What giving back a block does, where its bit is set.
dealloc_data_set :
    (fs : EasyFileSystem) (d : Disk) (p : ℕ)
    → IsSmall fs
    → fs.data_bitmap.start_block_id + fs.data_bitmap.blocks ≤ fs.data_area_start_block
    → IsDisk d
    → p < maximum fs.data_bitmap
    → bit_at fs.data_bitmap d p ≡ 1
    → (f : Disk) × (dealloc_data fs (fs.data_area_start_block + p) d ≡ ok (tt, f))
      × ((o : ℕ) → f (fs.data_area_start_block + p) o ≡ 0)
      × (bit_at fs.data_bitmap f p ≡ 0)
      × ((q : ℕ)
          → q < maximum fs.data_bitmap
          → q ≢ p
          → bit_at fs.data_bitmap f q ≡ bit_at fs.data_bitmap d q)
unfolding dealloc_data maximum
dealloc_data_set fs d p small follows disk lt set =
    let b = fs.data_area_start_block + p in
    let e = update d b (λ _. 0) in
    let sub : (b + 2 ^ 32 - fs.data_area_start_block) % 2 ^ 32 ≡ p = omega arith in
    let kept = bit_at-update fs.data_bitmap d b (λ _. 0) in
    elim (dealloc_lem fs.data_bitmap p e (update_zero-IsDisk d b disk)) [
      | inl (z, _) ↦ absurd (omega (arith, z, set, kept p (omega arith) lt))
      | inr (_, (f, done, _, cleared, rest, frame)) ↦ (
        f,
        rw (dealloc_data, sub, done) refl,
        λ o. ap (λ c. c o) (frame b (omega arith) ∙ update_at d b (λ _. 0) b refl),
        cleared,
        λ q lt' ne. rest q ne ∙ kept q (omega arith) lt',
      )
    ]

-- On a disk of bytes, where no block number wraps around and the data area follows the data bitmap:
-- a block that `alloc_data` returned can be given back, and then the block is cleared and the data
-- bitmap is as it was before the allocation.
pub dealloc_data-alloc_data :
    (fs : EasyFileSystem) (d e : Disk) (b : ℕ)
    → IsSmall fs
    → fs.data_bitmap.start_block_id + fs.data_bitmap.blocks ≤ fs.data_area_start_block
    → IsDisk d
    → alloc_data fs d ≡ ok (b, e)
    → (f : Disk) × (dealloc_data fs b e ≡ ok (tt, f))
      × ((o : ℕ) → f b o ≡ 0)
      × ((q : ℕ)
          → q < maximum fs.data_bitmap
          → bit_at fs.data_bitmap f q ≡ bit_at fs.data_bitmap d q)
dealloc_data-alloc_data fs d e b small follows disk h = go (alloc_data_lem fs d small disk)
  where
    go :
        Allocated fs d (alloc_data fs d)
          ⊎ ((alloc_data fs d ≡ panic)
              × ((q : ℕ) → q < maximum fs.data_bitmap → bit_at fs.data_bitmap d q ≡ 1))
        → (f : Disk) × (dealloc_data fs b e ≡ ok (tt, f))
          × ((o : ℕ) → f b o ≡ 0)
          × ((q : ℕ)
              → q < maximum fs.data_bitmap
              → bit_at fs.data_bitmap f q ≡ bit_at fs.data_bitmap d q)
    go (inr (res, full)) = absurd cc
    go (inl (p, e', res, hi, clear, set, disk', same, before)) =
        let pe : fs.data_area_start_block + p ≡ b = cc in
        let ee : e' ≡ e = cc in
        let disk_e : IsDisk e = rw ee at disk' in
        let set_e : bit_at fs.data_bitmap e p ≡ 1 = rw ee at set in
        let same_e : (q : ℕ) → q ≢ p → bit_at fs.data_bitmap e q ≡ bit_at fs.data_bitmap d q =
          rw ee at same in
        let (f, done, zero_f, cleared, rest) =
          dealloc_data_set fs e p small follows disk_e hi set_e in
        rw (← pe) (
          f,
          done,
          zero_f,
          λ q lt. elim (Bool-cases (q == p)) [
            | inl x ↦ let y : q ≡ p = ==→eq _ _ x in rw y (cleared ∙ sym clear)
            | inr x ↦ rest q lt (==→ne _ _ x) ∙ same_e q (==→ne _ _ x)
          ],
        )
