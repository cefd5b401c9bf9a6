-- ===== src/EasyFs/Bitmap/Alloc.antt =====
-- What `Bitmap::alloc` and `dealloc` promise, over the whole bitmap.
use r_core_tutorial_code.Base.{
  ℕ, zero, suc, ◌+◌, ◌-◌, ◌*◌, ◌/◌, ◌%◌, ◌≤◌, ◌<◌, ◌≡◌, ◌≢◌, ◌⊎◌, inl, inr, Option, none, some,
  refl, ap, arith, ◌==◌, Bool-cases, ==→eq, ==→ne, sym, ◌∙◌, ok, Result, update, update_at,
  update_ne, update_self,
}
use r_core_tutorial_code.EasyFs.Block.{Block, Disk, IsBytes}
use r_core_tutorial_code.EasyFs.Bitmap.{
  Bitmap, block_bit, bit_at, alloc_in, alloc_loop, alloc_next, alloc, maximum,
}
use r_core_tutorial_code.EasyFs.Bitmap.Word.{AllocIn, alloc_in_cases}

abbrev pub IsDisk : Disk → Type 0
IsDisk d = (a : ℕ) → IsBytes (d a)

-- Between the bits `lo` and `hi` of the bitmap at `start`: the lowest clear bit is taken, and
-- nothing else of the disk's bitmap changes; or all are set, and the disk is left.
abbrev pub Found : ℕ → ℕ → Bitmap → Disk → Result (Option ℕ × Disk) → Type 0
Found lo hi m d res =
    (p : ℕ) × (e : Disk) × (res ≡ ok (some p, e))
    × (lo ≤ p)
    × (p < hi)
    × (bit_at m d p ≡ 0)
    × (bit_at m e p ≡ 1)
    × IsDisk e
    × ((q : ℕ) → q ≢ p → bit_at m e q ≡ bit_at m d q)
    × ((q : ℕ) → lo ≤ q → q < p → bit_at m d q ≡ 1)
    × ((a : ℕ) → (a < m.start_block_id) ⊎ (hi ≤ (a - m.start_block_id) * 4096) → e a ≡ d a)

abbrev pub Full : ℕ → ℕ → Bitmap → Disk → Result (Option ℕ × Disk) → Type 0
Full lo hi m d res = (res ≡ ok (none, d)) × ((q : ℕ) → lo ≤ q → q < hi → bit_at m d q ≡ 1)

-- One block of the bitmap replaced.
module _ (m : Bitmap) (d : Disk) (k : ℕ) (c : Block) where
  pub bit_at-update_in :
      (q : ℕ)
      → q / 4096 ≡ k
      → bit_at m (update d (k + m.start_block_id) c) q ≡ block_bit c (q % 4096)
  unfolding bit_at
  bit_at-update_in q e =
      ap (λ b. block_bit b (q % 4096)) (update_at d _ c (q / 4096 + m.start_block_id) (omega arith))

  pub bit_at-update_out :
      (q : ℕ) → q / 4096 ≢ k → bit_at m (update d (k + m.start_block_id) c) q ≡ bit_at m d q
  unfolding bit_at
  bit_at-update_out q ne =
      ap (λ b. block_bit b (q % 4096)) (update_ne d _ c (q / 4096 + m.start_block_id) (omega arith))

  pub update-IsDisk : (a : ℕ) → IsDisk d → IsBytes c → IsDisk (update d a c)
  update-IsDisk a h b x = elim (Bool-cases (x == a)) [
    | inl e ↦ rw (update_at d a c x (==→eq _ _ e)) b
    | inr e ↦ rw (update_ne d a c x (==→ne _ _ e)) (h x)
  ]

pub bit_at_in :
    (m : Bitmap) (d : Disk) (k q : ℕ)
    → q / 4096 ≡ k
    → bit_at m d q ≡ block_bit (d (k + m.start_block_id)) (q % 4096)
unfolding bit_at
bit_at_in m d k q e = rw e

-- One block of the bitmap, where a bit is clear.
module _ (m : Bitmap) (d : Disk) (disk : IsDisk d) (k n : ℕ) where
  loop-Found :
      (r : ℕ) (c : Block)
      → alloc_in k (d (k + m.start_block_id)) ≡ (some (k * 4096 + r), c)
      → r < 4096
      → block_bit (d (k + m.start_block_id)) r ≡ 0
      → block_bit c r ≡ 1
      → IsBytes c
      → ((q : ℕ) → q ≢ r → block_bit c q ≡ block_bit (d (k + m.start_block_id)) q)
      → ((q : ℕ) → q < r → block_bit (d (k + m.start_block_id)) q ≡ 1)
      → Found (k * 4096) ((k + suc n) * 4096) m d (alloc_loop (suc n) k m.start_block_id d)
  unfolding alloc_loop
  loop-Found r c e lt clear now bytes same before =
      let here : (k * 4096 + r) % 4096 ≡ r = omega arith in
      (
        k * 4096 + r,
        update d (k + m.start_block_id) c,
        rw (e, alloc_loop),
        omega arith,
        omega arith,
        bit_at_in m d k (k * 4096 + r) (omega arith) ∙ rw here clear,
        bit_at-update_in m d k c (k * 4096 + r) (omega arith) ∙ rw here now,
        update-IsDisk m d k c (k + m.start_block_id) disk bytes,
        λ q ne. elim (Bool-cases (q / 4096 == k)) [
          | inl p ↦
              bit_at-update_in m d k c q (==→eq _ _ p)
              ∙ same (q % 4096) (λ x. ne (omega (arith, ==→eq _ _ p)))
              ∙ sym (bit_at_in m d k q (==→eq _ _ p))
          | inr p ↦ bit_at-update_out m d k c q (==→ne _ _ p)
        ],
        λ q le q_lt. bit_at_in m d k q (omega arith) ∙ before (q % 4096) (omega arith),
        λ a out. update_ne d (k + m.start_block_id) c a (omega arith),
      )

  -- All bits of the block are set: the loop goes on, on the same disk.
  loop_next :
      alloc_in k (d (k + m.start_block_id)) ≡ (none, d (k + m.start_block_id))
      → alloc_loop (suc n) k m.start_block_id d ≡ alloc_loop n (k + 1) m.start_block_id d
  unfolding alloc_loop alloc_next
  loop_next e =
      rw (e, alloc_loop)
        (ap (alloc_loop n (k + 1) m.start_block_id) (update_self d (k + m.start_block_id)))

alloc_loop_cases :
    (m : Bitmap) (n k : ℕ) (d : Disk)
    → IsDisk d
    → Found (k * 4096) ((k + n) * 4096) m d (alloc_loop n k m.start_block_id d)
      ⊎ Full (k * 4096) ((k + n) * 4096) m d (alloc_loop n k m.start_block_id d)
unfolding alloc_loop
alloc_loop_cases m zero k d disk = inr (refl, λ q le lt. absurd (omega arith))
alloc_loop_cases m (suc n) k d disk =
    step (alloc_in_cases k (d (k + m.start_block_id)) (disk _))
      (alloc_loop_cases m n (k + 1) d disk)
  where
    next :
        alloc_in k (d (k + m.start_block_id)) ≡ (none, d (k + m.start_block_id))
        → ((r : ℕ) → r < 4096 → block_bit (d (k + m.start_block_id)) r ≡ 1)
        → Found ((k + 1) * 4096) ((k + 1 + n) * 4096) m d (alloc_loop n (k + 1) m.start_block_id d)
          ⊎ Full ((k + 1) * 4096) ((k + 1 + n) * 4096) m d (alloc_loop n (k + 1) m.start_block_id d)
        → Found (k * 4096) ((k + suc n) * 4096) m d (alloc_loop (suc n) k m.start_block_id d)
          ⊎ Full (k * 4096) ((k + suc n) * 4096) m d (alloc_loop (suc n) k m.start_block_id d)
    next e set (inl (p, f, res, lo, hi, clear, now, fd, same, before, frame)) = inl (
      p,
      f,
      loop_next m d disk k n e ∙ res,
      omega arith,
      omega arith,
      clear,
      now,
      fd,
      same,
      λ q le lt. elim (Bool-cases (q / 4096 == k)) [
        | inl x ↦ bit_at_in m d k q (==→eq _ _ x) ∙ set (q % 4096) (omega arith)
        | inr x ↦ before q (omega (arith, ==→ne _ _ x)) lt
      ],
      λ a out. frame a (omega arith),
    )
    next e set (inr (res, full)) = inr (
      loop_next m d disk k n e ∙ res,
      λ q le lt. elim (Bool-cases (q / 4096 == k)) [
        | inl x ↦ bit_at_in m d k q (==→eq _ _ x) ∙ set (q % 4096) (omega arith)
        | inr x ↦ full q (omega (arith, ==→ne _ _ x)) (omega arith)
      ],
    )

    step :
        AllocIn k (d (k + m.start_block_id)) (alloc_in k (d (k + m.start_block_id)))
        → Found ((k + 1) * 4096) ((k + 1 + n) * 4096) m d (alloc_loop n (k + 1) m.start_block_id d)
          ⊎ Full ((k + 1) * 4096) ((k + 1 + n) * 4096) m d (alloc_loop n (k + 1) m.start_block_id d)
        → Found (k * 4096) ((k + suc n) * 4096) m d (alloc_loop (suc n) k m.start_block_id d)
          ⊎ Full (k * 4096) ((k + suc n) * 4096) m d (alloc_loop (suc n) k m.start_block_id d)
    step (inl (e, set)) ih = next e set ih
    step (inr (r, c, e, lt, clear, now, bytes, same, before)) ih =
        inl (loop-Found m d disk k n r c e lt clear now bytes same before)

-- On a disk of bytes, `alloc` never panics: it takes the lowest clear bit of the bitmap, sets it
-- and changes no other bit and no block outside of the bitmap; or, where all bits are set, it
-- returns `None` and leaves the disk.
pub alloc_lem :
    (m : Bitmap) (d : Disk)
    → IsDisk d
    → Found 0 (maximum m) m d (alloc m d) ⊎ Full 0 (maximum m) m d (alloc m d)
unfolding alloc maximum
alloc_lem m d disk =
    let e : 0 + m.blocks ≡ m.blocks = omega arith in rw e at (alloc_loop_cases m m.blocks 0 d disk)
