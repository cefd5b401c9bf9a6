-- ===== src/EasyFs/Bitmap/Dealloc.antt =====
-- What `Bitmap::dealloc` promises, and that it undoes `alloc`.
use r_core_tutorial_code.Base.{
  ℕ, ◌+◌, ◌-◌, ◌*◌, ◌/◌, ◌%◌, ◌^◌, ◌<◌, ◌≡◌, ◌≢◌, ◌⊎◌, inl, inr, some, refl, ap, arith, ◌==◌,
  Bool-cases, ==→eq, ==→ne, sym, ◌∙◌, ok, panic, update, bit_and, ltb, update_ne, lt→ltb, le→ltb,
  true, false,
}
use native.Mathlib.Nat.{one-le-pow}
use r_core_tutorial_code.Base.Bits.{bit_and-bit, bit-lt}
use r_core_tutorial_code.EasyFs.Block.{Block, Disk, IsBytes, get_u64, put_u64, put_word-IsBytes}
use r_core_tutorial_code.EasyFs.Bitmap.{Bitmap, block_bit, bit_at, alloc, dealloc, maximum}
use r_core_tutorial_code.EasyFs.Bitmap.Word.{block_bit-clear}
use r_core_tutorial_code.EasyFs.Bitmap.Alloc.{
  IsDisk, Found, Full, alloc_lem, bit_at-update_in, bit_at-update_out, bit_at_in, update-IsDisk,
}

bit_at-lt : (m : Bitmap) (d : Disk) (n : ℕ) → bit_at m d n < 2
unfolding bit_at block_bit
bit_at-lt m d n = bit-lt _ (n % 4096 % 64)

module _ (m : Bitmap) (n : ℕ) (d : Disk) where
  addr : ℕ
  addr = n / 4096 + m.start_block_id

  word : ℕ
  unfolding addr
  word = get_u64 (d addr) (8 * (n % 4096 / 64))

  cleared : Block
  unfolding addr word
  cleared = put_u64 (d addr) (8 * (n % 4096 / 64)) (word - 2 ^ (n % 4096 % 64))

  word_bit : bit_and word (2 ^ (n % 4096 % 64)) ≡ bit_at m d n * 2 ^ (n % 4096 % 64)
  unfolding bit_at block_bit word addr
  word_bit = bit_and-bit _ (n % 4096 % 64)

  test-set : bit_at m d n ≡ 1 → ltb 0 (bit_and word (2 ^ (n % 4096 % 64))) ≡ true
  test-set h = lt→ltb 0 _ (
      omega
        (arith, word_bit, one-le-pow (n % 4096 % 64) 2, ap (λ (t : ℕ). t * 2 ^ (n % 4096 % 64)) h))

  test-clear : bit_at m d n ≡ 0 → ltb 0 (bit_and word (2 ^ (n % 4096 % 64))) ≡ false
  test-clear h = le→ltb 0 _ (omega (arith, word_bit, ap (λ (t : ℕ). t * 2 ^ (n % 4096 % 64)) h))

  dealloc-set : bit_at m d n ≡ 1 → dealloc m n d ≡ ok (tt, update d addr cleared)
  unfolding dealloc cleared word addr
  dealloc-set h = rw (test-set h)

  -- `dealloc` panics on a bit that is clear.
  pub dealloc-clear : bit_at m d n ≡ 0 → dealloc m n d ≡ panic
  unfolding dealloc cleared word addr
  dealloc-clear h = rw (test-clear h)

  cleared-IsBytes : IsBytes (d addr) → IsBytes cleared
  unfolding cleared
  cleared-IsBytes h = put_word-IsBytes 8 (d addr) _ _ h

  cleared_bits :
      IsDisk d
      → bit_at m d n ≡ 1
      → (block_bit cleared (n % 4096) ≡ 0)
        × ((r : ℕ) → r ≢ n % 4096 → block_bit cleared r ≡ block_bit (d addr) r)
  unfolding bit_at block_bit cleared word addr
  cleared_bits disk h =
      let e : n % 4096 / 64 * 64 + n % 4096 % 64 ≡ n % 4096 = omega arith in
      rw e at (
        block_bit-clear (d addr) (n % 4096 / 64) (n % 4096 % 64) (disk addr) (omega arith)
          (omega arith) h)

-- On a disk of bytes, `dealloc` of a bit that is set clears it, and changes no other bit and no
-- other block; of a bit that is clear it panics.
pub dealloc_lem :
    (m : Bitmap) (n : ℕ) (d : Disk)
    → IsDisk d
    → ((bit_at m d n ≡ 0) × (dealloc m n d ≡ panic))
      ⊎ ((bit_at m d n ≡ 1)
          × ((e : Disk) × (dealloc m n d ≡ ok (tt, e))
              × IsDisk e
              × (bit_at m e n ≡ 0)
              × ((q : ℕ) → q ≢ n → bit_at m e q ≡ bit_at m d q)
              × ((a : ℕ) → a ≢ n / 4096 + m.start_block_id → e a ≡ d a)))
unfolding addr
dealloc_lem m n d disk = elim (Bool-cases (bit_at m d n == 0)) [
  | inl z ↦ inl (==→eq _ _ z, dealloc-clear m n d (==→eq _ _ z))
  | inr o ↦ inr (done (omega (arith, ==→ne _ _ o, bit_at-lt m d n)))
]
  where
    done :
        bit_at m d n ≡ 1
        → (bit_at m d n ≡ 1)
          × ((e : Disk) × (dealloc m n d ≡ ok (tt, e))
              × IsDisk e
              × (bit_at m e n ≡ 0)
              × ((q : ℕ) → q ≢ n → bit_at m e q ≡ bit_at m d q)
              × ((a : ℕ) → a ≢ n / 4096 + m.start_block_id → e a ≡ d a))
    done h =
        let (zero_now, same) = cleared_bits m n d disk h in
        (
          h,
          (
            update d (addr m n d) (cleared m n d),
            dealloc-set m n d h,
            update-IsDisk m d (n / 4096) (cleared m n d) (addr m n d) disk
                (cleared-IsBytes m n d (disk _)),
            bit_at-update_in m d (n / 4096) (cleared m n d) n refl ∙ zero_now,
            λ q ne. elim (Bool-cases (q / 4096 == n / 4096)) [
              | inl x ↦
                  bit_at-update_in m d (n / 4096) (cleared m n d) q (==→eq _ _ x)
                  ∙ same (q % 4096) (λ y. ne (omega (arith, ==→eq _ _ x)))
                  ∙ sym (bit_at_in m d (n / 4096) q (==→eq _ _ x))
              | inr x ↦ bit_at-update_out m d (n / 4096) (cleared m n d) q (==→ne _ _ x)
            ],
            λ a ne. update_ne d (addr m n d) (cleared m n d) a ne,
          ),
        )

-- On a disk of bytes, the bit that `alloc` took can be given back, and that restores every bit of
-- the bitmap.
pub dealloc-alloc :
    (m : Bitmap) (d e : Disk) (p : ℕ)
    → IsDisk d
    → alloc m d ≡ ok (some p, e)
    → (f : Disk) × (dealloc m p e ≡ ok (tt, f)) × ((q : ℕ) → bit_at m f q ≡ bit_at m d q)
dealloc-alloc m d e p disk h = go (alloc_lem m d disk)
  where
    undo :
        (f : Disk)
        → bit_at m d p ≡ 0
        → ((q : ℕ) → q ≢ p → bit_at m e q ≡ bit_at m d q)
        → bit_at m f p ≡ 0
        → ((q : ℕ) → q ≢ p → bit_at m f q ≡ bit_at m e q)
        → (q : ℕ) → bit_at m f q ≡ bit_at m d q
    undo f clear same cleared same' q = elim (Bool-cases (q == p)) [
      | inl x ↦ let y : q ≡ p = ==→eq _ _ x in rw y (cleared ∙ sym clear)
      | inr x ↦ same' q (==→ne _ _ x) ∙ same q (==→ne _ _ x)
    ]

    go :
        Found 0 (maximum m) m d (alloc m d) ⊎ Full 0 (maximum m) m d (alloc m d)
        → (f : Disk) × (dealloc m p e ≡ ok (tt, f)) × ((q : ℕ) → bit_at m f q ≡ bit_at m d q)
    go (inr (res, _)) = absurd (cc)
    go (inl (p', e', res, _, _, clear, now, fd, same, _, _)) =
        let pe : p' ≡ p = cc in
        let ee : e' ≡ e = cc in
        let fd' : IsDisk e = rw ee at fd in
        let now' : bit_at m e p ≡ 1 = rw (ee, pe) at now in
        let clear' : bit_at m d p ≡ 0 = rw pe at clear in
        let same' : (q : ℕ) → q ≢ p → bit_at m e q ≡ bit_at m d q = rw (ee, pe) at same in
        elim (dealloc_lem m p e fd') [
          | inl (z, _) ↦ absurd (omega arith)
          | inr (_, (f, done, _, cleared, rest, _)) ↦ (f, done, undo f clear' same' cleared rest)
        ]
