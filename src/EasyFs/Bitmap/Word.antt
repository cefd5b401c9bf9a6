-- ===== src/EasyFs/Bitmap/Word.antt =====
-- What `Bitmap::alloc` and `dealloc` do to the words of one block.
use r_core_tutorial_code.Base.{
  ℕ, zero, suc, ◌+◌, ◌-◌, ◌*◌, ◌/◌, ◌%◌, ◌^◌, ◌≤◌, ◌<◌, ◌≡◌, ◌≢◌, ◌⊎◌, inl, inr, Option, none, some,
  ap, arith, bit_or, ◌==◌, Bool-cases, ==→eq, ==→ne, sym, ◌∙◌, Option-cases, ◌⊎◌,
}
use r_core_tutorial_code.Base.Bits.{
  bit, trailing_ones, bit_or-bit, bit-add_self, bit-add_ne, bit-sub_self, trailing_ones-bit,
  trailing_ones_below, bit_ones, pow-le_of_bit, add_bit-lt,
}
use r_core_tutorial_code.EasyFs.Block.{
  Block, get_u64, put_u64, IsBytes, get_word-lt, get_word-put_word, get_word-put_word_ne,
  put_word-IsBytes,
}
use r_core_tutorial_code.EasyFs.Bitmap.{find_word, block_bit, alloc_in}

-- A search that fails has seen only full words.
find_word-none :
    (n i : ℕ) (b : Block)
    → find_word n i b ≡ none
    → (k : ℕ) → k < n
    → get_u64 b (8 * (i + k)) ≡ 2 ^ 64 - 1
unfolding find_word
find_word-none zero i b h k lt = absurd (omega arith)
find_word-none (suc n) i b h zero lt = let e : i + 0 ≡ i = omega arith in rw e (ground arith)
find_word-none (suc n) i b h (suc k) lt =
    let e : i + suc k ≡ i + 1 + k = omega arith in
    rw e (find_word-none n (i + 1) b (ground arith) k (omega arith))

-- A search that succeeds stops at the first word that is not full.
find_word-some :
    (n i : ℕ) (b : Block) (j : ℕ)
    → find_word n i b ≡ some j
    → (i ≤ j)
      × (j < i + n)
      × (get_u64 b (8 * j) ≢ 2 ^ 64 - 1)
      × ((k : ℕ) → i ≤ k → k < j → get_u64 b (8 * k) ≡ 2 ^ 64 - 1)
unfolding find_word
find_word-some zero i b j h = cc
find_word-some (suc n) i b j h = elim (Bool-cases (get_u64 b (8 * i) == 2 ^ 64 - 1)) [
  | inl full ↦
      let (le, lt, ne, before) = find_word-some n (i + 1) b j (ground arith) in
      (omega arith, omega arith, ne, λ k p q. ground (arith, before k))
  | inr free ↦ (ground arith, ground arith, ground arith, λ k p q. absurd (ground arith))
]

same_word : (b : Block) (r i : ℕ) → r / 64 ≡ i → bit (get_u64 b (8 * i)) (r % 64) ≡ block_bit b r
unfolding block_bit
same_word b r i e = rw (← e)

-- A word written with bit `t` turned, and nothing else of the block.
module _ (b : Block) (i t w : ℕ) (i_lt : i < 64) (t_lt : t < 64) (w_lt : w < 2 ^ 64) where
  block_bit-put_self : (r : ℕ) → r / 64 ≡ i → block_bit (put_u64 b (8 * i) w) r ≡ bit w (r % 64)
  unfolding block_bit
  block_bit-put_self r e = rw (e, get_word-put_word 8 b (8 * i) w w_lt)

  block_bit-put_ne : (r : ℕ) → r / 64 ≢ i → block_bit (put_u64 b (8 * i) w) r ≡ block_bit b r
  unfolding block_bit
  block_bit-put_ne r ne = rw (get_word-put_word_ne 8 8 b (8 * i) w (8 * (r / 64)) (omega arith))

-- The bits of a block after bit `t` of word `i`, clear before, is set.
pub block_bit-set :
    (b : Block) (i t : ℕ)
    → IsBytes b
    → i < 64
    → t < 64
    → bit (get_u64 b (8 * i)) t ≡ 0
    → let b' = put_u64 b (8 * i) (bit_or (get_u64 b (8 * i)) (2 ^ t)) in
      (block_bit b' (i * 64 + t) ≡ 1) × ((r : ℕ) → r ≢ i * 64 + t → block_bit b' r ≡ block_bit b r)
block_bit-set b i t bytes i_lt t_lt clear = rw (bit_or-bit w t clear) (there, elsewhere)
  where
    w : ℕ
    w = get_u64 b (8 * i)

    w_lt : w + 2 ^ t < 2 ^ 64
    w_lt = add_bit-lt 64 w t (get_word-lt 8 b (8 * i) bytes) t_lt clear

    there : block_bit (put_u64 b (8 * i) (w + 2 ^ t)) (i * 64 + t) ≡ 1
    there =
        let e : (i * 64 + t) % 64 ≡ t = omega arith in
        block_bit-put_self b i t (w + 2 ^ t) i_lt t_lt w_lt (i * 64 + t) (omega arith)
        ∙ rw e (bit-add_self w t clear)

    elsewhere :
        (r : ℕ) → r ≢ i * 64 + t → block_bit (put_u64 b (8 * i) (w + 2 ^ t)) r ≡ block_bit b r
    elsewhere r ne = elim (Bool-cases (r / 64 == i)) [
      | inl e ↦
          block_bit-put_self b i t (w + 2 ^ t) i_lt t_lt w_lt r (==→eq _ _ e)
          ∙ bit-add_ne w t (r % 64) clear (λ p. ne (omega (arith, ==→eq _ _ e)))
          ∙ same_word b r i (==→eq _ _ e)
      | inr e ↦ block_bit-put_ne b i t (w + 2 ^ t) i_lt t_lt w_lt r (==→ne _ _ e)
    ]

-- The bits of a block after bit `t` of word `i`, set before, is cleared.
pub block_bit-clear :
    (b : Block) (i t : ℕ)
    → IsBytes b
    → i < 64
    → t < 64
    → bit (get_u64 b (8 * i)) t ≡ 1
    → let b' = put_u64 b (8 * i) (get_u64 b (8 * i) - 2 ^ t) in
      (block_bit b' (i * 64 + t) ≡ 0) × ((r : ℕ) → r ≢ i * 64 + t → block_bit b' r ≡ block_bit b r)
block_bit-clear b i t bytes i_lt t_lt one = (there, elsewhere)
  where
    w : ℕ
    w = get_u64 b (8 * i)

    v : ℕ
    v = w - 2 ^ t

    back : v + 2 ^ t ≡ w
    back = omega (arith, pow-le_of_bit w t one)

    v_lt : v < 2 ^ 64
    v_lt = omega (arith, get_word-lt 8 b (8 * i) bytes)

    there : block_bit (put_u64 b (8 * i) v) (i * 64 + t) ≡ 0
    there =
        let e : (i * 64 + t) % 64 ≡ t = omega arith in
        block_bit-put_self b i t v i_lt t_lt v_lt (i * 64 + t) (omega arith)
        ∙ rw e (bit-sub_self w t one)

    elsewhere : (r : ℕ) → r ≢ i * 64 + t → block_bit (put_u64 b (8 * i) v) r ≡ block_bit b r
    elsewhere r ne = elim (Bool-cases (r / 64 == i)) [
      | inl e ↦
          block_bit-put_self b i t v i_lt t_lt v_lt r (==→eq _ _ e)
          ∙ sym (
              bit-add_ne v t (r % 64) (bit-sub_self w t one) (λ p. ne (omega (arith, ==→eq _ _ e))))
          ∙ ap (λ x. bit x (r % 64)) back
          ∙ same_word b r i (==→eq _ _ e)
      | inr e ↦ block_bit-put_ne b i t v i_lt t_lt v_lt r (==→ne _ _ e)
    ]

-- A block of full words has all of its 4096 bits set.
block_bit_full : (b : Block) (r : ℕ) → get_u64 b (8 * (r / 64)) ≡ 2 ^ 64 - 1 → block_bit b r ≡ 1
unfolding block_bit
block_bit_full b r e = rw e (bit_ones 64 (r % 64) (omega arith))

all_full : (b : Block) → find_word 64 0 b ≡ none → (r : ℕ) → r < 4096 → block_bit b r ≡ 1
all_full b e r lt =
    let eq : 0 + r / 64 ≡ r / 64 = omega arith in
    let full = find_word-none 64 0 b e (r / 64) (omega arith) in block_bit_full b r (rw eq at full)

-- A word found has a clear digit behind its first ones.
first_clear :
    (b : Block) (i : ℕ)
    → IsBytes b
    → get_u64 b (8 * i) ≢ 2 ^ 64 - 1
    → let t = trailing_ones 64 (get_u64 b (8 * i)) in (t < 64) × (bit (get_u64 b (8 * i)) t ≡ 0)
first_clear b i bytes ne =
    trailing_ones-bit 64 (get_u64 b (8 * i)) (omega (arith, get_word-lt 8 b (8 * i) bytes))

-- All bits before the first clear one are set.
before_set :
    (b : Block) (i : ℕ)
    → ((k : ℕ) → 0 ≤ k → k < i → get_u64 b (8 * k) ≡ 2 ^ 64 - 1)
    → (q : ℕ) → q < i * 64 + trailing_ones 64 (get_u64 b (8 * i))
    → trailing_ones 64 (get_u64 b (8 * i)) < 64
    → block_bit b q ≡ 1
before_set b i full q lt t_lt = elim (Bool-cases (q / 64 == i)) [
  | inl e ↦
      sym (same_word b q i (==→eq _ _ e))
      ∙ trailing_ones_below 64 (get_u64 b (8 * i)) (q % 64) (omega (arith, ==→eq _ _ e))
  | inr e ↦ block_bit_full b q (full (q / 64) (omega arith) (omega (arith, ==→ne _ _ e)))
]

-- What the closure of `alloc` promises: it sets the first clear bit, or finds all of them set.
abbrev pub AllocIn : ℕ → Block → Option ℕ × Block → Type 0
AllocIn block_id b res =
    (res ≡ (none, b)) × ((r : ℕ) → r < 4096 → block_bit b r ≡ 1)
    ⊎ ((r : ℕ) × (c : Block) × (res ≡ (some (block_id * 4096 + r), c))
        × (r < 4096)
        × (block_bit b r ≡ 0)
        × (block_bit c r ≡ 1)
        × IsBytes c
        × ((q : ℕ) → q ≢ r → block_bit c q ≡ block_bit b q)
        × ((q : ℕ) → q < r → block_bit b q ≡ 1))

pub alloc_in_cases :
    (block_id : ℕ) (b : Block) → IsBytes b → AllocIn block_id b (alloc_in block_id b)
unfolding alloc_in
alloc_in_cases block_id b bytes = elim (Option-cases (find_word 64 0 b)) [
  | inl e ↦ inl (rw (e, alloc_in), all_full b e)
  | inr (i, e) ↦ inr (found i e (find_word-some 64 0 b i e))
]
  where
    found :
        (i : ℕ)
        → find_word 64 0 b ≡ some i
        → (0 ≤ i)
          × (i < 0 + 64)
          × (get_u64 b (8 * i) ≢ 2 ^ 64 - 1)
          × ((k : ℕ) → 0 ≤ k → k < i → get_u64 b (8 * k) ≡ 2 ^ 64 - 1)
        → (r : ℕ) × (c : Block) × (alloc_in block_id b ≡ (some (block_id * 4096 + r), c))
          × (r < 4096)
          × (block_bit b r ≡ 0)
          × (block_bit c r ≡ 1)
          × IsBytes c
          × ((q : ℕ) → q ≢ r → block_bit c q ≡ block_bit b q)
          × ((q : ℕ) → q < r → block_bit b q ≡ 1)
    found i e (_, i_lt, ne, full) =
        let (t_lt, clear) = first_clear b i bytes ne in
        let t = trailing_ones 64 (get_u64 b (8 * i)) in
        let (there, elsewhere) = block_bit-set b i t bytes (omega arith) t_lt clear in
        let c = put_u64 b (8 * i) (bit_or (get_u64 b (8 * i)) (2 ^ t)) in
        let p : (i * 64 + t) % 64 ≡ t = omega arith in
        (
          i * 64 + t,
          c,
          rw (e, alloc_in) (ap {B = Option ℕ × Block} (λ n. (some n, c)) (omega arith)),
          omega arith,
          sym (same_word b (i * 64 + t) i (omega arith)) ∙ rw p clear,
          there,
          put_word-IsBytes 8 b _ _ bytes,
          elsewhere,
          λ q lt. before_set b i full q lt t_lt,
        )
