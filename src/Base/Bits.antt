-- ===== src/Base/Bits.antt =====
-- `|` and `&` with one bit, and the bits of a sum, as arithmetic.
use Prim.Native.Nat.{ℕ, zero, suc, ◌+◌, ◌-◌, ◌*◌, ◌/◌, ◌%◌, ◌^◌, ◌≤◌, ◌<◌, min, max}
use Prim.Native.Nat.{bit_and, bit_or, digits, bit_and-bitwise, bit_or-bitwise}
use mathlib.Core.Path.{◌≡◌, refl, ap, ◌∙◌}
use mathlib.Core.Logic.{◌≢◌, ◌⊎◌, inl, inr}
use native.Mathlib.Omega.{arith}
use native.Mathlib.Nat.{pow-suc, one-le-pow}

-- Binary digit `k` of `v`.
unfoldable pub bit : ℕ → ℕ → ℕ
bit v zero = v % 2
bit v (suc k) = bit (v / 2) k

-- `|` and `&` of a number and a power of two, on the recursion that they stand for: its fuel may be
-- any number from the first argument on.
module _ (n : ℕ) where
  -- The power of two, half way down.
  half_pow : 2 ^ suc n / 2 ≡ 2 ^ n
  half_pow = omega (arith, pow-suc 2 n)

  pow_even : 2 ^ suc n % 2 ≡ 0
  pow_even = omega (arith, pow-suc 2 n)

or_nothing : (v n : ℕ) → v ≤ n → digits (λ y. y) max n v 0 ≡ v
or_nothing v zero le = omega arith
or_nothing zero (suc n) le = refl
or_nothing (suc v) (suc n) le = omega (arith, or_nothing (suc v / 2) n (omega arith))

and_nothing : (v n : ℕ) → v ≤ n → digits (λ y. 0) min n v 0 ≡ 0
and_nothing v zero le = refl
and_nothing zero (suc n) le = refl
and_nothing (suc v) (suc n) le = omega (arith, and_nothing (suc v / 2) n (omega arith))

or_power : (k v n : ℕ) → v ≤ n → bit v k ≡ 0 → digits (λ y. y) max n v (2 ^ k) ≡ v + 2 ^ k
unfolding bit
or_power k v zero le clear = omega arith
or_power k zero (suc n) le clear = omega arith
or_power zero (suc v) (suc n) le clear = omega (arith, or_nothing (suc v / 2) n (omega arith))
or_power (suc k) (suc v) (suc n) le clear =
    let rest = or_power k (suc v / 2) n (omega arith) clear in
    rw (half_pow k, pow_even k, rest) (omega (arith, pow-suc 2 k))

bit_nothing : (k v : ℕ) → v ≤ 0 → bit v k ≡ 0
unfolding bit
bit_nothing zero v le = omega arith
bit_nothing (suc k) v le = bit_nothing k (v / 2) (omega arith)

and_power : (k v n : ℕ) → v ≤ n → digits (λ y. 0) min n v (2 ^ k) ≡ bit v k * 2 ^ k
unfolding bit
and_power k v zero le = rw (bit_nothing k v le) (omega arith)
and_power k zero (suc n) le = rw (bit_nothing k 0 (omega arith)) (omega arith)
and_power zero (suc v) (suc n) le = omega (arith, and_nothing (suc v / 2) n (omega arith))
and_power (suc k) (suc v) (suc n) le =
    let rest = and_power k (suc v / 2) n (omega arith) in
    rw (half_pow k, pow_even k, rest) (grind (arith, pow-suc 2 k))

pub bit-lt : (v k : ℕ) → bit v k < 2
unfolding bit
bit-lt v zero = omega arith
bit-lt v (suc k) = bit-lt (v / 2) k

-- `v | (1 << k)` adds the bit where it is clear.
pub bit_or-bit : (v k : ℕ) → bit v k ≡ 0 → bit_or v (2 ^ k) ≡ v + 2 ^ k
bit_or-bit v k clear = bit_or-bitwise v (2 ^ k) ∙ or_power k v v (omega arith) clear

-- `v & (1 << k)` picks the bit.
pub bit_and-bit : (v k : ℕ) → bit_and v (2 ^ k) ≡ bit v k * 2 ^ k
bit_and-bit v k = bit_and-bitwise v (2 ^ k) ∙ and_power k v v (omega arith)

pub bit-add_self : (v k : ℕ) → bit v k ≡ 0 → bit (v + 2 ^ k) k ≡ 1
unfolding bit
bit-add_self v zero h = omega arith
bit-add_self v (suc k) h =
    let e : (v + 2 ^ suc k) / 2 ≡ v / 2 + 2 ^ k = omega (arith, pow-suc 2 k) in
    rw e (bit-add_self (v / 2) k h)

pub bit-add_ne : (v k j : ℕ) → bit v k ≡ 0 → j ≢ k → bit (v + 2 ^ k) j ≡ bit v j
unfolding bit
bit-add_ne v zero zero h ne = absurd (ne refl)
bit-add_ne v zero (suc j) h ne = let e : (v + 2 ^ 0) / 2 ≡ v / 2 = omega arith in rw e
bit-add_ne v (suc k) zero h ne = omega (arith, pow-suc 2 k)
bit-add_ne v (suc k) (suc j) h ne =
    let e : (v + 2 ^ suc k) / 2 ≡ v / 2 + 2 ^ k = omega (arith, pow-suc 2 k) in
    rw e (bit-add_ne (v / 2) k j h (λ p. ne (ap suc p)))

pub pow-le_of_bit : (v k : ℕ) → bit v k ≡ 1 → 2 ^ k ≤ v
unfolding bit
pow-le_of_bit v zero h = omega arith
pow-le_of_bit v (suc k) h = omega (arith, pow-suc 2 k, pow-le_of_bit (v / 2) k h)

pub bit-sub_self : (v k : ℕ) → bit v k ≡ 1 → bit (v - 2 ^ k) k ≡ 0
unfolding bit
bit-sub_self v zero h = omega arith
bit-sub_self v (suc k) h =
    let e : (v - 2 ^ suc k) / 2 ≡ v / 2 - 2 ^ k = omega (arith, pow-suc 2 k) in
    rw e (bit-sub_self (v / 2) k h)

pub add_bit-lt : (n v k : ℕ) → v < 2 ^ n → k < n → bit v k ≡ 0 → v + 2 ^ k < 2 ^ n
unfolding bit
add_bit-lt zero v k h lt z = absurd (omega arith)
add_bit-lt (suc n) v zero h lt z = omega (arith, pow-suc 2 n)
add_bit-lt (suc n) v (suc k) h lt z = omega (
  arith,
  pow-suc 2 n,
  pow-suc 2 k,
  add_bit-lt n (v / 2) k (omega (arith, pow-suc 2 n)) (omega arith) z,
)

-- `u64::trailing_ones`, over at most `n` digits.
unfoldable pub trailing_ones : ℕ → ℕ → ℕ
trailing_ones zero v = 0
trailing_ones (suc n) v = elim (v % 2) [ zero ↦ 0 | suc _ ↦ suc (trailing_ones n (v / 2)) ]

digit-cases : (v : ℕ) → (v % 2 ≡ 0) ⊎ (v % 2 ≡ 1)
digit-cases v = omega arith

-- A word with a clear digit: the ones that it starts with end at a clear digit.
pub trailing_ones-bit :
    (n v : ℕ) → v + 1 < 2 ^ n → (trailing_ones n v < n) × (bit v (trailing_ones n v) ≡ 0)
unfolding trailing_ones bit
trailing_ones-bit zero v h = absurd (omega arith)
trailing_ones-bit (suc n) v h = elim (digit-cases v) [
  | inl even ↦ rw (even, trailing_ones) (omega arith, even)
  | inr odd ↦
      let (lt, clear) = trailing_ones-bit n (v / 2) (omega (arith, pow-suc 2 n)) in
      rw (odd, trailing_ones) (omega arith, clear)
]

-- All digits below are set.
pub trailing_ones_below : (n v j : ℕ) → j < trailing_ones n v → bit v j ≡ 1
unfolding trailing_ones bit
trailing_ones_below zero v j h = absurd (omega arith)
trailing_ones_below (suc n) v zero h = elim (digit-cases v) [
  | inl even ↦ absurd (omega (arith, (rw (even, trailing_ones) at h)))
  | inr odd ↦ odd
]
trailing_ones_below (suc n) v (suc j) h = elim (digit-cases v) [
  | inl even ↦ absurd (omega (arith, (rw (even, trailing_ones) at h)))
  | inr odd ↦ trailing_ones_below n (v / 2) j (omega (arith, (rw (odd, trailing_ones) at h)))
]

-- The digits of `u64::MAX` and its like.
pub bit_ones : (n k : ℕ) → k < n → bit (2 ^ n - 1) k ≡ 1
unfolding bit
bit_ones zero k h = absurd (omega arith)
bit_ones (suc n) zero h = omega (arith, pow-suc 2 n, one-le-pow n 2)
bit_ones (suc n) (suc k) h =
    let e : (2 ^ suc n - 1) / 2 ≡ 2 ^ n - 1 = omega (arith, pow-suc 2 n, one-le-pow n 2) in
    rw e (bit_ones n k (omega arith))
