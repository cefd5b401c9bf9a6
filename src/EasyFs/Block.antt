-- ===== src/EasyFs/Block.antt =====
-- easy-fs/src/lib.rs and the typed views of a cached block: `BlockCache::get_ref` and `get_mut`
-- read a `[u8; 512]` as little-endian `u32` or `u64` words. A block is a function from offsets
-- to bytes, and a disk one from block ids to blocks: what the block cache presents to its users.
use r_core_tutorial_code.Base.{
  ℕ, zero, suc, ◌+◌, ◌-◌, ◌*◌, ◌/◌, ◌%◌, ◌^◌, ◌≤◌, ◌<◌, ◌≡◌, refl, ap, ◌∙◌, arith, leb, ltb, ◌&&◌,
  if◌then◌else◌, ◌⊎◌,
}
use native.Mathlib.Nat.{pow-suc}

-- `BLOCK_SZ`
abbrev pub block_sz : ℕ
block_sz = 512

abbrev pub Block : Type 0
Block = ℕ → ℕ

abbrev pub Disk : Type 0
Disk = ℕ → Block

abbrev pub u32 : ℕ → ℕ
u32 n = n % 2 ^ 32

-- A number of `n` little-endian bytes at an offset.
unfoldable pub get_word : ℕ → Block → ℕ → ℕ
get_word zero b o = 0
get_word (suc n) b o = b o + 256 * get_word n b (o + 1)

-- Byte `k` of a little-endian number.
unfoldable pub byte_at : ℕ → ℕ → ℕ
byte_at v zero = v % 256
byte_at v (suc k) = byte_at (v / 256) k

unfoldable pub put_word : ℕ → Block → ℕ → ℕ → Block
put_word n b o v p = if leb o p && ltb p (o + n) then byte_at v (p - o) else b p

abbrev pub get_u32 : Block → ℕ → ℕ
get_u32 = get_word 4

abbrev pub put_u32 : Block → ℕ → ℕ → Block
put_u32 = put_word 4

abbrev pub get_u64 : Block → ℕ → ℕ
get_u64 = get_word 8

abbrev pub put_u64 : Block → ℕ → ℕ → Block
put_u64 = put_word 8

-- Reading a word depends on its bytes only.
get_word_ext :
    (n : ℕ) (b c : Block) (o : ℕ)
    → ((k : ℕ) → k < n → b (o + k) ≡ c (o + k))
    → get_word n b o ≡ get_word n c o
unfolding get_word
get_word_ext zero b c o h = refl
get_word_ext (suc n) b c o h = ground (
  arith,
  h 0,
  get_word_ext n b c (o + 1)
      (λ k lt. let e : o + 1 + k ≡ o + (k + 1) = omega arith in rw e (h (k + 1) (omega arith))),
)

-- A byte outside of the word is left.
pub put_word_outside :
    (n : ℕ) (b : Block) (o v p : ℕ) → (p < o) ⊎ (o + n ≤ p) → put_word n b o v p ≡ b p
unfolding put_word
put_word_outside n b o v p h = ground arith

-- A word at another place is left.
pub get_word-put_word_ne :
    (m n : ℕ) (b : Block) (o v q : ℕ)
    → (q + m ≤ o) ⊎ (o + n ≤ q)
    → get_word m (put_word n b o v) q ≡ get_word m b q
get_word-put_word_ne m n b o v q h =
    get_word_ext m _ b q (λ k lt. put_word_outside n b o v (q + k) (omega arith))

put_word_inside : (n : ℕ) (b : Block) (o v k : ℕ) → k < n → put_word n b o v (o + k) ≡ byte_at v k
unfolding put_word
put_word_inside n b o v k h =
    let e : o + k - o ≡ k = omega arith in ground (arith, ap (byte_at v) e)

-- A word is the number of which it holds the bytes.
get_word_of_bytes :
    (n : ℕ) (b : Block) (o v : ℕ)
    → v < 256 ^ n
    → ((k : ℕ) → k < n → b (o + k) ≡ byte_at v k)
    → get_word n b o ≡ v
unfolding get_word byte_at
get_word_of_bytes zero b o v lt h = omega arith
get_word_of_bytes (suc n) b o v lt h =
    let rest : get_word n b (o + 1) ≡ v / 256 =
      get_word_of_bytes n b (o + 1) (v / 256) (omega (arith, pow-suc 256 n))
        (λ k k_lt. let e : o + 1 + k ≡ o + suc k = omega arith in rw e (h (suc k) (omega arith))) in
    let e : o ≡ o + 0 = omega arith in
    let first : b o ≡ v % 256 = ap b e ∙ h 0 (omega arith) in omega arith

-- What is written is read.
pub get_word-put_word :
    (n : ℕ) (b : Block) (o v : ℕ) → v < 256 ^ n → get_word n (put_word n b o v) o ≡ v
get_word-put_word n b o v h = get_word_of_bytes n _ o v h (put_word_inside n b o v)

-- All bytes are bytes.
abbrev pub IsBytes : Block → Type 0
IsBytes b = (o : ℕ) → b o < 256

pub get_word-lt : (n : ℕ) (b : Block) (o : ℕ) → IsBytes b → get_word n b o < 256 ^ n
unfolding get_word
get_word-lt zero b o h = omega arith
get_word-lt (suc n) b o h = omega (arith, pow-suc 256 n, h o, get_word-lt n b (o + 1) h)

byte_at-lt : (v k : ℕ) → byte_at v k < 256
unfolding byte_at
byte_at-lt v zero = omega arith
byte_at-lt v (suc k) = byte_at-lt (v / 256) k

pub put_word-IsBytes : (n : ℕ) (b : Block) (o v : ℕ) → IsBytes b → IsBytes (put_word n b o v)
unfolding put_word
put_word-IsBytes n b o v h p = ground (arith, h p, byte_at-lt v (p - o))
