-- ===== src/EasyFs/Bitmap.antt =====
-- easy-fs/src/bitmap.rs: allocation of inodes and data blocks by the bits of some blocks.
pub mod Word
pub mod Alloc
pub mod Dealloc
use r_core_tutorial_code.Base.{
  ℕ, zero, suc, ◌+◌, ◌-◌, ◌*◌, ◌/◌, ◌%◌, ◌^◌, Option, none, some, bit_or, bit_and, update, State,
  Result, assert, gets, modify, ◌>>=◌, ◌>>◌, ltb, ◌==◌, if◌then◌else◌, ok,
}
use r_core_tutorial_code.Base.Bits.{trailing_ones, bit}
use r_core_tutorial_code.EasyFs.Block.{block_sz, Block, Disk, get_u64, put_u64, get_word, put_word}

-- `BLOCK_BITS`
abbrev pub block_bits : ℕ
block_bits = block_sz * 8

pub record Bitmap : Type 0 where
  pub start_block_id : ℕ
  pub blocks : ℕ

-- `(block_pos, bits64_pos, inner_pos)`
unfoldable pub decomposition : ℕ → ℕ × ℕ × ℕ
decomposition n = let r = n % block_bits in (n / block_bits, r / 64, r % 64)

-- `Bitmap::new`
unfoldable pub new : ℕ → ℕ → Bitmap
new start_block_id blocks = record { start_block_id = start_block_id; blocks = blocks }

-- The search for the first of `n` words, from the `i`th on, that is not `u64::MAX`.
unfoldable pub find_word : ℕ → ℕ → Block → Option ℕ
find_word zero i b = none
find_word (suc n) i b =
    let rest = find_word n (i + 1) b in if get_u64 b (8 * i) == 2 ^ 64 - 1 then rest else some i

-- The closure of `alloc`, on block `block_id` of the bitmap.
unfoldable pub alloc_in : ℕ → Block → Option ℕ × Block
unfolding find_word trailing_ones
alloc_in block_id b = elim (find_word 64 0 b) [
  | none ↦ (none, b)
  | some i ↦
      let w = get_u64 b (8 * i) in
      let inner = trailing_ones 64 w in
      (some (block_id * block_bits + i * 64 + inner), put_u64 b (8 * i) (bit_or w (2 ^ inner)))
]

-- Write the block back, and go on if no bit was clear: `if pos.is_some() { return pos; }`.
unfoldable pub alloc_next :
    State Disk (Option ℕ) → ℕ → Disk → Option ℕ × Block → Result (Option ℕ × Disk)
alloc_next rest a d (none, b) = rest (update d a b)
alloc_next rest a d (some p, b) = ok (some p, update d a b)

-- The loop of `alloc` over the `n` blocks from `block_id` on.
unfoldable pub alloc_loop : ℕ → ℕ → ℕ → State Disk (Option ℕ)
unfolding alloc_in alloc_next
alloc_loop zero block_id start d = ok (none, d)
alloc_loop (suc n) block_id start d =
    alloc_next (alloc_loop n (block_id + 1) start) (block_id + start) d
      (alloc_in block_id (d (block_id + start)))

unfoldable pub alloc : Bitmap → State Disk (Option ℕ)
unfolding alloc_loop
alloc m = alloc_loop m.blocks 0 m.start_block_id

-- `-=` cannot wrap behind the assertion.
unfoldable pub dealloc : Bitmap → ℕ → State Disk (Unit {0})
unfolding decomposition
dealloc m n = do
  let (block_pos, bits64_pos, inner_pos) = decomposition n
  b ← gets (λ d. d (block_pos + m.start_block_id))
  let w = get_u64 b (8 * bits64_pos)
  assert (ltb 0 (bit_and w (2 ^ inner_pos)))
  modify (λ d.
      update d (block_pos + m.start_block_id) (put_u64 b (8 * bits64_pos) (w - 2 ^ inner_pos)))

unfoldable pub maximum : Bitmap → ℕ
maximum m = m.blocks * block_bits

-- Bit `r` of a block.
unfoldable pub block_bit : Block → ℕ → ℕ
unfolding bit
block_bit b r = bit (get_u64 b (8 * (r / 64))) (r % 64)

-- Bit `n` of a bitmap, as the disk holds it.
unfoldable pub bit_at : Bitmap → Disk → ℕ → ℕ
bit_at m d n = block_bit (d (n / block_bits + m.start_block_id)) (n % block_bits)
