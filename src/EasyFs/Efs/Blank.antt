-- ===== src/EasyFs/Efs/Blank.antt =====
-- The disk that `create` has cleared, with its super block.
use r_core_tutorial_code.Base.{
  ℕ, zero, suc, ◌+◌, ◌*◌, ◌/◌, ◌%◌, ◌<◌, ◌≤◌, ◌≡◌, arith, refl, ◌∙◌, ap, inl, inr, update,
  update_at, update_ne, Bool-cases, ◌==◌, ==→eq, ==→ne,
}
use r_core_tutorial_code.Base.Bits.{bit}
use r_core_tutorial_code.EasyFs.Block.{Block, Disk, IsBytes, get_word, put_word-IsBytes}
use r_core_tutorial_code.EasyFs.Bitmap.{Bitmap, maximum, bit_at, block_bit}
use r_core_tutorial_code.EasyFs.Bitmap.Alloc.{IsDisk}
use r_core_tutorial_code.EasyFs.Layout.SuperBlock
use r_core_tutorial_code.EasyFs.Layout.SuperBlock.{SuperBlock, efs_magic, is_valid}
use r_core_tutorial_code.EasyFs.Efs.{sizes, clear_blocks}

-- `create` clears the blocks below its count.
clear_blocks_below : (n : ℕ) (d : Disk) (a : ℕ) → a < n → (o : ℕ) → clear_blocks n d a o ≡ 0
unfolding clear_blocks
clear_blocks_below zero d a lt o = absurd (omega arith)
clear_blocks_below (suc n) d a lt o = elim (Bool-cases (a == n)) [
  | inl x ↦ ap (λ b. b o) (update_at (clear_blocks n d) n (λ _. 0) a (==→eq _ _ x))
  | inr x ↦
      ap (λ b. b o) (update_ne (clear_blocks n d) n (λ _. 0) a (==→ne _ _ x))
      ∙ clear_blocks_below n d a (omega (arith, ==→ne _ _ x)) o
]

clear_blocks-IsDisk : (n : ℕ) (d : Disk) → IsDisk d → IsDisk (clear_blocks n d)
unfolding clear_blocks
clear_blocks-IsDisk zero d h a o = h a o
clear_blocks-IsDisk (suc n) d h a o = elim (Bool-cases (a == n)) [
  | inl x ↦
      let e = ap (λ b. b o) (update_at (clear_blocks n d) n (λ _. 0) a (==→eq _ _ x)) in omega arith
  | inr x ↦
      let e = ap (λ b. b o) (update_ne (clear_blocks n d) n (λ _. 0) a (==→ne _ _ x)) in
      let ih = clear_blocks-IsDisk n d h a o in omega arith
]

get_word_zero : (n : ℕ) (b : Block) (o : ℕ) → ((p : ℕ) → b p ≡ 0) → get_word n b o ≡ 0
unfolding get_word
get_word_zero zero b o h = refl
get_word_zero (suc n) b o h = omega (arith, h o, get_word_zero n b (o + 1) h)

bit_zero : (v k : ℕ) → v ≡ 0 → bit v k ≡ 0
unfolding bit
bit_zero v zero h = omega arith
bit_zero v (suc k) h = bit_zero (v / 2) k (omega arith)

-- No bit of a cleared block is set.
block_bit_zero : (b : Block) (r : ℕ) → ((p : ℕ) → b p ≡ 0) → block_bit b r ≡ 0
unfolding block_bit
block_bit_zero b r h =
    bit_zero (get_word 8 b (8 * (r / 64))) (r % 64) (get_word_zero 8 b (8 * (r / 64)) h)

-- The super block that `create` writes, and the disk once it has.
unfoldable pub super_block : (total ibb : ℕ) → SuperBlock
unfolding sizes
super_block total ibb =
    let s = sizes total ibb in
    SuperBlock.initialize total ibb s.inode_area_blocks s.data_bitmap_blocks s.data_area_blocks

unfoldable pub with_super_block : (total ibb : ℕ) (d : Disk) → Disk
unfolding super_block clear_blocks
with_super_block total ibb d =
    let c = clear_blocks total d in update c 0 (SuperBlock.encode (c 0) (super_block total ibb))

encode-IsBytes : (b : Block) (s : SuperBlock) → IsBytes b → IsBytes (SuperBlock.encode b s)
unfolding SuperBlock.encode
encode-IsBytes b s h = put_word-IsBytes 4 _ 20 s.data_area_blocks (
    put_word-IsBytes 4 _ 16 s.data_bitmap_blocks (
      put_word-IsBytes 4 _ 12 s.inode_area_blocks (
        put_word-IsBytes 4 _ 8 s.inode_bitmap_blocks
          (put_word-IsBytes 4 _ 4 s.total_blocks (put_word-IsBytes 4 b 0 s.magic h)))))

pub with_super_block-IsDisk :
    (total ibb : ℕ) (d : Disk) → IsDisk d → IsDisk (with_super_block total ibb d)
unfolding with_super_block
with_super_block-IsDisk total ibb d h a = elim (Bool-cases (a == 0)) [
  | inl x ↦
      let e = update_at c 0 s a (==→eq _ _ x) in
      rw e (encode-IsBytes (c 0) (super_block total ibb) (clear_blocks-IsDisk total d h 0))
  | inr x ↦ let e = update_ne c 0 s a (==→ne _ _ x) in rw e (clear_blocks-IsDisk total d h a)
]
  where
    c : Disk
    c = clear_blocks total d

    s : Block
    s = SuperBlock.encode (c 0) (super_block total ibb)

-- The other blocks are cleared.
with_super_block_at :
    (total ibb : ℕ) (d : Disk) (a : ℕ)
    → 0 < a
    → a < total
    → (o : ℕ) → with_super_block total ibb d a o ≡ 0
unfolding with_super_block
with_super_block_at total ibb d a pos lt o =
    ap (λ b. b o) (update_ne (clear_blocks total d) 0 _ a (omega arith))
    ∙ clear_blocks_below total d a lt o

-- So no bit of a bitmap is set that lies on the disk behind the super block.
pub bit_at-with_super_block :
    (m : Bitmap) (total ibb : ℕ) (d : Disk) (q : ℕ)
    → 0 < m.start_block_id
    → m.start_block_id + m.blocks ≤ total
    → q < maximum m
    → bit_at m (with_super_block total ibb d) q ≡ 0
unfolding bit_at maximum
bit_at-with_super_block m total ibb d q pos le lt =
    block_bit_zero _ (q % 4096)
      (with_super_block_at total ibb d (q / 4096 + m.start_block_id) (omega arith) (omega arith))
