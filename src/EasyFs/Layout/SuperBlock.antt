-- ===== src/EasyFs/Layout/SuperBlock.antt =====
-- `SuperBlock` of easy-fs/src/layout.rs, with its bytes (`#[repr(C)]`, six `u32`).
use r_core_tutorial_code.Base.{ℕ, ◌+◌, ◌^◌, ◌<◌, ◌≤◌, ◌≡◌, ◌∙◌, Bool, ◌==◌, arith}
use r_core_tutorial_code.EasyFs.Block.{
  Block, get_u32, put_u32, get_word-put_word, get_word-put_word_ne,
}

-- `EFS_MAGIC`
abbrev pub efs_magic : ℕ
efs_magic = 0x3b800001

pub record SuperBlock : Type 0 where
  pub magic : ℕ
  pub total_blocks : ℕ
  pub inode_bitmap_blocks : ℕ
  pub inode_area_blocks : ℕ
  pub data_bitmap_blocks : ℕ
  pub data_area_blocks : ℕ

-- `SuperBlock::initialize`
unfoldable pub initialize : ℕ → ℕ → ℕ → ℕ → ℕ → SuperBlock
initialize total inode_bitmap inode_area data_bitmap data_area = record {
  magic = efs_magic;
  total_blocks = total;
  inode_bitmap_blocks = inode_bitmap;
  inode_area_blocks = inode_area;
  data_bitmap_blocks = data_bitmap;
  data_area_blocks = data_area;
}

unfoldable pub is_valid : SuperBlock → Bool
is_valid s = s.magic == efs_magic

-- The view of a block as a super block.
unfoldable pub decode : Block → SuperBlock
decode b = record {
  magic = get_u32 b 0;
  total_blocks = get_u32 b 4;
  inode_bitmap_blocks = get_u32 b 8;
  inode_area_blocks = get_u32 b 12;
  data_bitmap_blocks = get_u32 b 16;
  data_area_blocks = get_u32 b 20;
}

-- An assignment through that view.
unfoldable pub encode : Block → SuperBlock → Block
encode b s =
    put_u32
      (put_u32
        (put_u32 (put_u32 (put_u32 (put_u32 b 0 s.magic) 4 s.total_blocks) 8 s.inode_bitmap_blocks)
          12 s.inode_area_blocks)
        16 s.data_bitmap_blocks)
      20 s.data_area_blocks

-- All fields are `u32`.
pub record IsU32 (s : SuperBlock) : Type 0 where
  pub magic : s.magic < 2 ^ 32
  pub total_blocks : s.total_blocks < 2 ^ 32
  pub inode_bitmap_blocks : s.inode_bitmap_blocks < 2 ^ 32
  pub inode_area_blocks : s.inode_area_blocks < 2 ^ 32
  pub data_bitmap_blocks : s.data_bitmap_blocks < 2 ^ 32
  pub data_area_blocks : s.data_area_blocks < 2 ^ 32

-- A word before the one that is written.
pass : (b : Block) (o v q : ℕ) → q + 4 ≤ o → get_u32 (put_u32 b o v) q ≡ get_u32 b q
pass b o v q h = get_word-put_word_ne 4 4 b o v q (omega arith)

own : (b : Block) (o v : ℕ) → v < 2 ^ 32 → get_u32 (put_u32 b o v) o ≡ v
own b o v h = get_word-put_word 4 b o v (omega arith)

-- Super blocks with equal fields are equal.
SuperBlock_ext :
    (s t : SuperBlock)
    → s.magic ≡ t.magic
    → s.total_blocks ≡ t.total_blocks
    → s.inode_bitmap_blocks ≡ t.inode_bitmap_blocks
    → s.inode_area_blocks ≡ t.inode_area_blocks
    → s.data_bitmap_blocks ≡ t.data_bitmap_blocks
    → s.data_area_blocks ≡ t.data_area_blocks
    → s ≡ t
SuperBlock_ext s t p q r u v w = λ i. record {
  magic = p i;
  total_blocks = q i;
  inode_bitmap_blocks = r i;
  inode_area_blocks = u i;
  data_bitmap_blocks = v i;
  data_area_blocks = w i;
}

-- A super block of `u32` numbers that is assigned to a block is read back.
pub decode-encode : (b : Block) (s : SuperBlock) → IsU32 s → decode (encode b s) ≡ s
unfolding decode encode
decode-encode b s h =
    SuperBlock_ext (decode (encode b s)) s
      (pass _ 20 s.data_area_blocks 0 (omega arith)
        ∙ pass _ 16 s.data_bitmap_blocks 0 (omega arith)
        ∙ pass _ 12 s.inode_area_blocks 0 (omega arith)
        ∙ pass _ 8 s.inode_bitmap_blocks 0 (omega arith)
        ∙ pass _ 4 s.total_blocks 0 (omega arith)
        ∙ own _ 0 s.magic h.magic)
      (pass _ 20 s.data_area_blocks 4 (omega arith)
        ∙ pass _ 16 s.data_bitmap_blocks 4 (omega arith)
        ∙ pass _ 12 s.inode_area_blocks 4 (omega arith)
        ∙ pass _ 8 s.inode_bitmap_blocks 4 (omega arith)
        ∙ own _ 4 s.total_blocks h.total_blocks)
      (pass _ 20 s.data_area_blocks 8 (omega arith)
        ∙ pass _ 16 s.data_bitmap_blocks 8 (omega arith)
        ∙ pass _ 12 s.inode_area_blocks 8 (omega arith)
        ∙ own _ 8 s.inode_bitmap_blocks h.inode_bitmap_blocks)
      (pass _ 20 s.data_area_blocks 12 (omega arith)
        ∙ pass _ 16 s.data_bitmap_blocks 12 (omega arith)
        ∙ own _ 12 s.inode_area_blocks h.inode_area_blocks)
      (pass _ 20 s.data_area_blocks 16 (omega arith)
        ∙ own _ 16 s.data_bitmap_blocks h.data_bitmap_blocks)
      (own _ 20 s.data_area_blocks h.data_area_blocks)
