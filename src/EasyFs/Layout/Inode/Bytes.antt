-- ===== src/EasyFs/Layout/Inode/Bytes.antt =====
-- A disk inode survives being stored in a block.
use r_core_tutorial_code.Base.{ℕ, zero, suc, ◌+◌, ◌*◌, ◌^◌, ◌<◌, ◌≤◌, ◌≡◌, refl, ◌∙◌, ap, arith}
use r_core_tutorial_code.EasyFs.Block.{
  Block, get_u32, put_u32, put_word, get_word-put_word, get_word-put_word_ne,
}
use r_core_tutorial_code.EasyFs.Layout.Inode.{
  DiskInode, DiskInodeType, initialize, file, directory, type_of_byte, byte_of_type, put_words,
  decode, encode,
}

-- All numbers are `u32`.
pub record IsU32 (n : DiskInode) : Type 0 where
  pub size : n.size < 2 ^ 32
  pub direct : (i : ℕ) → i < 27 → n.direct i < 2 ^ 32
  pub indirect1 : n.indirect1 < 2 ^ 32
  pub indirect2 : n.indirect2 < 2 ^ 32
  pub indirect3 : n.indirect3 < 2 ^ 32

-- The words of `put_words`, and those around them.
put_words_outside :
    (n i : ℕ) (b : Block) (o q : ℕ) (f : ℕ → ℕ)
    → (q + 4 ≤ o + 4 * i)
    → get_u32 (put_words n i b o f) q ≡ get_u32 b q
unfolding put_words
put_words_outside zero i b o q f h = refl
put_words_outside (suc n) i b o q f h =
    put_words_outside n (i + 1) (put_u32 b (o + 4 * i) (f i)) o q f (omega arith)
    ∙ get_word-put_word_ne 4 4 b (o + 4 * i) (f i) q (omega arith)

put_words_at :
    (n i : ℕ) (b : Block) (o k : ℕ) (f : ℕ → ℕ)
    → k < n
    → f (i + k) < 2 ^ 32
    → get_u32 (put_words n i b o f) (o + 4 * (i + k)) ≡ f (i + k)
unfolding put_words
put_words_at zero i b o k f lt small = absurd (omega arith)
put_words_at (suc n) i b o zero f lt small =
    let e : i + 0 ≡ i = omega arith in
    rw e (
      put_words_outside n (i + 1) (put_u32 b (o + 4 * i) (f i)) o (o + 4 * i) f (omega arith)
      ∙ get_word-put_word 4 b (o + 4 * i) (f i) (rw e at small))
put_words_at (suc n) i b o (suc k) f lt small =
    let e : i + suc k ≡ i + 1 + k = omega arith in
    rw e (put_words_at n (i + 1) (put_u32 b (o + 4 * i) (f i)) o k f (omega arith) (rw e at small))

byte_of_type-lt : (t : DiskInodeType) → byte_of_type t < 256 ^ 1
unfolding byte_of_type
byte_of_type-lt file = omega arith
byte_of_type-lt directory = omega arith

type_of_byte-byte_of_type : (t : DiskInodeType) → type_of_byte (byte_of_type t) ≡ t
unfolding byte_of_type type_of_byte
type_of_byte-byte_of_type file = refl
type_of_byte-byte_of_type directory = refl

module _ (b : Block) (o : ℕ) where
  -- The words that `encode` writes last do not touch a word before them.
  before :
      (c : Block) (q v w x y : ℕ)
      → q + 4 ≤ o + 112
      → get_u32
          (put_word 1
            (put_u32 (put_u32 (put_u32 c (o + 112) v) (o + 116) w) (o + 120) x)
            (o + 124)
            y)
          q
        ≡ get_u32 c q
  before c q v w x y h =
      get_word-put_word_ne 4 1 _ (o + 124) y q (omega arith)
      ∙ get_word-put_word_ne 4 4 _ (o + 120) x q (omega arith)
      ∙ get_word-put_word_ne 4 4 _ (o + 116) w q (omega arith)
      ∙ get_word-put_word_ne 4 4 c (o + 112) v q (omega arith)

  words :
      (n : DiskInode) (i : ℕ)
      → i < 27
      → n.direct i < 2 ^ 32
      → get_u32 (put_words 27 0 (put_u32 b o n.size) (o + 4) n.direct) (o + 4 + 4 * i) ≡ n.direct i
  words n i lt small =
      let e : 0 + i ≡ i = omega arith in
      rw e at (put_words_at 27 0 (put_u32 b o n.size) (o + 4) i n.direct lt (rw e small))

pub decode-encode_size :
    (b : Block) (o : ℕ) (n : DiskInode) → n.size < 2 ^ 32 → (decode (encode b o n) o).size ≡ n.size
unfolding decode encode
decode-encode_size b o n h =
    before b o _ o n.indirect1 n.indirect2 n.indirect3 (byte_of_type n.type_) (omega arith)
    ∙ put_words_outside 27 0 (put_u32 b o n.size) (o + 4) o n.direct (omega arith)
    ∙ get_word-put_word 4 b o n.size h

-- A disk inode of `u32` numbers that is assigned to bytes of a block is read back: its size, its
-- 27 direct entries, its three indirect ones and its type.
pub decode-encode_inode :
    (b : Block) (o : ℕ) (n : DiskInode)
    → IsU32 n
    → ((decode (encode b o n) o).size ≡ n.size)
      × ((i : ℕ) → i < 27 → (decode (encode b o n) o).direct i ≡ n.direct i)
      × ((decode (encode b o n) o).indirect1 ≡ n.indirect1)
      × ((decode (encode b o n) o).indirect2 ≡ n.indirect2)
      × ((decode (encode b o n) o).indirect3 ≡ n.indirect3)
      × ((decode (encode b o n) o).type_ ≡ n.type_)
unfolding decode encode
decode-encode_inode b o n h = (
  decode-encode_size b o n h.size,
  λ i lt.
      before b o _ (o + 4 + 4 * i) n.indirect1 n.indirect2 n.indirect3 (byte_of_type n.type_)
        (omega arith)
      ∙ words b o n i lt (h.direct i lt),
  get_word-put_word_ne 4 1 _ (o + 124) _ (o + 112) (omega arith)
      ∙ get_word-put_word_ne 4 4 _ (o + 120) _ (o + 112) (omega arith)
      ∙ get_word-put_word_ne 4 4 _ (o + 116) _ (o + 112) (omega arith)
      ∙ get_word-put_word 4 _ (o + 112) n.indirect1 h.indirect1,
  get_word-put_word_ne 4 1 _ (o + 124) _ (o + 116) (omega arith)
      ∙ get_word-put_word_ne 4 4 _ (o + 120) _ (o + 116) (omega arith)
      ∙ get_word-put_word 4 _ (o + 116) n.indirect2 h.indirect2,
  get_word-put_word_ne 4 1 _ (o + 124) _ (o + 120) (omega arith)
      ∙ get_word-put_word 4 _ (o + 120) n.indirect3 h.indirect3,
  ap type_of_byte (get_word-put_word 1 _ (o + 124) (byte_of_type n.type_) (byte_of_type-lt n.type_))
      ∙ type_of_byte-byte_of_type n.type_,
)

pub initialize-IsU32 : (t : DiskInodeType) → IsU32 (initialize t)
unfolding initialize
initialize-IsU32 t = record {
  size = omega arith;
  direct = λ i lt. omega arith;
  indirect1 = omega arith;
  indirect2 = omega arith;
  indirect3 = omega arith;
}
