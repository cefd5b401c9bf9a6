-- ===== src/EasyFs/Layout/Inode.antt =====
-- `DiskInode` of easy-fs/src/layout.rs, with its bytes (`#[repr(C)]`, 128 of them).
pub mod Bytes
use r_core_tutorial_code.Base.{
  ℕ, zero, suc, ◌+◌, ◌*◌, ◌-◌, ◌/◌, ◌%◌, ◌^◌, ◌<◌, ◌≤◌, ◌≡◌, refl, Bool, true, false, ◌==◌,
  if◌then◌else◌, arith, ltb, ◌&&◌, leb,
}
use r_core_tutorial_code.EasyFs.Block.{
  Block, get_u32, put_u32, get_word, put_word, get_word-put_word, get_word-put_word_ne,
}

-- `INODE_DIRECT_COUNT`, `INODE_INDIRECT1_COUNT` and so on.
abbrev pub inode_direct_count : ℕ
inode_direct_count = 27

abbrev pub inode_indirect1_count : ℕ
inode_indirect1_count = 128

abbrev pub inode_indirect2_count : ℕ
inode_indirect2_count = 16384

abbrev pub inode_indirect3_count : ℕ
inode_indirect3_count = 2097152

abbrev pub direct_bound : ℕ
direct_bound = 27

abbrev pub indirect1_bound : ℕ
indirect1_bound = 155

abbrev pub indirect2_bound : ℕ
indirect2_bound = 16539

pub data DiskInodeType : Type 0 where
  file directory : DiskInodeType

-- The 27 direct entries are a function of the index.
pub record DiskInode : Type 0 where
  pub size : ℕ
  pub direct : ℕ → ℕ
  pub indirect1 : ℕ
  pub indirect2 : ℕ
  pub indirect3 : ℕ
  pub type_ : DiskInodeType

-- `DiskInode::initialize`
unfoldable pub initialize : DiskInodeType → DiskInode
initialize t = record {
  size = 0;
  direct = λ _. 0;
  indirect1 = 0;
  indirect2 = 0;
  indirect3 = 0;
  type_ = t;
}

is_directory : DiskInodeType → Bool
is_directory directory = true
is_directory file = false

unfoldable pub is_dir : DiskInode → Bool
unfolding is_directory
is_dir n = is_directory n.type_

unfoldable pub is_file : DiskInode → Bool
unfolding is_directory
is_file n = if is_directory n.type_ then false else true

-- `mem::size_of::<DiskInode>()`
abbrev pub inode_size : ℕ
inode_size = 128

-- The discriminant of the type is a byte.
unfoldable pub type_of_byte : ℕ → DiskInodeType
type_of_byte v = if v == 1 then directory else file

unfoldable pub byte_of_type : DiskInodeType → ℕ
byte_of_type file = 0
byte_of_type directory = 1

-- The view of the bytes at an offset as a disk inode, and an assignment through that view.
unfoldable pub decode : Block → ℕ → DiskInode
unfolding type_of_byte
decode b o = record {
  size = get_u32 b o;
  direct = λ i. get_u32 b (o + 4 + 4 * i);
  indirect1 = get_u32 b (o + 112);
  indirect2 = get_u32 b (o + 116);
  indirect3 = get_u32 b (o + 120);
  type_ = type_of_byte (get_word 1 b (o + 124));
}

-- `n` words, from index `i` on.
unfoldable pub put_words : ℕ → ℕ → Block → ℕ → (ℕ → ℕ) → Block
put_words zero i b o f = b
put_words (suc n) i b o f = put_words n (i + 1) (put_u32 b (o + 4 * i) (f i)) o f

unfoldable pub encode : Block → ℕ → DiskInode → Block
unfolding put_words byte_of_type
encode b o n =
    put_word 1
      (put_u32
        (put_u32
          (put_u32 (put_words 27 0 (put_u32 b o n.size) (o + 4) n.direct) (o + 112) n.indirect1)
          (o + 116) n.indirect2)
        (o + 120) n.indirect3)
      (o + 124) (byte_of_type n.type_)
