-- ===== src/EasyFs/Layout/DirEntry.antt =====
-- `DirEntry` of easy-fs/src/layout.rs: a name of 28 bytes and an inode number, 32 bytes together.
-- A `str` is the list of its bytes.
pub mod Utf8
pub mod Roundtrip
use r_core_tutorial_code.Base.{
  ℕ, zero, suc, ◌+◌, ◌-◌, ◌≤◌, ◌<◌, Option, none, some, List, [], ◌∷◌, Result, ok, panic, leb, ltb,
  ◌==◌, if◌then◌else◌, length, get_or, tabulate, Bool, true, false,
}
use r_core_tutorial_code.EasyFs.Block.{get_u32, get_word, byte_at}
use r_core_tutorial_code.EasyFs.Layout.DirEntry.Utf8.{is_utf8}

-- `NAME_LENGTH_LIMIT` and `DIRENT_SZ`
abbrev pub name_length_limit : ℕ
name_length_limit = 27

abbrev pub dirent_sz : ℕ
dirent_sz = 32

pub record DirEntry : Type 0 where
  pub name : ℕ → ℕ
  pub inode_number : ℕ

-- `DirEntry::empty`
unfoldable pub empty : DirEntry
empty = record { name = λ _. 0; inode_number = 0 }

-- `DirEntry::new`; the slice of the 28 bytes panics for a longer name.
unfoldable pub new : List ℕ → ℕ → Result DirEntry
new name inode_number =
    if leb (length name) (name_length_limit + 1)
    then ok (record { name = λ i. get_or name i 0; inode_number = inode_number })
    else panic

-- `as_bytes`, as a buffer of 32 bytes.
unfoldable pub as_bytes : DirEntry → ℕ → ℕ
as_bytes e p = if ltb p 28 then e.name p else byte_at e.inode_number (p - 28)

-- The entry whose bytes `as_bytes_mut` has had written.
unfoldable pub of_bytes : (ℕ → ℕ) → DirEntry
of_bytes b = record { name = b; inode_number = get_u32 b 28 }

-- The search for the NUL, over the `n` bytes from `i` on.
unfoldable pub find_nul : ℕ → ℕ → (ℕ → ℕ) → Option ℕ
find_nul zero i name = none
find_nul (suc n) i name = let rest = find_nul n (i + 1) name in if name i == 0 then some i else rest

-- `core::str::from_utf8(..).unwrap()`
unfoldable pub from_utf8 : List ℕ → Result (List ℕ)
from_utf8 s = if is_utf8 s then ok s else panic

-- `DirEntry::name`; without a NUL the search runs out of the array.
unfoldable pub name_of : DirEntry → Result (List ℕ)
unfolding from_utf8
name_of e = elim (find_nul (name_length_limit + 1) 0 e.name) [
  | none ↦ panic
  | some len ↦ from_utf8 (tabulate len 0 e.name)
]
