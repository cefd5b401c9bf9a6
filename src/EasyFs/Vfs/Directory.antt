-- ===== src/EasyFs/Vfs/Directory.antt =====
-- The directory: `find` and `create` against the list that `ls` gives.
use r_core_tutorial_code.Base.{
  ℕ, zero, suc, ◌+◌, ◌*◌, ◌/◌, ◌<◌, ◌≤◌, ◌≡◌, refl, ap, ◌∙◌, sym, arith, Bool, true, false,
  Bool-cases, inl, inr, ◌⊎◌, Option, none, some, List, [], ◌∷◌, Result, ok, panic, out_of_fuel,
  pure, assert, ◌>>=◌, ◌>>◌, ◌==◌, ◌||◌, ==→eq, leb,
}
use r_core_tutorial_code.Base.Keeps.{
  Keeps, pure-Keeps, assert-Keeps, bind-Keeps, then-Keeps, and_then-ok,
}
use r_core_tutorial_code.EasyFs.Block.{Disk}
use r_core_tutorial_code.EasyFs.Layout.Inode as OnDisk
use r_core_tutorial_code.EasyFs.Layout.Inode.{DiskInode, is_dir}
use r_core_tutorial_code.EasyFs.Layout.Data
use r_core_tutorial_code.EasyFs.Layout.Data.Keeps.{read_at-Keeps}
use r_core_tutorial_code.EasyFs.Layout.DirEntry
use r_core_tutorial_code.EasyFs.Layout.DirEntry.{DirEntry, dirent_sz, as_bytes, of_bytes, name_of}
use r_core_tutorial_code.EasyFs.Efs.{EasyFileSystem, get_disk_inode_pos}
use r_core_tutorial_code.EasyFs.Vfs.{
  Inode, new, lift, same_name, read_entry, find_loop, find_inode_id, inode_of, find, create,
  ls_loop, ls, read_disk_inode,
}

-- Whether a list of names has a name.
unfoldable pub listed : List ℕ → List (List ℕ) → Bool
listed name [] = false
listed name (s ∷ names) = same_name s name || listed name names

same_name→eq : (s t : List ℕ) → same_name s t ≡ true → s ≡ t
unfolding same_name
same_name→eq [] [] h = refl
same_name→eq [] (y ∷ t) h = absurd cc
same_name→eq (x ∷ s) [] h = absurd cc
same_name→eq (x ∷ s) (y ∷ t) h = elim (Bool-cases (x == y)) [
  | inl e ↦
      let p : x ≡ y = ==→eq _ _ e in let q : s ≡ t = same_name→eq s t (rw e at h) in rw (p, q) refl
  | inr e ↦ let f : false ≡ true = rw e at h in absurd cc
]

read_entry-Keeps : (n : DiskInode) (i : ℕ) → Keeps (read_entry n i)
unfolding read_entry
read_entry-Keeps n i =
    bind-Keeps (Data.read_at n (dirent_sz * i) dirent_sz (as_bytes DirEntry.empty))
      (λ r. assert (r.0 == dirent_sz) >> pure (of_bytes r.1))
      (read_at-Keeps n (dirent_sz * i) dirent_sz (as_bytes DirEntry.empty))
      (λ r.
        then-Keeps (assert (r.0 == dirent_sz)) (pure (of_bytes r.1)) (assert-Keeps _)
          (pure-Keeps _))

-- The outcome of a search for a name in the entries from `i` on.
abbrev pub Searched :
    DiskInode → (lo hi : ℕ) → List ℕ → Disk → Bool → Result (Option ℕ × Disk) → Type 0
Searched n lo hi name d there res =
    ((there ≡ false) × (res ≡ ok (none, d)))
    ⊎ ((there ≡ true)
        × ((k : ℕ) × (dirent : DirEntry) × (res ≡ ok (some dirent.inode_number, d))
            × (lo ≤ k)
            × (k < hi)
            × (read_entry n k d ≡ ok (dirent, d))
            × (name_of dirent ≡ ok name)))

lift-ok :
    {A : Type 0} (r : Result A) (d : Disk) (a : A) (e : Disk)
    → lift r d ≡ ok (a, e)
    → (r ≡ ok a) × (e ≡ d)
lift-ok (ok x) d a e h = (cc, cc)
lift-ok panic d a e h = absurd cc
lift-ok out_of_fuel d a e h = absurd cc

-- What a round of `ls` that returns has read.
ls_loop-suc :
    (count i : ℕ) (n : DiskInode) (d e : Disk) (names : List (List ℕ))
    → ls_loop (suc count) i n d ≡ ok (names, e)
    → (dirent : DirEntry) × (s : List ℕ) × (rest : List (List ℕ)) × (read_entry n i d
        ≡ ok (dirent, d))
      × (name_of dirent ≡ ok s)
      × (ls_loop count (i + 1) n d ≡ ok (rest, e))
      × (names ≡ s ∷ rest)
unfolding ls_loop
ls_loop-suc count i n d e names h =
    let tail = λ (s : List ℕ). ls_loop count (i + 1) n >>= (λ rest. pure (s ∷ rest)) in
    let (dirent, d1, q, h1) =
      and_then-ok (read_entry n i d) (λ dirent. lift (name_of dirent) >>= tail) names e h in
    let (s, d2, q2, h2) = and_then-ok (lift (name_of dirent) d1) tail names e h1 in
    let (name, same) = lift-ok (name_of dirent) d1 s d2 q2 in
    let kept = read_entry-Keeps n i d dirent d1 q in
    let d2_d = same ∙ kept in
    let (rest, d3, q3, h3) =
      and_then-ok (ls_loop count (i + 1) n d2) (λ rest. pure (s ∷ rest)) names e h2 in
    let list : s ∷ rest ≡ names = cc in
    let last : d3 ≡ e = cc in
    (
      dirent,
      s,
      rest,
      q ∙ ap (λ x. ok (dirent, x)) kept,
      name,
      ap (ls_loop count (i + 1) n) (sym d2_d) ∙ q3 ∙ ap (λ x. ok (rest, x)) last,
      sym list,
    )

-- Each entry that `ls` reads, `find` reads as well.
find_loop_lem :
    (count i : ℕ) (name : List ℕ) (n : DiskInode) (d e : Disk) (names : List (List ℕ))
    → ls_loop count i n d ≡ ok (names, e)
    → Searched n i (i + count) name d (listed name names) (find_loop count i name n d)
unfolding ls_loop find_loop listed
find_loop_lem zero i name n d e names h =
    let nil : ◌≡◌ {A = List (List ℕ)} [] names = cc in inl (rw (← nil) refl, refl)
find_loop_lem (suc count) i name n d e names h =
    let (dirent, s, rest, read, named, more, list) = ls_loop-suc count i n d e names h in
    let ih = find_loop_lem count (i + 1) name n d e rest more in
    elim (Bool-cases (same_name s name)) [
      | inl x ↦ inr (
        rw (list, x) refl,
        (
          i,
          dirent,
          rw (find_loop, read, named, x) refl,
          omega arith,
          omega arith,
          read,
          named ∙ ap ok (same_name→eq s name x),
        ),
      )
      | inr x ↦ elim ih [
        | inl (absent, res) ↦ inl (rw (list, x) absent, rw (find_loop, read, named, x) res)
        | inr (present, (k, dirent', res, lo, hi, read', named')) ↦ inr (
          rw (list, x) present,
          (k, dirent', rw (find_loop, read, named, x) res, omega arith, omega arith, read', named'),
        )
      ]
    ]

-- The inode of the directory as it is stored.
abbrev pub stored : Inode → Disk → DiskInode
stored self d = OnDisk.decode (d self.block_id) self.block_offset

-- A listing that returns is one of the entries of the inode, which lies inside of its block.
ls-ok :
    (self : Inode) (d e : Disk) (names : List (List ℕ))
    → ls self d ≡ ok (names, e)
    → (leb (self.block_offset + 128) 512 ≡ true)
      × (ls_loop ((stored self d).size / 32) 0 (stored self d) d ≡ ok (names, e))
unfolding ls read_disk_inode
ls-ok self d e names h = elim (Bool-cases (leb (self.block_offset + 128) 512)) [
  | inl x ↦ (x, rw x at h)
  | inr x ↦
      let f : ◌≡◌ {A = Result (List (List ℕ) × Disk)} panic (ok (names, e)) = rw x at h in absurd cc
]

-- For an inode of a directory of which `ls` returns the names, `find` does not panic and leaves
-- the disk: if the name is not listed, it returns `None`, and if it is listed, it returns the
-- inode of an entry of the directory that has the name.
pub find-ls :
    (fs : EasyFileSystem) (self : Inode) (name : List ℕ) (d e : Disk) (names : List (List ℕ))
    → is_dir (stored self d) ≡ true
    → ls self d ≡ ok (names, e)
    → ((listed name names ≡ false) × (find fs self name d ≡ ok (none, d)))
      ⊎ ((listed name names ≡ true)
          × ((k : ℕ) × (dirent : DirEntry) × (find fs self name d
                ≡ ok (some (new (get_disk_inode_pos fs dirent.inode_number)), d))
              × (k < (stored self d).size / 32)
              × (read_entry (stored self d) k d ≡ ok (dirent, d))
              × (name_of dirent ≡ ok name)))
unfolding find read_disk_inode find_inode_id inode_of
find-ls fs self name d e names dir h =
    let (inside, listing) = ls-ok self d e names h in
    elim (find_loop_lem ((stored self d).size / 32) 0 name (stored self d) d e names listing) [
      | inl (absent, res) ↦ inl (absent, rw (find, inside, dir, res) refl)
      | inr (present, (k, dirent, res, lo, hi, read, named)) ↦
          inr (present, (k, dirent, rw (find, inside, dir, res) refl, omega arith, read, named))
    ]

-- For an inode of a directory of which `ls` returns the names, with a name among them, `create` of
-- that name returns `None` and leaves the disk.
pub create_existing :
    (fs : EasyFileSystem) (self : Inode) (name : List ℕ) (d e : Disk) (names : List (List ℕ))
    → is_dir (stored self d) ≡ true
    → ls self d ≡ ok (names, e)
    → listed name names ≡ true
    → create fs self name d ≡ ok (none, d)
unfolding create read_disk_inode find_inode_id
create_existing fs self name d e names dir h there =
    let (inside, listing) = ls-ok self d e names h in
    elim (find_loop_lem ((stored self d).size / 32) 0 name (stored self d) d e names listing) [
      | inl (absent, res) ↦ absurd cc
      | inr (present, (k, dirent, res, lo, hi, read, named)) ↦ rw (create, inside, dir, res) refl
    ]
