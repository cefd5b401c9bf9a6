-- ===== src/EasyFs/Layout/DirEntry/Roundtrip.antt =====
-- Names and entries survive being stored, and what happens to names that are too long.
use r_core_tutorial_code.Base.{
  ℕ, zero, suc, ◌+◌, ◌≤◌, ◌<◌, ◌≡◌, ◌≢◌, none, some, List, [], ◌∷◌, ok, panic, leb, length, get_or,
  tabulate, true, arith, refl, ap, ◌∙◌, Bool-cases, inl, inr, le→leb, ne→==, eq→==, ◌⊎◌,
}
use r_core_tutorial_code.EasyFs.Layout.DirEntry.Utf8.{is_utf8}
use r_core_tutorial_code.EasyFs.Layout.DirEntry.{DirEntry, new, name_of, find_nul, from_utf8}

-- No byte of a name is NUL.
abbrev pub NoNul : List ℕ → Type 0
NoNul s = (i : ℕ) → i < length s → get_or s i 0 ≢ 0

-- The search finds the first NUL.
find_nul_at :
    (n i k : ℕ) (f : ℕ → ℕ)
    → k < n
    → ((j : ℕ) → j < k → f (i + j) ≢ 0)
    → f (i + k) ≡ 0
    → find_nul n i f ≡ some (i + k)
unfolding find_nul
find_nul_at zero i k f lt before z = absurd (omega arith)
find_nul_at (suc n) i zero f lt before z =
    let e : i + 0 ≡ i = omega arith in let z' : f i ≡ 0 = rw e at z in rw (eq→== (f i) 0 z', e)
find_nul_at (suc n) i (suc k) f lt before z =
    let e : i + 0 ≡ i = omega arith in
    let ne : f i ≢ 0 = rw e at (before 0 (omega arith)) in
    let q : i + suc k ≡ i + 1 + k = omega arith in
    rw (ne→== (f i) 0 ne, q)
      (find_nul_at n (i + 1) k f (omega arith)
        (λ j j_lt.
          let r : i + 1 + j ≡ i + suc j = omega arith in rw r (before (suc j) (omega arith)))
        (rw q at z))

-- Without a NUL it fails.
find_nul-none : (n i : ℕ) (f : ℕ → ℕ) → ((j : ℕ) → j < n → f (i + j) ≢ 0) → find_nul n i f ≡ none
unfolding find_nul
find_nul-none zero i f h = refl
find_nul-none (suc n) i f h =
    let e : i + 0 ≡ i = omega arith in
    let ne : f i ≢ 0 = rw e at (h 0 (omega arith)) in
    rw (ne→== (f i) 0 ne) (
      find_nul-none n (i + 1) f
        (λ j j_lt. let r : i + 1 + j ≡ i + suc j = omega arith in rw r (h (suc j) (omega arith))))

get_or_beyond : (s : List ℕ) (i : ℕ) → length s ≤ i → get_or s i 0 ≡ 0
get_or_beyond [] i h = refl
get_or_beyond (x ∷ s) zero h = absurd (omega arith)
get_or_beyond (x ∷ s) (suc i) h = get_or_beyond s i (omega arith)

tabulate_shift :
    (n i : ℕ) (f g : ℕ → ℕ)
    → ((j : ℕ) → f (i + 1 + j) ≡ g (i + j))
    → tabulate n (i + 1) f ≡ tabulate n i g
tabulate_shift zero i f g h = refl
tabulate_shift (suc n) i f g h =
    let e : i + 1 + 0 ≡ i + 1 = omega arith in
    let e' : i + 0 ≡ i = omega arith in
    let first : f (i + 1) ≡ g i = rw (e, e') at (h 0) in
    rw first (
      ap (λ t. g i ∷ t)
        (tabulate_shift n (i + 1) f g (λ j.
          let q : i + 1 + 1 + j ≡ i + 1 + (1 + j) = omega arith in
          let r : i + 1 + j ≡ i + (1 + j) = omega arith in rw (q, r) (h (1 + j)))))

tabulate-get_or : (s : List ℕ) → tabulate (length s) 0 (λ i. get_or s i 0) ≡ s
tabulate-get_or [] = refl
tabulate-get_or (x ∷ s) =
    ap (λ t. x ∷ t)
      (tabulate_shift (length s) 0 (λ i. get_or (x ∷ s) i 0) (λ i. get_or s i 0)
          (λ j.
            let e : 0 + 1 + j ≡ suc j = omega arith in
            let e' : 0 + j ≡ j = omega arith in rw (e, e'))
        ∙ tabulate-get_or s)

-- A name of at most 27 bytes, none of them NUL, that is valid UTF-8 can be stored in an entry, and
-- the entry has this name and the inode number it was given.
pub name_of-new :
    (s : List ℕ) (inode_number : ℕ)
    → length s ≤ 27
    → NoNul s
    → is_utf8 s ≡ true
    → (e : DirEntry) × (new s inode_number ≡ ok e)
      × (name_of e ≡ ok s)
      × (e.inode_number ≡ inode_number)
unfolding new name_of
name_of-new s k le no_nul valid =
    let f = λ (i : ℕ). get_or s i 0 in
    let q : 0 + length s ≡ length s = omega arith in
    let found : find_nul 28 0 f ≡ some (length s) =
      find_nul_at 28 0 (length s) f (omega arith)
        (λ j lt. let r : 0 + j ≡ j = omega arith in rw r (no_nul j lt))
        (rw q (get_or_beyond s (length s) (omega arith)))
      ∙ ap some q in
    (
      record { name = f; inode_number = k },
      rw (le→leb (length s) 28 (omega arith)),
      rw (name_of, found, from_utf8, tabulate-get_or, valid) refl,
      refl,
    )

-- A name of 28 bytes, none of them NUL, is stored, but reading it back panics; a longer one cannot
-- be stored without a panic.
pub name_too_long :
    (s : List ℕ) (inode_number : ℕ)
    → 27 < length s
    → NoNul s
    → ((length s ≡ 28) × ((e : DirEntry) × (new s inode_number ≡ ok e) × (name_of e ≡ panic)))
      ⊎ ((28 < length s) × (new s inode_number ≡ panic))
unfolding new name_of
name_too_long s k lt no_nul = elim (Bool-cases (leb (length s) 28)) [
  | inl x ↦
      let f = λ (i : ℕ). get_or s i 0 in
      let len : length s ≡ 28 = ground arith in
      let out : find_nul 28 0 f ≡ none =
        find_nul-none 28 0 f
          (λ j j_lt. let r : 0 + j ≡ j = omega arith in rw r (no_nul j (omega arith))) in
      inl (len, (record { name = f; inode_number = k }, rw x, rw (name_of, out) refl))
  | inr x ↦ inr (ground arith, rw x)
]
