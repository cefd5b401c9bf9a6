-- ===== src/Os/Mm/PageTable/Mapping.antt =====
-- `map`, `translate` and `unmap` where the tables of the page are there.
use r_core_tutorial_code.Base.{
  ℕ, ◌+◌, ◌%◌, ◌≡◌, ◌≢◌, refl, ap, sym, ◌∙◌, arith, true, false, some, ok, update, update_at,
  update_ne, bit_or, eq→==,
}
use r_core_tutorial_code.Base.Bits.{bit, bit_or-bit}
use r_core_tutorial_code.Os.Mm.Address.{indexes}
use r_core_tutorial_code.Os.Mm.PageTable.{
  Memory, Space, set_entry, is_valid, has_flag, flags_of, ppn_of, new_entry, find_pte, find_from,
  path, find_pte_create, find_create_from, map_page, unmap, translate, entry_at,
}

-- The page numbers of the second and of the third table on the way to a page.
abbrev pub mid : Memory → (root_ppn vpn : ℕ) → ℕ
mid m root vpn = ppn_of (m root (indexes vpn).0)

abbrev pub leaf : Memory → (root_ppn vpn : ℕ) → ℕ
leaf m root vpn = ppn_of (m (mid m root vpn) (indexes vpn).1)

-- Both are there, and the third is neither of the other two.
pub record HasTables (m : Memory) (root vpn : ℕ) : Type 0 where
  pub top : is_valid (m root (indexes vpn).0) ≡ true
  pub middle : is_valid (m (mid m root vpn) (indexes vpn).1) ≡ true
  pub not_root : root ≢ leaf m root vpn
  pub not_mid : mid m root vpn ≢ leaf m root vpn

find_pte-HasTables :
    (m : Memory) (root vpn : ℕ)
    → HasTables m root vpn
    → find_pte m root vpn ≡ some (leaf m root vpn, (indexes vpn).2)
unfolding find_pte path find_from
find_pte-HasTables m root vpn h = rw (find_pte, h.top, h.middle) refl

find_pte_create-HasTables :
    (s : Space) (root vpn : ℕ)
    → HasTables s.memory root vpn
    → find_pte_create root vpn s ≡ ok (some (leaf s.memory root vpn, (indexes vpn).2), s)
unfolding find_pte_create path find_create_from
find_pte_create-HasTables s root vpn h = rw (find_pte_create, h.top, h.middle) refl

set_entry_at : (m : Memory) (a i b : ℕ) → set_entry m a i b a i ≡ b
unfolding set_entry
set_entry_at m a i b =
    ap (λ t. t i) (update_at m a (update (m a) i b) a refl) ∙ update_at (m a) i b i refl

set_entry_ne : (m : Memory) (a i b c : ℕ) → c ≢ a → (j : ℕ) → set_entry m a i b c j ≡ m c j
unfolding set_entry
set_entry_ne m a i b c ne j = ap (λ t. t j) (update_ne m a (update (m a) i b) c ne)

-- A write to the third table leaves the walk.
module _ (m : Memory) (root vpn b : ℕ) (h : HasTables m root vpn) where
  written : Memory
  written = set_entry m (leaf m root vpn) (indexes vpn).2 b

  same_root : (j : ℕ) → written root j ≡ m root j
  unfolding written
  same_root = set_entry_ne m (leaf m root vpn) (indexes vpn).2 b root h.not_root

  same_mid : (j : ℕ) → written (mid m root vpn) j ≡ m (mid m root vpn) j
  unfolding written
  same_mid = set_entry_ne m (leaf m root vpn) (indexes vpn).2 b (mid m root vpn) h.not_mid

  mid-written : mid written root vpn ≡ mid m root vpn
  mid-written = ap ppn_of (same_root (indexes vpn).0)

  leaf-written : leaf written root vpn ≡ leaf m root vpn
  leaf-written =
      ap (λ t. ppn_of (written t (indexes vpn).1)) mid-written
      ∙ ap ppn_of (same_mid (indexes vpn).1)

  written-HasTables : HasTables written root vpn
  written-HasTables = record {
    top = ap is_valid (same_root (indexes vpn).0) ∙ h.top;
    middle =
        ap (λ t. is_valid (written t (indexes vpn).1)) mid-written
        ∙ ap is_valid (same_mid (indexes vpn).1)
        ∙ h.middle;
    not_root = λ e. h.not_root (e ∙ leaf-written);
    not_mid = λ e. h.not_mid (sym mid-written ∙ e ∙ leaf-written);
  }

  written_entry : written (leaf written root vpn) (indexes vpn).2 ≡ b
  unfolding written
  written_entry =
      ap (λ t. written t (indexes vpn).2) leaf-written
      ∙ set_entry_at m (leaf m root vpn) (indexes vpn).2 b

  translate-written : translate written root vpn ≡ some b
  unfolding translate entry_at
  translate-written =
      rw (translate, find_pte-HasTables written root vpn written-HasTables) (ap some written_entry)

-- An entry with the flag V is valid.
new_entry-is_valid : (ppn flags : ℕ) → flags % 2 ≡ 0 → is_valid (new_entry ppn (flags + 1)) ≡ true
unfolding is_valid has_flag flags_of new_entry
new_entry-is_valid ppn flags even = eq→== _ 1 (omega arith)

add_valid : (flags : ℕ) → flags % 2 ≡ 0 → bit_or flags 1 ≡ flags + 1
unfolding bit
add_valid flags even = bit_or-bit flags 0 even

-- Where the second and the third table of a page are there, the third is neither the root nor the
-- second, the page is not mapped, and V is not among the flags: `map` succeeds, and `translate` then
-- gives the new entry, with V; `unmap` of the page succeeds after that, and `translate` then gives
-- the empty entry, which is not valid. Both leave every entry of every other table.
pub map_unmap :
    (s : Space) (root vpn ppn flags : ℕ)
    → HasTables s.memory root vpn
    → is_valid (s.memory (leaf s.memory root vpn) (indexes vpn).2) ≡ false
    → flags % 2 ≡ 0
    → (t u : Space) × (map_page root vpn ppn flags s ≡ ok (tt, t))
      × (translate t.memory root vpn ≡ some (new_entry ppn (flags + 1)))
      × (unmap root vpn t ≡ ok (tt, u))
      × (translate u.memory root vpn ≡ some 0)
      × (is_valid 0 ≡ false)
      × ((a : ℕ)
          → a ≢ leaf s.memory root vpn
          → (i : ℕ) → (t.memory a i ≡ s.memory a i) × (u.memory a i ≡ s.memory a i))
unfolding map_page unmap written
map_unmap s root vpn ppn flags h free even =
    let b = new_entry ppn (flags + 1) in
    let place = leaf s.memory root vpn in
    let i2 = (indexes vpn).2 in
    let m1 = written s.memory root vpn b h in
    let h1 = written-HasTables s.memory root vpn b h in
    let m2 = written m1 root vpn 0 h1 in
    let valid : is_valid (m1 (leaf m1 root vpn) i2) ≡ true =
      ap is_valid (written_entry s.memory root vpn b h) ∙ new_entry-is_valid ppn flags even in
    (
      record s { memory = m1 },
      record s { memory = m2 },
      rw (map_page, find_pte_create-HasTables s root vpn h, free, add_valid flags even) refl,
      translate-written s.memory root vpn b h,
      rw (unmap, find_pte-HasTables m1 root vpn h1, valid) refl,
      translate-written m1 root vpn 0 h1,
      refl,
      λ a ne i.
          let first = set_entry_ne s.memory place i2 b a ne i in
          (
            first,
            set_entry_ne m1 (leaf m1 root vpn) i2 0 a
                  (λ e. ne (e ∙ leaf-written s.memory root vpn b h)) i
                ∙ first,
          ),
    )
