-- ===== src/EasyFs/Layout/Shrink/Complete.antt =====
-- `clear_size` returns each block that the index of the file leads to.
use r_core_tutorial_code.Base.{
  ℕ, ◌+◌, ◌-◌, ◌/◌, ◌%◌, zero, suc, update, ◌<◌, ◌≤◌, ◌≡◌, min, List, [], refl, ltb, ok, arith,
  Bool-cases, inl, inr, ltb→lt, ltb→le, le→leb, ◌>>◌,
}
use mathlib.Core.Path.{subst}
use r_core_tutorial_code.Base.Count.{count}
use r_core_tutorial_code.EasyFs.Block.{Disk}
use r_core_tutorial_code.EasyFs.Layout.Inode.{DiskInode}
use r_core_tutorial_code.EasyFs.Layout.Index.{get_block_id, decompose2}
use r_core_tutorial_code.EasyFs.Layout.Size.{data_blocks}
use r_core_tutorial_code.EasyFs.Layout.Shrink.{
  push, entry_at, take_direct, take_entries, take_full, take_last, collect_tree_blocks,
  clear_indirect1, clear_indirect2, clear_indirect3, clear_size,
}
use r_core_tutorial_code.EasyFs.Layout.Shrink.Contents.{
  push_keeps, take_direct_has, take_entries_keeps, take_entries_has, take_full_keeps, take_full_has,
  take_last_keeps, take_last_has, keeps3, has3,
}
use r_core_tutorial_code.EasyFs.Layout.Shrink.Places.{leaf2, leaf3, block_at, get_block_id-block_at}

module _ (d : Disk) where
  -- The `m` data blocks behind the double, the single or the direct ones are in the list.
  abbrev Covers3 : DiskInode → ℕ → List ℕ → Type 0
  Covers3 n m u = (o : ℕ) → o < m → o < 2097152 → 0 < count (leaf3 d n.indirect3 o) u

  abbrev Covers2 : DiskInode → ℕ → List ℕ → Type 0
  Covers2 n m u =
      ((o : ℕ) → o < m → o < 16384 → 0 < count (leaf2 d n.indirect2 o) u) × Covers3 n (m - 16384) u

  abbrev Covers1 : DiskInode → ℕ → List ℕ → Type 0
  Covers1 n m u =
      ((o : ℕ) → o < m → o < 128 → 0 < count (entry_at d n.indirect1 o) u) × Covers2 n (m - 128) u

  abbrev pub Keeps : List ℕ → List ℕ → Type 0
  Keeps v u = (x : ℕ) → count x v ≤ count x u

  pub indirect3_has :
      (n : DiskInode) (t : ℕ) (v : List ℕ) (m : DiskInode) (u : List ℕ) (e : Disk)
      → clear_indirect3 n t v d ≡ ok ((m, u), e)
      → Keeps v u × Covers3 n (t - 16384) u
  unfolding clear_indirect3
  indirect3_has n t v m u e h =
      let w = (collect_tree_blocks 3 d n.indirect3 0 (t - 16384) (push v n.indirect3)).1 in
      let same : w ≡ u = cc in
      subst (λ (l : List ℕ). Keeps v l × Covers3 n (t - 16384) l) same
        (
          λ x. omega (
            arith,
            push_keeps x v n.indirect3,
            keeps3 d (t - 16384) x n.indirect3 0 (push v n.indirect3),
          ),
          λ o lt inside.
              has3 d (t - 16384) n.indirect3 0 (push v n.indirect3) o inside (omega arith),
        )

  -- The blocks under `indirect2`, which hold `m` data blocks.
  abbrev pub below2 : DiskInode → ℕ → List ℕ → List ℕ
  below2 n m v =
      take_last d n.indirect2 (m / 128) (m % 128)
        (take_full d n.indirect2 (m / 128) 0 (push v n.indirect2))

  pub below2-Keeps : (n : DiskInode) (m : ℕ) (v : List ℕ) → Keeps v (below2 n m v)
  below2-Keeps n m v x = omega (
    arith,
    push_keeps x v n.indirect2,
    take_full_keeps d x n.indirect2 (m / 128) 0 (push v n.indirect2),
    take_last_keeps d x n.indirect2 (m / 128) (m % 128)
        (take_full d n.indirect2 (m / 128) 0 (push v n.indirect2)),
  )

  below2_has :
      (n : DiskInode) (m : ℕ) (v : List ℕ) (o : ℕ)
      → o < m
      → 0 < count (leaf2 d n.indirect2 o) (below2 n m v)
  below2_has n m v o lt =
      let full = take_full d n.indirect2 (m / 128) 0 (push v n.indirect2) in
      elim (Bool-cases (ltb (o / 128) (m / 128))) [
        | inl x ↦
            let start : 0 + o / 128 ≡ o / 128 = omega arith in
            let there = rw start at (
              take_full_has d n.indirect2 (m / 128) 0 (push v n.indirect2) (o / 128) (o % 128)
                (ltb→lt _ _ x) (omega arith)) in
            omega (
              arith,
              there,
              take_last_keeps d (leaf2 d n.indirect2 o) n.indirect2 (m / 128) (m % 128) full,
            )
        | inr x ↦
            let le = ltb→le _ _ x in
            let last : m / 128 ≡ o / 128 = omega arith in
            let inside : o % 128 < m % 128 = omega arith in
            let there = take_last_has d n.indirect2 (m / 128) (m % 128) full (o % 128) inside in
            subst (λ q. 0 < count (entry_at d (entry_at d n.indirect2 q) (o % 128)) (below2 n m v))
              last there
      ]

  pub indirect2_has :
      (n : DiskInode) (t : ℕ) (v : List ℕ) (m : DiskInode) (u : List ℕ) (e : Disk)
      → t - 128 ≤ 2097152
      → clear_indirect2 n t v d ≡ ok ((m, u), e)
      → Keeps v u × Covers2 n (t - 128) u
  unfolding clear_indirect2 decompose2
  indirect2_has n t v m u e le h =
      let s = t - 128 in
      let w = below2 n (min s 16384) v in
      let n' : DiskInode = record n { indirect2 = 0 } in
      let keep = below2-Keeps n (min s 16384) v in
      let here =
        λ (o : ℕ) (lt : o < s) (inside : o < 16384). below2_has n (min s 16384) v o (omega arith) in
      elim (Bool-cases (ltb 16384 s)) [
        | inl x ↦
            let h' = rw (le→leb s 2097152 le, ◌>>◌, x) at h in
            let (keep', all) = indirect3_has n' s w m u e h' in
            (
              λ x. omega (arith, keep x, keep' x),
              (λ o lt inside. omega (arith, here o lt inside, keep' (leaf2 d n.indirect2 o)), all),
            )
        | inr x ↦
            let h' = rw (le→leb s 2097152 le, ◌>>◌, x) at h in
            let same : w ≡ u = cc in
            subst (λ (l : List ℕ). Keeps v l × Covers2 n s l) same
              (keep, (here, λ o lt inside. absurd (omega (arith, ltb→le _ _ x))))
      ]

  pub indirect1_has :
      (n : DiskInode) (t : ℕ) (v : List ℕ) (m : DiskInode) (u : List ℕ) (e : Disk)
      → t ≤ 155 + 2097152
      → clear_indirect1 n t v d ≡ ok ((m, u), e)
      → Keeps v u × Covers1 n (t - 27) u
  unfolding clear_indirect1
  indirect1_has n t v m u e le h =
      let s = t - 27 in
      let k = min s 128 in
      let w = take_entries d n.indirect1 k 0 (push v n.indirect1) in
      let n' : DiskInode = record n { indirect1 = 0 } in
      let keep = λ (x : ℕ).
        let l : count x v ≤ count x w = omega (
          arith,
          push_keeps x v n.indirect1,
          take_entries_keeps d x n.indirect1 k 0 (push v n.indirect1),
        ) in
        l in
      let here = λ (o : ℕ) (lt : o < s) (inside : o < 128).
        let start : 0 + o ≡ o = omega arith in
        let l : 0 < count (entry_at d n.indirect1 o) w =
          rw start at (take_entries_has d n.indirect1 k 0 (push v n.indirect1) o (omega arith)) in
        l in
      elim (Bool-cases (ltb 128 s)) [
        | inl x ↦
            let h' = rw x at h in
            let (keep', all) = indirect2_has n' s w m u e (omega arith) h' in
            (
              λ x. omega (arith, keep x, keep' x),
              (
                λ o lt inside. omega (arith, here o lt inside, keep' (entry_at d n.indirect1 o)),
                all,
              ),
            )
        | inr x ↦
            let h' = rw x at h in
            let same : w ≡ u = cc in
            let over = ltb→le _ _ x in
            subst (λ (l : List ℕ). Keeps v l × Covers1 n s l) same
              (
                keep,
                (here, (λ o lt inside. absurd (omega arith), λ o lt inside. absurd (omega arith))),
              )
      ]

  -- The direct entries, and the rest of the index beside them.
  pub indirects :
      (k i : ℕ) (n : DiskInode) (v : List ℕ)
      → let n' = (take_direct k i n v).0 in
        (n'.indirect1 ≡ n.indirect1) × (n'.indirect2 ≡ n.indirect2) × (n'.indirect3 ≡ n.indirect3)
  unfolding take_direct
  indirects zero i n v = (refl, refl, refl)
  indirects (suc k) i n v =
      indirects k (i + 1) (record n { direct = update n.direct i 0 }) (push v (n.direct i))

  covered :
      (n n' : DiskInode) (t : ℕ) (w u : List ℕ) (k : ℕ)
      → ((o : ℕ) → o < min t 27 → 0 < count (n.direct o) w)
      → Keeps w u
      → (27 < t → Covers1 n' (t - 27) u)
      → n'.indirect1 ≡ n.indirect1
      → n'.indirect2 ≡ n.indirect2
      → n'.indirect3 ≡ n.indirect3
      → t ≤ 155 + 2097152
      → k < t
      → 0 < count (block_at d n k) u
  unfolding block_at
  covered n n' t w u k first keep rest e1 e2 e3 le lt = elim (Bool-cases (ltb k 27)) [
    | inl x ↦ let b = ltb→lt _ _ x in rw x (omega (arith, first k (omega arith), keep (n.direct k)))
    | inr x ↦
        let a = ltb→le _ _ x in
        let (single, (double, triple)) = rest (omega arith) in
        elim (Bool-cases (ltb k 155)) [
          | inl y ↦
              let b = ltb→lt _ _ y in
              rw (x, y)
                (subst (λ q. 0 < count (entry_at d q (k - 27)) u) e1
                  (single (k - 27) (omega arith) (omega arith)))
          | inr y ↦
              let b = ltb→le _ _ y in
              let at2 : k - 155 < t - 27 - 128 = omega arith in
              elim (Bool-cases (ltb k 16539)) [
                | inl z ↦
                    let c = ltb→lt _ _ z in
                    rw (x, y, z)
                      (subst (λ q. 0 < count (leaf2 d q (k - 155)) u) e2
                        (double (k - 155) at2 (omega arith)))
                | inr z ↦
                    let c = ltb→le _ _ z in
                    rw (x, y, z)
                      (subst (λ q. 0 < count (leaf3 d q (k - 16539)) u) e3
                        (triple (k - 16539) (omega arith) (omega arith)))
              ]
        ]
  ]

  -- Each data block of a file of at most 155 + 128^3 data blocks is in the list of `clear_size`.
  pub clear_size_has :
      (n m : DiskInode) (u : List ℕ) (e : Disk) (k : ℕ)
      → clear_size n d ≡ ok ((m, u), e)
      → data_blocks n ≤ 155 + 2097152
      → k < data_blocks n
      → (id : ℕ) × (get_block_id n k d ≡ ok (id, d)) × (0 < count id u)
  unfolding clear_size
  clear_size_has n m u e k h le lt =
      let t = data_blocks n in
      let n0 : DiskInode = record n { size = 0 } in
      let n' = (take_direct (min t 27) 0 n0 []).0 in
      let w = (take_direct (min t 27) 0 n0 []).1 in
      let (e1, e2, e3) = indirects (min t 27) 0 n0 [] in
      let first = λ (o : ℕ) (lt : o < min t 27).
        let start : 0 + o ≡ o = omega arith in
        let l : 0 < count (n.direct o) w = rw start at (take_direct_has (min t 27) 0 n0 [] o lt) in
        l in
      let found = get_block_id-block_at d n k (omega arith) in
      elim (Bool-cases (ltb 27 t)) [
        | inl x ↦
            let (keep, rest) = indirect1_has n' t w m u e le (rw x at h) in
            (block_at d n k, found, covered n n' t w u k first keep (λ _. rest) e1 e2 e3 le lt)
        | inr x ↦
            let h' = rw x at h in
            let same : w ≡ u = cc in
            let over = ltb→le _ _ x in
            (
              block_at d n k,
              found,
              covered n n' t w u k first
                  (λ y. subst (λ (l : List ℕ). count y w ≤ count y l) same (omega arith))
                  (λ more. absurd (omega arith)) e1 e2 e3 le lt,
            )
      ]
