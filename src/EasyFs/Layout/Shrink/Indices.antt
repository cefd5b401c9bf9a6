-- ===== src/EasyFs/Layout/Shrink/Indices.antt =====
-- `clear_size` returns the index blocks that the inode names.
use r_core_tutorial_code.Base.{
  ℕ, ◌+◌, ◌-◌, ◌/◌, ◌%◌, ◌<◌, ◌≤◌, ◌≡◌, min, List, [], ltb, ok, arith, Bool-cases, inl, inr, ltb→le,
  ltb→lt, le→leb, ◌>>◌,
}
use mathlib.Core.Path.{subst}
use r_core_tutorial_code.Base.Count.{count}
use r_core_tutorial_code.EasyFs.Block.{Disk}
use r_core_tutorial_code.EasyFs.Layout.Inode.{DiskInode}
use r_core_tutorial_code.EasyFs.Layout.Index.{decompose2}
use r_core_tutorial_code.EasyFs.Layout.Size.{data_blocks}
use r_core_tutorial_code.EasyFs.Layout.Shrink.{
  push, take_direct, take_entries, take_full, collect_tree_blocks, clear_indirect1, clear_indirect2,
  clear_indirect3, clear_size,
}
use r_core_tutorial_code.EasyFs.Layout.Shrink.Contents.{
  push_has, take_entries_keeps, take_full_keeps, take_last_keeps, keeps3,
}
use r_core_tutorial_code.EasyFs.Layout.Shrink.Complete.{
  below2, indirect2_has, indirect3_has, indirects,
}

-- The index blocks of a file of `t` data blocks are in the list, where the inode has them.
abbrev pub ListsIndices : DiskInode → ℕ → List ℕ → Type 0
ListsIndices n t u =
    (27 < t → 0 < count n.indirect1 u)
    × (155 < t → 0 < count n.indirect2 u)
    × (16539 < t → 0 < count n.indirect3 u)

module _ (d : Disk) where
  index3 :
      (n : DiskInode) (t : ℕ) (v : List ℕ) (m : DiskInode) (u : List ℕ) (e : Disk)
      → clear_indirect3 n t v d ≡ ok ((m, u), e)
      → 0 < count n.indirect3 u
  unfolding clear_indirect3
  index3 n t v m u e h =
      let w = (collect_tree_blocks 3 d n.indirect3 0 (t - 16384) (push v n.indirect3)).1 in
      let same : w ≡ u = cc in
      subst (λ (l : List ℕ). 0 < count n.indirect3 l) same
        (omega (
          arith,
          push_has v n.indirect3,
          keeps3 d (t - 16384) n.indirect3 n.indirect3 0 (push v n.indirect3),
        ))

  below2_index : (n : DiskInode) (m : ℕ) (v : List ℕ) → 0 < count n.indirect2 (below2 d n m v)
  below2_index n m v = omega (
    arith,
    push_has v n.indirect2,
    take_full_keeps d n.indirect2 n.indirect2 (m / 128) 0 (push v n.indirect2),
    take_last_keeps d n.indirect2 n.indirect2 (m / 128) (m % 128)
        (take_full d n.indirect2 (m / 128) 0 (push v n.indirect2)),
  )

  index2 :
      (n : DiskInode) (t : ℕ) (v : List ℕ) (m : DiskInode) (u : List ℕ) (e : Disk)
      → t - 128 ≤ 2097152
      → clear_indirect2 n t v d ≡ ok ((m, u), e)
      → (0 < count n.indirect2 u) × (16384 < t - 128 → 0 < count n.indirect3 u)
  unfolding clear_indirect2 decompose2
  index2 n t v m u e le h =
      let s = t - 128 in
      let w = below2 d n (min s 16384) v in
      let n' : DiskInode = record n { indirect2 = 0 } in
      let here = below2_index n (min s 16384) v in
      elim (Bool-cases (ltb 16384 s)) [
        | inl x ↦
            let h' = rw (le→leb s 2097152 le, ◌>>◌, x) at h in
            let (keep, _) = indirect3_has d n' s w m u e h' in
            (omega (arith, here, keep n.indirect2), λ _. index3 n' s w m u e h')
        | inr x ↦
            let h' = rw (le→leb s 2097152 le, ◌>>◌, x) at h in
            let same : w ≡ u = cc in
            (
              subst (λ (l : List ℕ). 0 < count n.indirect2 l) same here,
              λ more. absurd (omega (arith, ltb→le _ _ x)),
            )
      ]

  index1 :
      (n : DiskInode) (t : ℕ) (v : List ℕ) (m : DiskInode) (u : List ℕ) (e : Disk)
      → t ≤ 155 + 2097152
      → 27 < t
      → clear_indirect1 n t v d ≡ ok ((m, u), e)
      → ListsIndices n t u
  unfolding clear_indirect1
  index1 n t v m u e le more h =
      let s = t - 27 in
      let k = min s 128 in
      let w = take_entries d n.indirect1 k 0 (push v n.indirect1) in
      let n' : DiskInode = record n { indirect1 = 0 } in
      let here : 0 < count n.indirect1 w = omega (
        arith,
        push_has v n.indirect1,
        take_entries_keeps d n.indirect1 n.indirect1 k 0 (push v n.indirect1),
      ) in
      elim (Bool-cases (ltb 128 s)) [
        | inl x ↦
            let h' = rw x at h in
            let (keep, _) = indirect2_has d n' s w m u e (omega arith) h' in
            let (double, triple) = index2 n' s w m u e (omega arith) h' in
            (λ _. omega (arith, here, keep n.indirect1), λ _. double, λ over. triple (omega arith))
        | inr x ↦
            let h' = rw x at h in
            let same : w ≡ u = cc in
            let over = ltb→le _ _ x in
            (
              λ _. subst (λ (l : List ℕ). 0 < count n.indirect1 l) same here,
              λ more'. absurd (omega arith),
              λ more'. absurd (omega arith),
            )
      ]

  pub clear_size_indices :
      (n m : DiskInode) (u : List ℕ) (e : Disk)
      → clear_size n d ≡ ok ((m, u), e)
      → data_blocks n ≤ 155 + 2097152
      → ListsIndices n (data_blocks n) u
  unfolding clear_size
  clear_size_indices n m u e h le =
      let t = data_blocks n in
      let n0 : DiskInode = record n { size = 0 } in
      let n' = (take_direct (min t 27) 0 n0 []).0 in
      let w = (take_direct (min t 27) 0 n0 []).1 in
      let (e1, e2, e3) = indirects d (min t 27) 0 n0 [] in
      elim (Bool-cases (ltb 27 t)) [
        | inl x ↦
            let (a, b, c) = index1 n' t w m u e le (ltb→lt _ _ x) (rw x at h) in
            (
              λ more. subst (λ q. 0 < count q u) e1 (a more),
              λ more. subst (λ q. 0 < count q u) e2 (b more),
              λ more. subst (λ q. 0 < count q u) e3 (c more),
            )
        | inr x ↦
            let le' = ltb→le _ _ x in
            (
              λ more. absurd (omega arith),
              λ more. absurd (omega arith),
              λ more. absurd (omega arith),
            )
      ]
