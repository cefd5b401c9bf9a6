-- ===== src/EasyFs/Layout/Shrink/Clear.antt =====
-- `clear_size` of a whole file.
use r_core_tutorial_code.Base.{
  ℕ, ◌+◌, ◌-◌, ◌/◌, ◌%◌, ◌^◌, ◌<◌, ◌≤◌, ◌≡◌, min, List, [], ok, panic, ap, ◌∙◌, refl, ltb,
  if◌then◌else◌, length, arith, Bool-cases, inl, inr, le→leb, lt→ltb, lt→leb, ◌>>◌, Result,
}
use r_core_tutorial_code.EasyFs.Block.{Disk}
use r_core_tutorial_code.EasyFs.Layout.Inode.{DiskInode}
use r_core_tutorial_code.EasyFs.Layout.Index.{decompose2}
use r_core_tutorial_code.EasyFs.Layout.Size.{
  data_blocks, data_blocks_of, total_blocks, extra1, extra2, extra3,
}
use r_core_tutorial_code.EasyFs.Layout.Shrink.{
  push, take_direct, take_entries, take_full, take_last, collect_tree_blocks, clear_indirect1,
  clear_indirect2, clear_indirect3, clear_size,
}
use r_core_tutorial_code.EasyFs.Layout.Shrink.Count.{
  count3, length-push, length-take_direct, length-take_entries, length-take_full, length-take_last,
  size-take_direct, tree2, tree3,
}

-- What the parts of `clear_size` push, in terms of the blocks in and below their index block.
abbrev Clears : DiskInode → Disk → ℕ → Result ((DiskInode × List ℕ) × Disk) → Type 0
Clears n d len res =
    (m : DiskInode) × (v : List ℕ) × (res ≡ ok ((m, v), d)) × (length v ≡ len) × (m.size ≡ n.size)

module _ (d : Disk) where
  clear_indirect3_lem :
      (n : DiskInode) (t : ℕ) (v : List ℕ)
      → t ≤ 2097152
      → Clears n d (length v + 1 + tree3 (t - 16384)) (clear_indirect3 n t v d)
  unfolding clear_indirect3
  clear_indirect3_lem n t v le = (
    record n { indirect3 = 0 },
    (collect_tree_blocks 3 d n.indirect3 0 (t - 16384) (push v n.indirect3)).1,
    refl,
    count3 d (t - 16384) n.indirect3 0 (push v n.indirect3)
        ∙ (let e : min 2097152 (t - 16384 - 0) ≡ t - 16384 = omega arith in
            omega (arith, ap tree3 e, length-push v n.indirect3)),
    refl,
  )

  -- The blocks under `indirect2`, which hold `m` data blocks.
  below2 : DiskInode → ℕ → List ℕ → List ℕ
  below2 n m v =
      take_last d n.indirect2 (m / 128) (m % 128)
        (take_full d n.indirect2 (m / 128) 0 (push v n.indirect2))

  length-below2 :
      (n : DiskInode) (m : ℕ) (v : List ℕ) → length (below2 n m v) ≡ length v + 1 + tree2 m
  unfolding below2
  length-below2 n m v = omega (
    arith,
    length-take_last d n.indirect2 (m / 128) (m % 128)
        (take_full d n.indirect2 (m / 128) 0 (push v n.indirect2)),
    length-take_full d n.indirect2 (m / 128) 0 (push v n.indirect2),
    length-push v n.indirect2,
  )

  clear_indirect2_lem :
      (n : DiskInode) (t : ℕ) (v : List ℕ)
      → t - 128 ≤ 2097152
      → Clears n d
          (length v
            + 1
            + tree2 (min (t - 128) 16384)
            + (if ltb 16384 (t - 128) then 1 + tree3 (t - 128 - 16384) else 0))
          (clear_indirect2 n t v d)
  unfolding clear_indirect2 decompose2 below2
  clear_indirect2_lem n t v le =
      let w = below2 n (min (t - 128) 16384) v in
      let w_len = length-below2 n (min (t - 128) 16384) v in
      elim (Bool-cases (ltb 16384 (t - 128))) [
        | inl x ↦
            let (m, u, res, len, same) =
              clear_indirect3_lem (record n { indirect2 = 0 }) (t - 128) w le in
            (m, u, rw (le→leb (t - 128) 2097152 le, ◌>>◌, x) res, rw x (omega arith), same)
        | inr x ↦ (
          record n { indirect2 = 0 },
          w,
          rw (le→leb (t - 128) 2097152 le, ◌>>◌, x),
          rw x (omega arith),
          refl,
        )
      ]

  clear_indirect1_lem :
      (n : DiskInode) (t : ℕ) (v : List ℕ)
      → t - 27 - 128 ≤ 2097152
      → Clears n d
          (length v
            + 1
            + min (t - 27) 128
            + (if ltb 128 (t - 27)
                then 1
                  + tree2 (min (t - 27 - 128) 16384)
                  + (if ltb 16384 (t - 27 - 128) then 1 + tree3 (t - 27 - 128 - 16384) else 0)
                else 0))
          (clear_indirect1 n t v d)
  unfolding clear_indirect1
  clear_indirect1_lem n t v le =
      let w = take_entries d n.indirect1 (min (t - 27) 128) 0 (push v n.indirect1) in
      let w_len = length-take_entries d n.indirect1 (min (t - 27) 128) 0 (push v n.indirect1) in
      let p_len = length-push v n.indirect1 in
      elim (Bool-cases (ltb 128 (t - 27))) [
        | inl x ↦
            let (m, u, res, len, same) =
              clear_indirect2_lem (record n { indirect1 = 0 }) (t - 27) w le in
            (m, u, rw x res, rw x (omega arith), same)
        | inr x ↦ (record n { indirect1 = 0 }, w, rw x, rw x (omega arith), refl)
      ]

-- The sum of the parts is the closed form of `total_blocks`.
pub total_blocks-parts :
    (n : DiskInode)
    → n.size < 2 ^ 32
    → let t = data_blocks n in
      total_blocks n.size
      ≡ min t 27
        + (if ltb 27 t
            then 1
              + min (t - 27) 128
              + (if ltb 128 (t - 27)
                  then 1
                    + tree2 (min (t - 27 - 128) 16384)
                    + (if ltb 16384 (t - 27 - 128) then 1 + tree3 (t - 27 - 128 - 16384) else 0)
                  else 0)
            else 0)
unfolding total_blocks data_blocks extra1 extra2 extra3 data_blocks_of
total_blocks-parts n h = ground arith

-- `clear_size` of a file of a `u32` size and at most 155 + 128^3 data blocks returns as many
-- blocks as `total_blocks` says; it leaves the disk, and the size becomes zero.
pub clear_size_count :
    (n : DiskInode) (d : Disk)
    → n.size < 2 ^ 32
    → data_blocks n ≤ 155 + 2097152
    → (m : DiskInode) × (v : List ℕ) × (clear_size n d ≡ ok ((m, v), d))
      × (length v ≡ total_blocks n.size)
      × (m.size ≡ 0)
unfolding clear_size
clear_size_count n d small le =
    let t = data_blocks n in
    let (n', v) = take_direct (min t 27) 0 (record n { size = 0 }) [] in
    let len = length-take_direct (min t 27) 0 (record n { size = 0 }) [] in
    let zero_size = size-take_direct (min t 27) 0 (record n { size = 0 }) [] in
    elim (Bool-cases (ltb 27 t)) [
      | inl x ↦
          let (m, u, res, u_len, same) = clear_indirect1_lem d n' t v (omega arith) in
          (m, u, rw x res, rw (total_blocks-parts n small, x) (omega arith), same ∙ zero_size)
      | inr x ↦ (n', v, rw x, rw (total_blocks-parts n small, x) (omega arith), zero_size)
    ]

-- The parts at which the assertion on the number of blocks fails.
module _ (d : Disk) where
  clear_indirect2-panic :
      (n : DiskInode) (t : ℕ) (v : List ℕ) → 2097152 < t - 128 → clear_indirect2 n t v d ≡ panic
  unfolding clear_indirect2
  clear_indirect2-panic n t v lt = rw (lt→leb (t - 128) 2097152 lt, ◌>>◌)

  clear_indirect1-panic :
      (n : DiskInode) (t : ℕ) (v : List ℕ)
      → 2097152 < t - 27 - 128
      → clear_indirect1 n t v d ≡ panic
  unfolding clear_indirect1
  clear_indirect1-panic n t v lt =
      rw (lt→ltb 128 (t - 27) (omega arith)) (clear_indirect2-panic _ (t - 27) _ lt)

-- `clear_size` panics on each file with more than 155 + 128^3 data blocks.
pub clear_size-panic :
    (n : DiskInode) (d : Disk) → 155 + 2097152 < data_blocks n → clear_size n d ≡ panic
unfolding clear_size
clear_size-panic n d lt =
    rw (lt→ltb 27 (data_blocks n) (omega arith))
      (clear_indirect1-panic d _ (data_blocks n) _ (omega arith))
