-- ===== src/EasyFs/Layout/Shrink/Places.antt =====
-- The blocks that `get_block_id` finds, by the part of the index that leads to them.
use r_core_tutorial_code.Base.{
  ℕ, ◌-◌, ◌/◌, ◌%◌, ◌<◌, ◌≡◌, refl, ltb, ok, if◌then◌else◌, arith, Bool-cases, inl, inr, ltb→lt,
  ltb→le, lt→ltb,
}
use r_core_tutorial_code.EasyFs.Block.{Disk}
use r_core_tutorial_code.EasyFs.Layout.Inode.{DiskInode}
use r_core_tutorial_code.EasyFs.Layout.Index.{entry, get_block_id}
use r_core_tutorial_code.EasyFs.Layout.Shrink.{entry_at}

module _ (d : Disk) where
  -- A data block behind the double index block, and behind the triple one.
  abbrev pub leaf2 : ℕ → ℕ → ℕ
  leaf2 a o = entry_at d (entry_at d a (o / 128)) (o % 128)

  abbrev pub leaf3 : ℕ → ℕ → ℕ
  leaf3 a o = entry_at d (entry_at d (entry_at d a (o / 16384)) (o % 16384 / 128)) (o % 16384 % 128)

  -- The block of a number in each part of the index.
  unfoldable pub block_at : (n : DiskInode) (k : ℕ) → ℕ
  block_at n k =
      if ltb k 27
      then n.direct k
      else if ltb k 155
      then entry_at d n.indirect1 (k - 27)
      else if ltb k 16539
      then leaf2 n.indirect2 (k - 155)
      else leaf3 n.indirect3 (k - 16539)

  pub get_block_id-block_at :
      (n : DiskInode) (k : ℕ) → k < 2113691 → get_block_id n k d ≡ ok (block_at n k, d)
  unfolding get_block_id block_at entry entry_at
  get_block_id-block_at n k lt = elim (Bool-cases (ltb k 27)) [
    | inl x ↦ rw x refl
    | inr x ↦
        let a = ltb→le _ _ x in
        elim (Bool-cases (ltb k 155)) [
          | inl y ↦ let b = ltb→lt _ _ y in rw (x, y, lt→ltb (k - 27) 128 (omega arith)) refl
          | inr y ↦
              let b = ltb→le _ _ y in
              elim (Bool-cases (ltb k 16539)) [
                | inl z ↦
                    let c = ltb→lt _ _ z in
                    rw
                      (
                        x,
                        y,
                        z,
                        lt→ltb ((k - 155) / 128) 128 (omega arith),
                        lt→ltb ((k - 155) % 128) 128 (omega arith),
                      )
                      refl
                | inr z ↦
                    let c = ltb→le _ _ z in
                    rw
                      (
                        x,
                        y,
                        z,
                        lt→ltb ((k - 16539) / 16384) 128 (omega arith),
                        lt→ltb ((k - 16539) % 16384 / 128) 128 (omega arith),
                        lt→ltb ((k - 16539) % 16384 % 128) 128 (omega arith),
                      )
                      refl
              ]
        ]
  ]
