-- ===== src/EasyFs/Layout/Grow/Needed.antt =====
-- The blocks that `increase_size` takes are the difference of two values of `total_blocks`.
use r_core_tutorial_code.Base.{
  ℕ, ◌+◌, ◌-◌, ◌^◌, ◌≤◌, ◌<◌, ◌≡◌, min, ltb, leb, if◌then◌else◌, ◌∙◌, arith, sym, Bool-cases, inl,
  inr, ltb→lt, ltb→le, leb→le, leb→lt, ap, ok, Result, List, [], length, drop-length, le→leb, ◌>>◌,
}
use r_core_tutorial_code.EasyFs.Block.{Disk, u32}
use r_core_tutorial_code.EasyFs.Layout.Inode.{DiskInode}
use r_core_tutorial_code.EasyFs.Layout.Size.{
  data_blocks, data_blocks_of, total_blocks, blocks_num_needed,
}
use r_core_tutorial_code.EasyFs.Layout.Shrink.Count.{tree2, tree3}
use r_core_tutorial_code.EasyFs.Layout.Shrink.Clear.{total_blocks-parts}
use r_core_tutorial_code.EasyFs.Layout.Grow.{feed, increase_size}
use r_core_tutorial_code.EasyFs.Layout.Grow.Exact.{need1, need2, need3, need, Takes-increase_size}

-- The blocks from the first index block of each kind on.
held3 : ℕ → ℕ
held3 t = if ltb 16384 t then 1 + tree3 (t - 16384) else 0

held2 : ℕ → ℕ
held2 t = if ltb 128 t then 1 + tree2 (min (t - 128) 16384) + held3 (t - 128) else 0

held1 : ℕ → ℕ
held1 t = if ltb 27 t then 1 + min (t - 27) 128 + held2 (t - 27) else 0

need3-held3 : (c t : ℕ) → 16384 ≤ c → c ≤ t → 16384 < t → need3 c t ≡ held3 t - held3 c
unfolding need3 held3
need3-held3 c t low le lt = ground arith

held3_mono : (c t : ℕ) → c ≤ t → held3 c ≤ held3 t
unfolding held3
held3_mono c t le = ground arith

-- Filling a part up to its bound leaves the count of the parts behind it.
held3_fill : (c : ℕ) → held3 (c + (16384 - c)) ≡ held3 c
unfolding held3
held3_fill c = ground arith

held3_small : (c : ℕ) → c ≤ 16384 → held3 c ≡ 0
unfolding held3
held3_small c le = ground arith

need2-held2 : (c t : ℕ) → 128 ≤ c → c ≤ t → 128 < t → need2 c t ≡ held2 t - held2 c
unfolding need2 held2
need2-held2 c t low le lt = elim (Bool-cases (ltb 16384 (t - 128))) [
  | inl x ↦
      let big : 16384 < t - 128 = ltb→lt _ _ x in
      let m : min (t - 128) 16384 ≡ 16384 = omega arith in
      let more =
        need3-held3 (c - 128 + (16384 - (c - 128))) (t - 128) (omega arith) (omega arith) big in
      rw (x, m)
        (ground (
          arith,
          more,
          held3_fill (c - 128),
          held3_mono (c - 128) (t - 128) (omega arith),
          held3_small 0,
        ))
  | inr x ↦ rw x (ground (arith, ltb→le _ _ x, held3_small (t - 128), held3_small (c - 128)))
]

held2_mono : (c t : ℕ) → c ≤ t → held2 c ≤ held2 t
unfolding held2
held2_mono c t le = ground (arith, held3_mono (c - 128) (t - 128))

held2_fill : (c : ℕ) → held2 (c + (128 - c)) ≡ held2 c
unfolding held2
held2_fill c = elim (Bool-cases (leb c 128)) [
  | inl x ↦
      let e : c + (128 - c) ≡ 128 = omega (arith, leb→le _ _ x) in
      rw e (ground (arith, leb→le _ _ x))
  | inr x ↦ let e : c + (128 - c) ≡ c = omega (arith, leb→lt _ _ x) in rw e
]

held2_small : (c : ℕ) → c ≤ 128 → held2 c ≡ 0
unfolding held2
held2_small c le = ground arith

need1-held1 : (c t : ℕ) → 27 ≤ c → c ≤ t → 27 < t → need1 c t ≡ held1 t - held1 c
unfolding need1 held1
need1-held1 c t low le lt = elim (Bool-cases (ltb 128 (t - 27))) [
  | inl x ↦
      let big : 128 < t - 27 = ltb→lt _ _ x in
      let m : min (t - 27) 128 ≡ 128 = omega arith in
      let more = need2-held2 (c - 27 + (128 - (c - 27))) (t - 27) (omega arith) (omega arith) big in
      rw (x, m)
        (ground (
          arith,
          more,
          held2_fill (c - 27),
          held2_mono (c - 27) (t - 27) (omega arith),
          held2_small 0,
        ))
  | inr x ↦ rw x (ground (arith, ltb→le _ _ x, held2_small (t - 27), held2_small (c - 27)))
]

held1_mono : (c t : ℕ) → c ≤ t → held1 c ≤ held1 t
unfolding held1
held1_mono c t le = ground (arith, held2_mono (c - 27) (t - 27))

held1_fill : (c : ℕ) → held1 (c + (27 - c)) ≡ held1 c
unfolding held1
held1_fill c = elim (Bool-cases (leb c 27)) [
  | inl x ↦
      let e : c + (27 - c) ≡ 27 = omega (arith, leb→le _ _ x) in rw e (ground (arith, leb→le _ _ x))
  | inr x ↦ let e : c + (27 - c) ≡ c = omega (arith, leb→lt _ _ x) in rw e
]

-- The blocks of a file of `t` data blocks.
held : ℕ → ℕ
held t = min t 27 + held1 t

held1_small : (c : ℕ) → c ≤ 27 → held1 c ≡ 0
unfolding held1
held1_small c le = ground arith

need-held : (c t : ℕ) → c ≤ t → need c t ≡ held t - held c
unfolding need held
need-held c t le = elim (Bool-cases (ltb 27 t)) [
  | inl x ↦
      let big : 27 < t = ltb→lt _ _ x in
      let m : min t 27 ≡ 27 = omega arith in
      let more = need1-held1 (c + (27 - c)) t (omega arith) (omega arith) big in
      rw (x, m) (omega (arith, more, held1_fill c, held1_mono c t le))
  | inr x ↦ rw x (
      omega (
        arith,
        ltb→le _ _ x,
        held1_small t (ltb→le _ _ x),
        held1_small c (omega (arith, ltb→le _ _ x)),
      ))
]

total_blocks-held : (n : DiskInode) → n.size < 2 ^ 32 → total_blocks n.size ≡ held (data_blocks n)
unfolding held held1 held2 held3
total_blocks-held n h = total_blocks-parts n h

held_mono : (c t : ℕ) → c ≤ t → held c ≤ held t
unfolding held
held_mono c t le = omega (arith, held1_mono c t le)

total_blocks-lt : (size : ℕ) → total_blocks size < 2 ^ 32
unfolding total_blocks
total_blocks-lt size = omega arith

data_blocks_mono :
    (n : DiskInode) (new_size : ℕ)
    → n.size ≤ new_size
    → new_size + 511 < 2 ^ 32
    → data_blocks n ≤ data_blocks_of new_size
unfolding data_blocks data_blocks_of
data_blocks_mono n new_size le small = omega arith

-- What `blocks_num_needed` computes in `u32` is the number of blocks that `increase_size` takes.
pub blocks_num_needed-need :
    (n : DiskInode) (new_size : ℕ) (d : Disk)
    → n.size ≤ new_size
    → new_size + 511 < 2 ^ 32
    → blocks_num_needed n new_size d ≡ ok (need (data_blocks n) (data_blocks_of new_size), d)
unfolding blocks_num_needed data_blocks data_blocks_of
blocks_num_needed-need n new_size d le small =
    let old = total_blocks-held n (omega arith) in
    let new = total_blocks-held (record n { size = new_size }) (omega arith) in
    let c = data_blocks n in
    let t = data_blocks_of new_size in
    let mono : c ≤ t = omega arith in
    let lt : total_blocks new_size < 2 ^ 32 = total_blocks-lt new_size in
    let e : u32 (total_blocks new_size + 2 ^ 32 - total_blocks n.size) ≡ need c t =
      omega (arith, need-held c t mono, held_mono c t mono, old, new, lt) in
    rw (le→leb n.size new_size le, ◌>>◌) (ap (λ (k : ℕ). ok (k, d)) e)

-- To grow a file to a size that is not smaller, below `2 ^ 32 - 511`, and of at most 155 + 128^2 +
-- 128^3 data blocks, with as many new blocks as `blocks_num_needed` has asked for: `increase_size`
-- takes all of the blocks and needs no more (it does not panic), and it sets the size.
pub increase_size_exact :
    (n : DiskInode) (new_size : ℕ) (d : Disk) (v : List ℕ)
    → n.size ≤ new_size
    → new_size + 511 < 2 ^ 32
    → data_blocks_of new_size ≤ 155 + 16384 + 2097152
    → blocks_num_needed n new_size d ≡ ok (length v, d)
    → (m : DiskInode) × (e : Disk) × (increase_size n new_size (feed d v) ≡ ok (m, feed e []))
      × (m.size ≡ new_size)
increase_size_exact n new_size d v le small top asked =
    let c = data_blocks n in
    let t = data_blocks_of new_size in
    let k : ◌≡◌ {A = Result (ℕ × Disk)} (ok (need c t, d)) (ok (length v, d)) =
      sym (blocks_num_needed-need n new_size d le small) ∙ asked in
    let k' : need c t ≡ length v = cc in
    let (m, e, res, same) =
      (Takes-increase_size n new_size (data_blocks_mono n new_size le small) top).run d v
        (omega arith) in
    (m, e, res ∙ rw (k', drop-length), same)
