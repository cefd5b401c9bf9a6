-- ===== src/EasyFs/Layout/Shrink/Count.antt =====
-- `clear_size` returns as many blocks as `total_blocks` says.
use r_core_tutorial_code.Base.{
  ℕ, zero, suc, ◌+◌, ◌*◌, ◌-◌, ◌/◌, ◌<◌, ◌≡◌, min, List, [], ◌∷◌, ap, ◌∙◌, refl, ltb, length,
  length-append, arith, Bool-cases, inl, inr, ltb→lt, ltb→le,
}
use r_core_tutorial_code.EasyFs.Block.{Disk}
use r_core_tutorial_code.EasyFs.Layout.Inode.{DiskInode}
use r_core_tutorial_code.EasyFs.Layout.Shrink.{
  push, take_direct, entry_at, take_entries, take_full, take_last, collect_loop,
  collect_tree_blocks,
}

pub length-push : (v : List ℕ) (x : ℕ) → length (push v x) ≡ length v + 1
length-push v x = omega (arith, length-append v (x ∷ []))

pub length-take_direct :
    (k i : ℕ) (n : DiskInode) (v : List ℕ) → length (take_direct k i n v).1 ≡ length v + k
unfolding take_direct
length-take_direct zero i n v = omega arith
length-take_direct (suc k) i n v =
    length-take_direct k (i + 1) _ (push v (n.direct i)) ∙ omega (arith, length-push v (n.direct i))

pub size-take_direct :
    (k i : ℕ) (n : DiskInode) (v : List ℕ) → (take_direct k i n v).0.size ≡ n.size
unfolding take_direct
size-take_direct zero i n v = refl
size-take_direct (suc k) i n v = size-take_direct k (i + 1) _ (push v (n.direct i))

pub length-take_entries :
    (d : Disk) (a k i : ℕ) (v : List ℕ) → length (take_entries d a k i v) ≡ length v + k
unfolding take_entries
length-take_entries d a zero i v = omega arith
length-take_entries d a (suc k) i v =
    length-take_entries d a k (i + 1) (push v (entry_at d a i))
    ∙ omega (arith, length-push v (entry_at d a i))

pub length-take_full :
    (d : Disk) (a k i : ℕ) (v : List ℕ) → length (take_full d a k i v) ≡ length v + 129 * k
unfolding take_full
length-take_full d a zero i v = omega arith
length-take_full d a (suc k) i v =
    let e = entry_at d a i in
    let w = take_entries d e 128 0 (push v e) in
    length-take_full d a k (i + 1) w
    ∙ omega (arith, length-take_entries d e 128 0 (push v e), length-push v e)

-- The ids of a last block of `b1` entries and of those entries.
pub length-take_last :
    (d : Disk) (a a1 b1 : ℕ) (v : List ℕ)
    → length (take_last d a a1 b1 v) ≡ length v + (min b1 1 + b1)
unfolding take_last
length-take_last d a a1 b1 v =
    let e = entry_at d a a1 in
    elim (Bool-cases (ltb 0 b1)) [
      | inl x ↦
          rw x
            (length-take_entries d e b1 0 (push v e) ∙ omega (arith, length-push v e, ltb→lt _ _ x))
      | inr x ↦ rw x (omega (arith, ltb→le _ _ x))
    ]

-- The blocks of a tree with `m` leaves, its root aside, where each child has `B` leaves at most and
-- a tree with `m` leaves there has `F m` blocks.
module _ (d : Disk) (child : ℕ → ℕ → List ℕ → ℕ × List ℕ) (max B : ℕ) (F G : ℕ → ℕ) (pos : 0 < B)
    (leaves : (e cur : ℕ) (v : List ℕ) → cur < max → (child e cur v).0 ≡ cur + min B (max - cur))
    (count : (e cur : ℕ) (v : List ℕ)
      → cur < max
      → length (child e cur v).1 ≡ length v + F (min B (max - cur)))
    (none_left : G 0 ≡ 0) (some_left : (m : ℕ) → 0 < m → G m ≡ 1 + F (min B m) + G (m - B)) where
  collect_loop-leaves :
      (a k i cur : ℕ) (v : List ℕ)
      → (collect_loop d child a k i cur max v).0 ≡ cur + min (k * B) (max - cur)
  unfolding collect_loop
  collect_loop-leaves a zero i cur v = omega arith
  collect_loop-leaves a (suc k) i cur v = elim (Bool-cases (ltb cur max)) [
    | inl x ↦
        let r = child (entry_at d a i) cur (push v (entry_at d a i)) in
        rw x (
          collect_loop-leaves a k (i + 1) r.0 r.1
          ∙ omega (
            arith,
            leaves (entry_at d a i) cur (push v (entry_at d a i)) (ltb→lt _ _ x),
            ltb→lt _ _ x,
          ))
    | inr x ↦ rw x (omega (arith, ltb→le _ _ x))
  ]

  collect_loop-count :
      (a k i cur : ℕ) (v : List ℕ)
      → length (collect_loop d child a k i cur max v).1 ≡ length v + G (min (k * B) (max - cur))
  unfolding collect_loop
  collect_loop-count a zero i cur v =
      let p : min (0 * B) (max - cur) ≡ 0 = omega arith in omega (arith, ap G p, none_left)
  collect_loop-count a (suc k) i cur v = elim (Bool-cases (ltb cur max)) [
    | inl x ↦
        let e = entry_at d a i in
        let r = child e cur (push v e) in
        let m = min (suc k * B) (max - cur) in
        let lt : cur < max = ltb→lt _ _ x in
        let p : min (k * B) (max - r.0) ≡ m - B = omega (arith, leaves e cur (push v e) lt) in
        let q : min B (max - cur) ≡ min B m = omega arith in
        let m_pos : 0 < m = omega arith in
        rw x (
          collect_loop-count a k (i + 1) r.0 r.1
          ∙ omega (
            arith,
            count e cur (push v e) lt,
            length-push v e,
            ap G p,
            ap F q,
            some_left m m_pos,
          ))
    | inr x ↦
        let p : min (suc k * B) (max - cur) ≡ 0 = omega (arith, ltb→le _ _ x) in
        rw x (omega (arith, ap G p, none_left))
  ]

-- The blocks of the trees of depth 1, 2 and 3 with `m` leaves, the root aside.
abbrev pub tree1 : ℕ → ℕ
tree1 m = m

abbrev pub tree2 : ℕ → ℕ
tree2 m = m + (m + 127) / 128

abbrev pub tree3 : ℕ → ℕ
tree3 m = m + (m + 127) / 128 + (m + 16383) / 16384

-- `collect_tree_blocks`, depth by depth.
module _ (d : Disk) (max : ℕ) where
  pub leaves1 :
      (e cur : ℕ) (v : List ℕ) → (collect_tree_blocks 1 d e cur max v).0 ≡ cur + min 128 (max - cur)
  unfolding collect_tree_blocks
  leaves1 e cur v =
      collect_loop-leaves d (λ e leaf w. (leaf + 1, w)) max 1 (λ _. 0) tree1 (omega arith)
        (λ e cur v lt. omega arith) (λ e cur v lt. omega arith) refl (λ m pos. omega arith) e 128 0
        cur v

  count1 :
      (e cur : ℕ) (v : List ℕ)
      → length (collect_tree_blocks 1 d e cur max v).1 ≡ length v + tree1 (min 128 (max - cur))
  unfolding collect_tree_blocks
  count1 e cur v =
      collect_loop-count d (λ e leaf w. (leaf + 1, w)) max 1 (λ _. 0) tree1 (omega arith)
        (λ e cur v lt. omega arith) (λ e cur v lt. omega arith) refl (λ m pos. omega arith) e 128 0
        cur v

  pub leaves2 :
      (e cur : ℕ) (v : List ℕ)
      → (collect_tree_blocks 2 d e cur max v).0 ≡ cur + min 16384 (max - cur)
  unfolding collect_tree_blocks
  leaves2 e cur v =
      collect_loop-leaves d (λ e leaf w. collect_tree_blocks 1 d e leaf max w) max 128 tree1 tree2
        (omega arith) (λ e cur v lt. leaves1 e cur v) (λ e cur v lt. count1 e cur v) refl
        (λ m pos. omega arith) e 128 0 cur v

  count2 :
      (e cur : ℕ) (v : List ℕ)
      → length (collect_tree_blocks 2 d e cur max v).1 ≡ length v + tree2 (min 16384 (max - cur))
  unfolding collect_tree_blocks
  count2 e cur v =
      collect_loop-count d (λ e leaf w. collect_tree_blocks 1 d e leaf max w) max 128 tree1 tree2
        (omega arith) (λ e cur v lt. leaves1 e cur v) (λ e cur v lt. count1 e cur v) refl
        (λ m pos. omega arith) e 128 0 cur v

  pub count3 :
      (e cur : ℕ) (v : List ℕ)
      → length (collect_tree_blocks 3 d e cur max v).1 ≡ length v + tree3 (min 2097152 (max - cur))
  unfolding collect_tree_blocks
  count3 e cur v =
      collect_loop-count d (λ e leaf w. collect_tree_blocks 2 d e leaf max w) max 16384 tree2 tree3
        (omega arith) (λ e cur v lt. leaves2 e cur v) (λ e cur v lt. count2 e cur v) refl
        (λ m pos. omega arith) e 128 0 cur v
