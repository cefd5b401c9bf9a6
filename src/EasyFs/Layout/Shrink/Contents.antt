-- ===== src/EasyFs/Layout/Shrink/Contents.antt =====
-- What the loops of `clear_size` collect: the entries of the index blocks.
use r_core_tutorial_code.Base.{
  ℕ, zero, suc, ◌+◌, ◌*◌, ◌-◌, ◌/◌, ◌%◌, ◌<◌, ◌≤◌, ◌≡◌, min, List, [], ◌∷◌, ap, ◌∙◌, ltb, arith,
  update, true, Bool-cases, inl, inr, lt→ltb, update_ne,
}
use r_core_tutorial_code.Base.Count.{count, one_self, count-append}
use r_core_tutorial_code.EasyFs.Block.{Disk}
use r_core_tutorial_code.EasyFs.Layout.Inode.{DiskInode}
use r_core_tutorial_code.EasyFs.Layout.Shrink.{
  push, take_direct, entry_at, take_entries, take_full, take_last, collect_loop,
  collect_tree_blocks,
}
use r_core_tutorial_code.EasyFs.Layout.Shrink.Count.{leaves1, leaves2}

-- `push` keeps what is there, and adds its block.
pub push_keeps : (x : ℕ) (v : List ℕ) (y : ℕ) → count x v ≤ count x (push v y)
push_keeps x v y = omega (arith, count-append x v (y ∷ []))

pub push_has : (v : List ℕ) (y : ℕ) → 0 < count y (push v y)
unfolding count
push_has v y = omega (arith, count-append y v (y ∷ []), one_self y)

pub take_direct_keeps :
    (x k i : ℕ) (n : DiskInode) (v : List ℕ) → count x v ≤ count x (take_direct k i n v).1
unfolding take_direct
take_direct_keeps x zero i n v = omega arith
take_direct_keeps x (suc k) i n v =
    omega
      (arith, push_keeps x v (n.direct i), take_direct_keeps x k (i + 1) _ (push v (n.direct i)))

pub take_direct_has :
    (k i : ℕ) (n : DiskInode) (v : List ℕ) (j : ℕ)
    → j < k
    → 0 < count (n.direct (i + j)) (take_direct k i n v).1
unfolding take_direct
take_direct_has zero i n v j lt = absurd (omega arith)
take_direct_has (suc k) i n v zero lt =
    let here : i + 0 ≡ i = omega arith in
    rw here (
      omega (
        arith,
        push_has v (n.direct i),
        take_direct_keeps (n.direct i) k (i + 1) (record n { direct = update n.direct i 0 })
            (push v (n.direct i)),
      ))
take_direct_has (suc k) i n v (suc j) lt =
    let n' = record n { direct = update n.direct i 0 } in
    let shift : (i + 1) + j ≡ i + suc j = omega arith in
    let same : n'.direct ((i + 1) + j) ≡ n.direct (i + suc j) =
      update_ne n.direct i 0 ((i + 1) + j) (λ e. omega arith) ∙ ap n.direct shift in
    let ih = take_direct_has k (i + 1) n' (push v (n.direct i)) j (omega arith) in rw same at ih

module _ (d : Disk) where
  pub take_entries_keeps : (x a k i : ℕ) (v : List ℕ) → count x v ≤ count x (take_entries d a k i v)
  unfolding take_entries
  take_entries_keeps x a zero i v = omega arith
  take_entries_keeps x a (suc k) i v = omega (
    arith,
    push_keeps x v (entry_at d a i),
    take_entries_keeps x a k (i + 1) (push v (entry_at d a i)),
  )

  pub take_entries_has :
      (a k i : ℕ) (v : List ℕ) (j : ℕ)
      → j < k
      → 0 < count (entry_at d a (i + j)) (take_entries d a k i v)
  unfolding take_entries
  take_entries_has a zero i v j lt = absurd (omega arith)
  take_entries_has a (suc k) i v zero lt =
      let here : i + 0 ≡ i = omega arith in
      rw here (
        omega (
          arith,
          push_has v (entry_at d a i),
          take_entries_keeps (entry_at d a i) a k (i + 1) (push v (entry_at d a i)),
        ))
  take_entries_has a (suc k) i v (suc j) lt =
      let shift : (i + 1) + j ≡ i + suc j = omega arith in
      let ih = take_entries_has a k (i + 1) (push v (entry_at d a i)) j (omega arith) in
      rw shift at ih

  pub take_full_keeps : (x a k i : ℕ) (v : List ℕ) → count x v ≤ count x (take_full d a k i v)
  unfolding take_full
  take_full_keeps x a zero i v = omega arith
  take_full_keeps x a (suc k) i v =
      let e = entry_at d a i in
      omega (
        arith,
        push_keeps x v e,
        take_entries_keeps x e 128 0 (push v e),
        take_full_keeps x a k (i + 1) (take_entries d e 128 0 (push v e)),
      )

  pub take_full_has :
      (a k i : ℕ) (v : List ℕ) (j o : ℕ)
      → j < k
      → o < 128
      → 0 < count (entry_at d (entry_at d a (i + j)) o) (take_full d a k i v)
  unfolding take_full
  take_full_has a zero i v j o lt inside = absurd (omega arith)
  take_full_has a (suc k) i v zero o lt inside =
      let here : i + 0 ≡ i = omega arith in
      let start : 0 + o ≡ o = omega arith in
      let e = entry_at d a i in
      let w = take_entries d e 128 0 (push v e) in
      let first : 0 < count (entry_at d e o) w =
        rw start at (take_entries_has e 128 0 (push v e) o inside) in
      let all : 0 < count (entry_at d e o) (take_full d a k (i + 1) w) =
        omega (arith, first, take_full_keeps (entry_at d e o) a k (i + 1) w) in
      rw here all
  take_full_has a (suc k) i v (suc j) o lt inside =
      let shift : (i + 1) + j ≡ i + suc j = omega arith in
      let e = entry_at d a i in
      let ih =
        take_full_has a k (i + 1) (take_entries d e 128 0 (push v e)) j o (omega arith) inside in
      rw shift at ih

  pub take_last_keeps : (x a a1 b1 : ℕ) (v : List ℕ) → count x v ≤ count x (take_last d a a1 b1 v)
  unfolding take_last
  take_last_keeps x a a1 b1 v =
      let e = entry_at d a a1 in
      elim (Bool-cases (ltb 0 b1)) [
        | inl y ↦ rw y (omega (arith, push_keeps x v e, take_entries_keeps x e b1 0 (push v e)))
        | inr y ↦ rw y (omega arith)
      ]

  pub take_last_has :
      (a a1 b1 : ℕ) (v : List ℕ) (o : ℕ)
      → o < b1
      → 0 < count (entry_at d (entry_at d a a1) o) (take_last d a a1 b1 v)
  unfolding take_last
  take_last_has a a1 b1 v o lt =
      let e = entry_at d a a1 in
      let pos : ltb 0 b1 ≡ true = lt→ltb 0 b1 (omega arith) in
      let start : 0 + o ≡ o = omega arith in
      let all = rw start at (take_entries_has e b1 0 (push v e) o lt) in rw pos all

-- The leaves below an index block, where a child has `B` of them, numbered by `leaf`.
module _ (d : Disk) (child : ℕ → ℕ → List ℕ → ℕ × List ℕ) (max B : ℕ) (leaf : ℕ → ℕ → ℕ)
    (leaves : (e cur : ℕ) (v : List ℕ) → cur < max → (child e cur v).0 ≡ cur + min B (max - cur))
    (keeps : (x e cur : ℕ) (v : List ℕ) → count x v ≤ count x (child e cur v).1)
    (has : (e cur : ℕ) (v : List ℕ) (o : ℕ)
      → 0 < count e v
      → o < B
      → cur + o < max
      → 0 < count (leaf e o) (child e cur v).1) where
  collect_loop_keeps :
      (x a k i cur : ℕ) (v : List ℕ) → count x v ≤ count x (collect_loop d child a k i cur max v).1
  unfolding collect_loop
  collect_loop_keeps x a zero i cur v = omega arith
  collect_loop_keeps x a (suc k) i cur v = elim (Bool-cases (ltb cur max)) [
    | inl y ↦
        let e = entry_at d a i in
        let r = child e cur (push v e) in
        rw y (
          omega (
            arith,
            push_keeps x v e,
            keeps x e cur (push v e),
            collect_loop_keeps x a k (i + 1) r.0 r.1,
          ))
    | inr y ↦ rw y (omega arith)
  ]

  collect_loop_has :
      (a k i cur : ℕ) (v : List ℕ) (j o : ℕ)
      → j < k
      → o < B
      → cur + (j * B + o) < max
      → 0 < count (leaf (entry_at d a (i + j)) o) (collect_loop d child a k i cur max v).1
  unfolding collect_loop
  collect_loop_has a zero i cur v j o lt inside below = absurd (omega arith)
  collect_loop_has a (suc k) i cur v zero o lt inside below =
      let e = entry_at d a i in
      let r = child e cur (push v e) in
      let here : i + 0 ≡ i = omega arith in
      let more : ltb cur max ≡ true = lt→ltb cur max (omega arith) in
      rw (here, more)
        (omega (
          arith,
          has e cur (push v e) o (push_has v e) inside (omega arith),
          collect_loop_keeps (leaf e o) a k (i + 1) r.0 r.1,
        ))
  collect_loop_has a (suc k) i cur v (suc j) o lt inside below =
      let e = entry_at d a i in
      let r = child e cur (push v e) in
      let shift : (i + 1) + j ≡ i + suc j = omega arith in
      let more : ltb cur max ≡ true = lt→ltb cur max (omega arith) in
      let next : r.0 ≡ cur + B = omega (arith, leaves e cur (push v e) (omega arith)) in
      let ih =
        collect_loop_has a k (i + 1) r.0 r.1 j o (omega arith) inside (omega (arith, next)) in
      rw more (rw shift at ih)

module _ (d : Disk) (max : ℕ) where
  keeps1 : (x e cur : ℕ) (v : List ℕ) → count x v ≤ count x (collect_tree_blocks 1 d e cur max v).1
  unfolding collect_tree_blocks
  keeps1 x e cur v =
      collect_loop_keeps d (λ e leaf w. (leaf + 1, w)) max 1 (λ e o. e) (λ e cur v lt. omega arith)
        (λ x e cur v. omega arith) (λ e cur v o there lt below. there) x e 128 0 cur v

  has1 :
      (e cur : ℕ) (v : List ℕ) (o : ℕ)
      → o < 128
      → cur + o < max
      → 0 < count (entry_at d e o) (collect_tree_blocks 1 d e cur max v).1
  unfolding collect_tree_blocks
  has1 e cur v o inside below =
      let start : 0 + o ≡ o = omega arith in
      rw start at (
        collect_loop_has d (λ e leaf w. (leaf + 1, w)) max 1 (λ e o. e) (λ e cur v lt. omega arith)
          (λ x e cur v. omega arith) (λ e cur v o there lt below. there) e 128 0 cur v o 0 inside
          (omega arith) (omega arith))

  keeps2 : (x e cur : ℕ) (v : List ℕ) → count x v ≤ count x (collect_tree_blocks 2 d e cur max v).1
  unfolding collect_tree_blocks
  keeps2 x e cur v =
      collect_loop_keeps d (λ e leaf w. collect_tree_blocks 1 d e leaf max w) max 128 (entry_at d)
        (λ e cur v lt. leaves1 d max e cur v) keeps1
        (λ e cur v o there lt below. has1 e cur v o lt below) x e 128 0 cur v

  has2 :
      (e cur : ℕ) (v : List ℕ) (o : ℕ)
      → o < 16384
      → cur + o < max
      → 0
        < count
            (entry_at d (entry_at d e (o / 128)) (o % 128))
            (collect_tree_blocks 2 d e cur max v).1
  unfolding collect_tree_blocks
  has2 e cur v o inside below =
      let start : 0 + o / 128 ≡ o / 128 = omega arith in
      rw start at (
        collect_loop_has d (λ e leaf w. collect_tree_blocks 1 d e leaf max w) max 128 (entry_at d)
          (λ e cur v lt. leaves1 d max e cur v) keeps1
          (λ e cur v o there lt below. has1 e cur v o lt below) e 128 0 cur v (o / 128) (o % 128)
          (omega arith) (omega arith) (omega arith))

  -- An entry of an index block that an index block of `e` leads to.
  leaf2 : ℕ → ℕ → ℕ
  leaf2 e o = entry_at d (entry_at d e (o / 128)) (o % 128)

  pub keeps3 :
      (x e cur : ℕ) (v : List ℕ) → count x v ≤ count x (collect_tree_blocks 3 d e cur max v).1
  unfolding collect_tree_blocks leaf2
  keeps3 x e cur v =
      collect_loop_keeps d (λ e leaf w. collect_tree_blocks 2 d e leaf max w) max 16384 leaf2
        (λ e cur v lt. leaves2 d max e cur v) keeps2
        (λ e cur v o there lt below. has2 e cur v o lt below) x e 128 0 cur v

  pub has3 :
      (e cur : ℕ) (v : List ℕ) (o : ℕ)
      → o < 2097152
      → cur + o < max
      → 0
        < count
            (entry_at d (entry_at d (entry_at d e (o / 16384)) (o % 16384 / 128)) (o % 16384 % 128))
            (collect_tree_blocks 3 d e cur max v).1
  unfolding collect_tree_blocks leaf2
  has3 e cur v o inside below =
      let start : 0 + o / 16384 ≡ o / 16384 = omega arith in
      rw start at (
        collect_loop_has d (λ e leaf w. collect_tree_blocks 2 d e leaf max w) max 16384 leaf2
          (λ e cur v lt. leaves2 d max e cur v) keeps2
          (λ e cur v o there lt below. has2 e cur v o lt below) e 128 0 cur v (o / 16384)
          (o % 16384) (omega arith) (omega arith) (omega arith))
