-- ===== src/EasyFs/Layout/Grow/Tree.antt =====
-- `build_tree` takes a block for each node that it adds.
use r_core_tutorial_code.Base.{
  ℕ, zero, suc, ◌+◌, ◌*◌, ◌-◌, ◌≤◌, ◌<◌, ◌≡◌, min, ltb, leb, if◌then◌else◌, ◌∙◌, arith, refl,
  Bool-cases, inl, inr, ltb→lt, ltb→le, leb→le, leb→lt, State, pure, ap,
}
use r_core_tutorial_code.EasyFs.Layout.Shrink.Count.{tree1, tree2, tree3}
use r_core_tutorial_code.EasyFs.Layout.Grow.{Feed, build_loop, build_tree}
use r_core_tutorial_code.EasyFs.Layout.Grow.Rounds.{
  Takes, Takes-pure, Takes-bind, Takes-eq, Takes-post, Takes-entry, Takes-set_next_if,
}

-- Trees whose children have `B` leaves at most, and `F m` blocks below a child with `m` leaves.
module _ (child : ℕ → ℕ → State Feed ℕ) (src dst B : ℕ) (F G : ℕ → ℕ) (pos : 0 < B) (le : src ≤ dst)
    (F_mono : (a b : ℕ) → a ≤ b → F a ≤ F b) (G_mono : (a b : ℕ) → a ≤ b → G a ≤ G b)
    (F_zero : F 0 ≡ 0) (G_zero : G 0 ≡ 0)
    (G_step : (m : ℕ) → 0 < m → G m ≡ 1 + F (min B m) + G (m - B))
    (below : (e cur : ℕ)
      → cur < dst
      → Takes
          (F (min B (dst - cur)) - F (min B (src - cur)))
          (λ (c : ℕ). c ≡ cur + min B (dst - cur))
          (child e cur)) where
  -- The nodes of a round and those of the rest.
  round_count :
      (k cur : ℕ)
      → cur < dst
      → let cur' = cur + min B (dst - cur) in
        (if leb src cur then 1 else 0)
          + (0
              + (F (min B (dst - cur))
                  - F (min B (src - cur))
                  + (G (min (k * B) (dst - cur')) - G (min (k * B) (src - cur')))))
        ≡ G (min (suc k * B) (dst - cur)) - G (min (suc k * B) (src - cur))
  round_count k cur lt = elim (Bool-cases (leb src cur)) [
    | inl x ↦
        let s = leb→le _ _ x in
        let m = min (suc k * B) (dst - cur) in
        let cur' = cur + min B (dst - cur) in
        let p : min (suc k * B) (src - cur) ≡ 0 = omega arith in
        let p' : min (k * B) (src - cur') ≡ 0 = omega arith in
        let p'' : min B (src - cur) ≡ 0 = omega arith in
        let q : min B m ≡ min B (dst - cur) = omega arith in
        let r : m - B ≡ min (k * B) (dst - cur') = omega arith in
        let m_pos : 0 < m = omega arith in
        rw x
          (omega (arith, G_step m m_pos, ap F q, ap G r, ap G p, ap G p', ap F p'', F_zero, G_zero))
    | inr x ↦
        let s = leb→lt _ _ x in
        let m = min (suc k * B) (dst - cur) in
        let n = min (suc k * B) (src - cur) in
        let cur' = cur + min B (dst - cur) in
        let q : min B m ≡ min B (dst - cur) = omega arith in
        let r : m - B ≡ min (k * B) (dst - cur') = omega arith in
        let q' : min B n ≡ min B (src - cur) = omega arith in
        let r' : n - B ≡ min (k * B) (src - cur') = omega arith in
        let m_pos : 0 < m = omega arith in
        let n_pos : 0 < n = omega arith in
        rw x (
          omega (
            arith,
            G_step m m_pos,
            G_step n n_pos,
            ap F q,
            ap G r,
            ap F q',
            ap G r',
            F_mono (min B n) (min B m) (omega arith),
            G_mono (n - B) (m - B) (omega arith),
          ))
  ]

  Takes-build_loop :
      (block_id k i cur : ℕ)
      → i + k ≤ 128
      → Takes
          (G (min (k * B) (dst - cur)) - G (min (k * B) (src - cur)))
          (λ (c : ℕ). c ≡ cur + min (k * B) (dst - cur))
          (build_loop child block_id k i cur src dst)
  unfolding build_loop
  Takes-build_loop block_id zero i cur fits =
      let p : min (0 * B) (dst - cur) ≡ 0 = omega arith in
      Takes-eq 0 (G (min (0 * B) (dst - cur)) - G (min (0 * B) (src - cur)))
        (omega (arith, ap G p, G_zero)) (Takes-pure cur (omega arith))
  Takes-build_loop block_id (suc k) i cur fits = elim (Bool-cases (ltb cur dst)) [
    | inl x ↦
        let lt : cur < dst = ltb→lt _ _ x in
        let cur' = cur + min B (dst - cur) in
        rw x (
          Takes-eq
            ((if leb src cur then 1 else 0)
              + (0
                  + (F (min B (dst - cur))
                      - F (min B (src - cur))
                      + (G (min (k * B) (dst - cur')) - G (min (k * B) (src - cur'))))))
            (G (min (suc k * B) (dst - cur)) - G (min (suc k * B) (src - cur)))
            (round_count k cur lt)
            (Takes-bind (Takes-set_next_if (leb src cur) block_id i (omega arith)) (λ _ _.
              Takes-bind (Takes-entry block_id i (omega arith)) (λ e _.
                Takes-bind (below e cur lt) (λ leaf h. rw h (
                  Takes-post (λ c h'. h' ∙ omega arith)
                    (Takes-build_loop block_id k (i + 1) cur' (omega arith))))))))
    | inr x ↦
        let p : min (suc k * B) (dst - cur) ≡ 0 = omega (arith, ltb→le _ _ x) in
        rw x (
          Takes-eq 0 (G (min (suc k * B) (dst - cur)) - G (min (suc k * B) (src - cur)))
            (omega (arith, ap G p, G_zero)) (Takes-pure cur (omega arith)))
  ]

-- `build_tree`, depth by depth.
module _ (src dst : ℕ) (le : src ≤ dst) where
  Takes-build_tree1 :
      (e cur : ℕ)
      → Takes
          (tree1 (min 128 (dst - cur)) - tree1 (min 128 (src - cur)))
          (λ (c : ℕ). c ≡ cur + min 128 (dst - cur))
          (build_tree 1 e cur src dst)
  unfolding build_tree
  Takes-build_tree1 e cur =
      Takes-build_loop (λ e leaf. pure (leaf + 1)) src dst 1 (λ _. 0) tree1 (omega arith) le
        (λ a b h. omega arith) (λ a b h. omega arith) refl refl (λ m p. omega arith)
        (λ e cur lt. Takes-pure (cur + 1) (omega arith)) e 128 0 cur (omega arith)

  Takes-build_tree2 :
      (e cur : ℕ)
      → Takes
          (tree2 (min 16384 (dst - cur)) - tree2 (min 16384 (src - cur)))
          (λ (c : ℕ). c ≡ cur + min 16384 (dst - cur))
          (build_tree 2 e cur src dst)
  unfolding build_tree
  Takes-build_tree2 e cur =
      Takes-build_loop (λ e leaf. build_tree 1 e leaf src dst) src dst 128 tree1 tree2 (omega arith)
        le (λ a b h. omega arith) (λ a b h. omega arith) refl refl (λ m p. omega arith)
        (λ e cur lt. Takes-build_tree1 e cur) e 128 0 cur (omega arith)

  pub Takes-build_tree3 :
      (e cur : ℕ)
      → Takes
          (tree3 (min 2097152 (dst - cur)) - tree3 (min 2097152 (src - cur)))
          (λ (c : ℕ). c ≡ cur + min 2097152 (dst - cur))
          (build_tree 3 e cur src dst)
  unfolding build_tree
  Takes-build_tree3 e cur =
      Takes-build_loop (λ e leaf. build_tree 2 e leaf src dst) src dst 16384 tree2 tree3
        (omega arith) le (λ a b h. omega arith) (λ a b h. omega arith) refl refl
        (λ m p. omega arith) (λ e cur lt. Takes-build_tree2 e cur) e 128 0 cur (omega arith)
