-- ===== src/EasyFs/Layout/Grow/Exact.antt =====
-- `increase_size` takes exactly the blocks that `blocks_num_needed` asks for.
use r_core_tutorial_code.Base.{
  ℕ, ◌+◌, ◌*◌, ◌-◌, ◌/◌, ◌%◌, ◌≤◌, ◌≡◌, min, ltb, ◌==◌, if◌then◌else◌, ◌∙◌, arith, Bool, refl, true,
  false, ltb→lt, pure, ap,
}
use r_core_tutorial_code.EasyFs.Layout.Inode.{DiskInode}
use r_core_tutorial_code.EasyFs.Layout.Index.{decompose2}
use r_core_tutorial_code.EasyFs.Layout.Size.{data_blocks, data_blocks_of}
use r_core_tutorial_code.EasyFs.Layout.Shrink.Count.{tree2, tree3}
use r_core_tutorial_code.EasyFs.Layout.Grow.{
  grow_indirect1, grow_indirect2, grow_indirect3, increase_size,
}
use r_core_tutorial_code.EasyFs.Layout.Grow.Rounds.{
  Takes, Takes-pure, Takes-bind, Takes-eq, Takes-post, Takes-next_if, Takes-fill_direct,
  Takes-fill_block,
}
use r_core_tutorial_code.EasyFs.Layout.Grow.Indirect2.{Takes-fill_indirect2}
use r_core_tutorial_code.EasyFs.Layout.Grow.Tree.{Takes-build_tree3}

-- The size of the inode is kept.
abbrev Sized : ℕ → DiskInode → Type 0
Sized size m = m.size ≡ size

-- The blocks that each part takes to go from `c` data blocks to `t`.
unfoldable pub need3 : ℕ → ℕ → ℕ
need3 c t = (if c == 16384 then 1 else 0) + (tree3 (t - 16384) - tree3 (c - 16384))

unfoldable pub need2 : ℕ → ℕ → ℕ
need2 c t =
    (if c == 128 then 1 else 0)
    + (tree2 (min (t - 128) 16384) - tree2 (c - 128))
    + (if ltb 16384 (t - 128)
        then need3 (c - 128 + (min (t - 128) 16384 - (c - 128))) (t - 128)
        else 0)

unfoldable pub need1 : ℕ → ℕ → ℕ
need1 c t =
    (if c == 27 then 1 else 0)
    + (min (t - 27) 128 - (c - 27))
    + (if ltb 128 (t - 27) then need2 (c - 27 + (min (t - 27) 128 - (c - 27))) (t - 27) else 0)

Takes-grow_indirect3 :
    (n : DiskInode) (c t : ℕ)
    → c ≤ t
    → t - 16384 ≤ 2097152
    → Takes (need3 c t) (Sized n.size) (grow_indirect3 n c t)
unfolding grow_indirect3 need3
Takes-grow_indirect3 n c t le top =
    let p : min 2097152 (t - 16384 - 0) ≡ t - 16384 = omega arith in
    let q : min 2097152 (c - 16384 - 0) ≡ c - 16384 = omega arith in
    Takes-eq
      ((if c == 16384 then 1 else 0)
        + (tree3 (min 2097152 (t - 16384 - 0)) - tree3 (min 2097152 (c - 16384 - 0)) + 0))
      (need3 c t) (omega (arith, ap tree3 p, ap tree3 q))
      (Takes-bind
        (Takes-next_if {P = Sized n.size} (c == 16384) (λ b. record n { indirect3 = b }) n
          (λ b. refl) refl)
        (λ m same.
          Takes-bind (Takes-build_tree3 (c - 16384) (t - 16384) (omega arith) m.indirect3 0)
            (λ _ _. Takes-pure m same)))

Takes-grow_indirect2 :
    (n : DiskInode) (c t : ℕ)
    → c ≤ t
    → 128 ≤ c
    → t - 128 ≤ 16384 + 2097152
    → Takes (need2 c t) (Sized n.size) (grow_indirect2 n c t)
unfolding grow_indirect2 decompose2 need2
Takes-grow_indirect2 n c t le low top =
    let q = min (t - 128) 16384 in
    let dq : q / 128 * 128 + q % 128 ≡ q = omega arith in
    let dp : (c - 128) / 128 * 128 + (c - 128) % 128 ≡ c - 128 = omega arith in
    Takes-eq
      ((if c == 128 then 1 else 0)
        + (tree2 q
            - tree2 (c - 128)
            + (if ltb 16384 (t - 128) then need3 (c - 128 + (q - (c - 128))) (t - 128) else 0)))
      (need2 c t) (omega arith)
      (Takes-bind
        (Takes-next_if {P = Sized n.size} (c == 128) (λ b. record n { indirect2 = b }) n (λ b. refl)
          refl)
        (λ m same.
          Takes-bind
            (rw (dq, dp) at
              (Takes-fill_indirect2 (q - (c - 128) + 1) m.indirect2 ((c - 128) / 128)
                ((c - 128) % 128) (q / 128) (q % 128) (c - 128) (omega arith) (omega arith)
                (omega arith) (omega arith)))
            (λ c' h. rw h (rest m same (ltb 16384 (t - 128)) refl))))
  where
    rest :
        (m : DiskInode)
        → Sized n.size m
        → (b : Bool) → ltb 16384 (t - 128) ≡ b
        → let c' = c - 128 + (min (t - 128) 16384 - (c - 128)) in
          Takes
            (if b then need3 c' (t - 128) else 0)
            (Sized n.size)
            (if b then grow_indirect3 m c' (t - 128) else pure m)
    rest m same true x =
        Takes-post (λ k h. h ∙ same)
          (Takes-grow_indirect3 m (c - 128 + (min (t - 128) 16384 - (c - 128))) (t - 128)
            (omega (arith, ltb→lt _ _ x)) (omega arith))
    rest m same false x = Takes-pure m same

Takes-grow_indirect1 :
    (n : DiskInode) (c t : ℕ)
    → c ≤ t
    → 27 ≤ c
    → t - 155 ≤ 16384 + 2097152
    → Takes (need1 c t) (Sized n.size) (grow_indirect1 n c t)
unfolding grow_indirect1 need1
Takes-grow_indirect1 n c t le low top =
    Takes-eq
      ((if c == 27 then 1 else 0)
        + (min (t - 27) 128
            - (c - 27)
            + (if ltb 128 (t - 27)
                then need2 (c - 27 + (min (t - 27) 128 - (c - 27))) (t - 27)
                else 0)))
      (need1 c t) (omega arith)
      (Takes-bind
        (Takes-next_if {P = Sized n.size} (c == 27) (λ b. record n { indirect1 = b }) n (λ b. refl)
          refl)
        (λ m same.
          Takes-bind
            (Takes-fill_block m.indirect1 (min (t - 27) 128 - (c - 27)) (c - 27) (omega arith))
            (λ _ _. rest m same (ltb 128 (t - 27)) refl)))
  where
    rest :
        (m : DiskInode)
        → Sized n.size m
        → (b : Bool) → ltb 128 (t - 27) ≡ b
        → let c' = c - 27 + (min (t - 27) 128 - (c - 27)) in
          Takes
            (if b then need2 c' (t - 27) else 0)
            (Sized n.size)
            (if b then grow_indirect2 m c' (t - 27) else pure m)
    rest m same true x =
        Takes-post (λ k h. h ∙ same)
          (Takes-grow_indirect2 m (c - 27 + (min (t - 27) 128 - (c - 27))) (t - 27)
            (omega (arith, ltb→lt _ _ x)) (omega (arith, ltb→lt _ _ x)) (omega arith))
    rest m same false x = Takes-pure m same

-- From `c` data blocks to `t`, all parts together.
unfoldable pub need : ℕ → ℕ → ℕ
need c t = min t 27 - c + (if ltb 27 t then need1 (c + (min t 27 - c)) t else 0)

pub Takes-increase_size :
    (n : DiskInode) (new_size : ℕ)
    → data_blocks n ≤ data_blocks_of new_size
    → data_blocks_of new_size ≤ 155 + 16384 + 2097152
    → Takes
        (need (data_blocks n) (data_blocks_of new_size))
        (Sized new_size)
        (increase_size n new_size)
unfolding increase_size need
Takes-increase_size n new_size le top =
    let c = data_blocks n in
    let t = data_blocks_of new_size in
    Takes-bind (Takes-fill_direct (min t 27 - c) c (record n { size = new_size }))
      (λ m same. rest m same (ltb 27 t) refl)
  where
    rest :
        (m : DiskInode)
        → Sized new_size m
        → (b : Bool) → ltb 27 (data_blocks_of new_size) ≡ b
        → let t = data_blocks_of new_size in
          let c' = data_blocks n + (min t 27 - data_blocks n) in
          Takes
            (if b then need1 c' t else 0)
            (Sized new_size)
            (if b then grow_indirect1 m c' t else pure m)
    rest m same true x =
        let t = data_blocks_of new_size in
        Takes-post (λ k h. h ∙ same)
          (Takes-grow_indirect1 m (data_blocks n + (min t 27 - data_blocks n)) t
            (omega (arith, ltb→lt _ _ x)) (omega (arith, ltb→lt _ _ x)) (omega arith))
    rest m same false x = Takes-pure m same
