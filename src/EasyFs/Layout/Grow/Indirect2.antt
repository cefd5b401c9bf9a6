-- ===== src/EasyFs/Layout/Grow/Indirect2.antt =====
-- The loop of `increase_size` under `indirect2`.
use r_core_tutorial_code.Base.{
  ℕ, zero, suc, ◌+◌, ◌*◌, ◌-◌, ◌≤◌, ◌<◌, ◌≡◌, ltb, ◌==◌, ◌&&◌, ◌||◌, if◌then◌else◌, ◌∙◌, arith,
  Bool, true, false, Bool-cases, inl, inr, ==→eq, ==→ne,
}
use r_core_tutorial_code.EasyFs.Layout.Shrink.Count.{tree2}
use r_core_tutorial_code.EasyFs.Layout.Grow.{fill_indirect2}
use r_core_tutorial_code.EasyFs.Layout.Grow.Rounds.{
  Takes, Takes-pure, Takes-bind, Takes-eq, Takes-post, Takes-next, Takes-entry, Takes-set_entry,
  Takes-set_next_if,
}

-- One round under `indirect2`.
module _ (a0 b0 a1 b1 : ℕ) where
  going : Bool
  going = ltb a0 a1 || (a0 == a1 && ltb b0 b1)

  going-lt : going ≡ true → b0 < 128 → b1 < 128 → a0 * 128 + b0 < a1 * 128 + b1
  unfolding going
  going-lt h p q = ground arith

  stopped-le : going ≡ false → b0 < 128 → b1 < 128 → a1 * 128 + b1 ≤ a0 * 128 + b0
  unfolding going
  stopped-le h p q = ground arith

-- The entry behind `(a0, b0)`.
next_a : ℕ → ℕ → ℕ
next_a a0 b0 = if b0 + 1 == 128 then a0 + 1 else a0

next_b : ℕ → ℕ
next_b b0 = if b0 + 1 == 128 then 0 else b0 + 1

next_position :
    (a0 b0 : ℕ)
    → b0 < 128
    → (next_a a0 b0 * 128 + next_b b0 ≡ a0 * 128 + b0 + 1) × (next_b b0 < 128)
unfolding next_a next_b
next_position a0 b0 h = ground arith

-- The blocks of a round and those of the rest.
count :
    (a0 b0 q : ℕ)
    → b0 < 128
    → a0 * 128 + b0 < q
    → (if b0 == 0 then 1 else 0)
        + (0 + (1 + (0 + (tree2 q - tree2 (next_a a0 b0 * 128 + next_b b0)))))
      ≡ tree2 q - tree2 (a0 * 128 + b0)
count a0 b0 q h lt =
    let pos = next_position a0 b0 h in
    elim (Bool-cases (b0 == 0)) [
      | inl x ↦ rw (x, pos.0) (omega (arith, ==→eq _ _ x))
      | inr x ↦ rw (x, pos.0) (omega (arith, ==→ne _ _ x))
    ]

-- From `(a0, b0)` to `(a1, b1)`, the loop takes a block for each entry, and one for each index block
-- that it begins.
pub Takes-fill_indirect2 :
    (fuel block_id a0 b0 a1 b1 current : ℕ)
    → b0 < 128
    → b1 < 128
    → a1 * 128 + b1 ≤ 16384
    → a1 * 128 + b1 - (a0 * 128 + b0) < fuel
    → Takes
        (tree2 (a1 * 128 + b1) - tree2 (a0 * 128 + b0))
        (λ (c : ℕ). c ≡ current + (a1 * 128 + b1 - (a0 * 128 + b0)))
        (fill_indirect2 fuel block_id a0 b0 a1 b1 current)
unfolding fill_indirect2 going next_a next_b
Takes-fill_indirect2 zero block_id a0 b0 a1 b1 current p q top f = absurd (omega arith)
Takes-fill_indirect2 (suc fuel) block_id a0 b0 a1 b1 current p q top f =
    elim (Bool-cases (going a0 b0 a1 b1)) [
      | inl x ↦
          let lt = going-lt a0 b0 a1 b1 x p q in
          let (pos, small) = next_position a0 b0 p in
          rw x (
            Takes-eq
              ((if b0 == 0 then 1 else 0)
                + (0
                    + (1 + (0 + (tree2 (a1 * 128 + b1) - tree2 (next_a a0 b0 * 128 + next_b b0))))))
              (tree2 (a1 * 128 + b1) - tree2 (a0 * 128 + b0)) (count a0 b0 (a1 * 128 + b1) p lt)
              (Takes-bind (Takes-set_next_if (b0 == 0) block_id a0 (omega arith)) (λ _ _.
                Takes-bind (Takes-entry block_id a0 (omega arith)) (λ e _.
                  Takes-bind Takes-next (λ b _. Takes-bind (Takes-set_entry e b0 b p) (λ _ _.
                    Takes-post (λ c h. h ∙ omega arith)
                      (Takes-fill_indirect2 fuel block_id (next_a a0 b0) (next_b b0) a1 b1
                        (current + 1) small q top (omega arith))))))))
      | inr x ↦
          let le = stopped-le a0 b0 a1 b1 x p q in
          rw x (
            Takes-eq 0 (tree2 (a1 * 128 + b1) - tree2 (a0 * 128 + b0)) (omega arith)
              (Takes-pure current (omega arith)))
    ]
