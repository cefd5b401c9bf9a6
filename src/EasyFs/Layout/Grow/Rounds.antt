-- ===== src/EasyFs/Layout/Grow/Rounds.antt =====
-- Runs that take a number of blocks from the iterator, and how they compose; the loops of
-- `increase_size` over entries.
use r_core_tutorial_code.Base.{
  ℕ, zero, suc, ◌+◌, ◌*◌, ◌≤◌, ◌<◌, ◌≡◌, List, [], ◌∷◌, State, ok, pure, ◌>>=◌, ◌>>◌, if◌then◌else◌,
  update, refl, ◌∙◌, drop, drop-drop, length, length-drop, arith, Bool, true, false, lt→ltb,
}
use r_core_tutorial_code.EasyFs.Block.{Disk, get_u32, put_u32}
use r_core_tutorial_code.EasyFs.Layout.Inode.{DiskInode}
use r_core_tutorial_code.EasyFs.Layout.Index.{entry, set_entry}
use r_core_tutorial_code.EasyFs.Layout.Grow.{
  Feed, feed, next, next_block, on_disk, next_if, fill_direct, fill_block, set_next_if,
}

-- With `k` blocks left at least, the run takes the first `k`, does not panic, and its result has `P`.
pub record Takes {A : Type 0} (k : ℕ) (P : A → Type 0) (m : State Feed A) : Type 0 where
  pub run :
      (d : Disk) (v : List ℕ)
      → k ≤ length v
      → (a : A) × (e : Disk) × (m (feed d v) ≡ ok (a, feed e (drop k v))) × P a

abbrev pub Any : {A : Type 0} → A → Type 0
Any _ = Unit {0}

pub Takes-pure : {A : Type 0} {P : A → Type 0} (a : A) → P a → Takes 0 P (pure a)
Takes-pure a p = record { run = λ d v le. (a, d, refl, p) }

pub Takes-bind :
    {A B : Type 0} {P : A → Type 0} {Q : B → Type 0} {k l : ℕ} {m : State Feed A}
    {f : A → State Feed B}
    → Takes k P m
    → ((a : A) → P a → Takes l Q (f a))
    → Takes (k + l) Q (m >>= f)
Takes-bind {k} {l} s t = record {
  run = λ d v le.
      let (a, e, res, p) = s.run d v (omega arith) in
      let (b, g, res', q) = (t a p).run e (drop k v) (omega (arith, length-drop k v)) in
      (b, g, rw (res, ◌>>=◌) (res' ∙ rw (drop-drop k l v)), q);
}

-- The same run, counted in another way.
pub Takes-eq :
    {A : Type 0} {P : A → Type 0} {m : State Feed A} (k l : ℕ) → k ≡ l → Takes k P m → Takes l P m
Takes-eq k l e s = rw e at s

-- The same run, with a weaker claim of its result.
pub Takes-post :
    {A : Type 0} {P Q : A → Type 0} {k : ℕ} {m : State Feed A}
    → ((a : A) → P a → Q a)
    → Takes k P m
    → Takes k Q m
Takes-post f s = record { run = λ d v le. let (a, e, res, p) = s.run d v le in (a, e, res, f a p) }

pub Takes-next : Takes 1 Any next
unfolding next next_block
Takes-next = record { run = λ d v le. step d v le }
  where
    step :
        (d : Disk) (v : List ℕ)
        → 1 ≤ length v
        → (a : ℕ) × (e : Disk) × (next (feed d v) ≡ ok (a, feed e (drop 1 v))) × Unit {0}
    step d [] le = absurd (omega arith)
    step d (b ∷ v) le = (b, d, refl, tt)

pub Takes-entry : (block_id i : ℕ) → i < 128 → Takes 0 Any (on_disk (entry block_id i))
unfolding entry
Takes-entry block_id i lt = record {
  run = λ d v le. (get_u32 (d block_id) (4 * i), d, rw (lt→ltb i 128 lt, ◌>>◌), tt);
}

pub Takes-set_entry : (block_id i b : ℕ) → i < 128 → Takes 0 Any (on_disk (set_entry block_id i b))
unfolding set_entry
Takes-set_entry block_id i b lt = record {
  run = λ d v le.
      (tt, update d block_id (put_u32 (d block_id) (4 * i) b), rw (lt→ltb i 128 lt, ◌>>◌), tt);
}

pub Takes-next_if :
    {A : Type 0} {P : A → Type 0} (test : Bool) (assign : ℕ → A) (old : A)
    → ((b : ℕ) → P (assign b))
    → P old
    → Takes (if test then 1 else 0) P (next_if test assign old)
unfolding next_if
Takes-next_if true assign old new_holds old_holds =
    Takes-eq (1 + 0) 1 (omega arith)
      (Takes-bind Takes-next (λ b _. Takes-pure (assign b) (new_holds b)))
Takes-next_if false assign old new_holds old_holds = Takes-pure old old_holds

pub Takes-set_next_if :
    (test : Bool) (block_id i : ℕ)
    → i < 128
    → Takes (if test then 1 else 0) Any (set_next_if test block_id i)
unfolding set_next_if
Takes-set_next_if true block_id i lt =
    Takes-eq (1 + 0) 1 (omega arith)
      (Takes-bind Takes-next (λ b _. Takes-set_entry block_id i b lt))
Takes-set_next_if false block_id i lt = Takes-pure tt tt

-- The loops take a block for each round.
pub Takes-fill_direct :
    (k current : ℕ) (n : DiskInode)
    → Takes k (λ (m : DiskInode). m.size ≡ n.size) (fill_direct k current n)
unfolding fill_direct
Takes-fill_direct zero current n = Takes-pure n refl
Takes-fill_direct (suc k) current n = Takes-eq (1 + k) (suc k) (omega arith) (
    Takes-bind Takes-next
      (λ b _. Takes-fill_direct k (current + 1) (record n { direct = update n.direct current b })))

pub Takes-fill_block :
    (block_id k current : ℕ)
    → (0 < k → current + k ≤ 128)
    → Takes k Any (fill_block block_id k current)
unfolding fill_block
Takes-fill_block block_id zero current le = Takes-pure tt tt
Takes-fill_block block_id (suc k) current le = Takes-eq (1 + (0 + k)) (suc k) (omega arith) (
    Takes-bind Takes-next (λ b _.
      Takes-bind (Takes-set_entry block_id current b (omega arith))
        (λ _ _. Takes-fill_block block_id k (current + 1) (omega arith))))
