-- ===== src/Os/Task/Pid/Uniqueness.antt =====
-- No two live processes have the same id.
use mathlib.Core.Path.{subst}
use r_core_tutorial_code.Base.{
  ℕ, ◌+◌, ◌^◌, ◌%◌, ◌<◌, ◌≤◌, ◌≡◌, refl, ap, arith, List, [], ◌∷◌, ok, panic, ltb, if◌then◌else◌,
  Bool-cases, inl, inr, ◌⊎◌, ltb→lt, ltb→le, lt→ltb,
}
use r_core_tutorial_code.Base.Count.{
  count, one, remove, one_self, count→contains, count→none, count-remove,
}
use r_core_tutorial_code.Os.Task.Pid.{
  PidAllocator, new, alloc, alloc_from, dealloc, Reachable, start, allocated, dropped,
}

-- 1 below `m`.
unfoldable pub below : ℕ → ℕ → ℕ
below m x = if ltb x m then 1 else 0

-- Each id that was given out is live or recycled, once; no other is. `live` counts the live handles.
abbrev pub IsWellFormed : PidAllocator → (ℕ → ℕ) → Type 0
IsWellFormed a live = (x : ℕ) → live x + count x a.recycled ≡ below a.current x

below-pos : (m x : ℕ) → 0 < below m x → x < m
unfolding below
below-pos m x h = ground arith

pub below-le : (m x : ℕ) → below m x ≤ 1
unfolding below
below-le m x = ground arith

below-here : (m : ℕ) → below m m ≡ 0
unfolding below
below-here m = ground arith

below-grow : (m x : ℕ) → below (m + 1) x ≡ below m x + one x m
unfolding below one
below-grow m x = ground arith

pub alloc_step :
    (a : PidAllocator) (live : ℕ → ℕ)
    → IsWellFormed a live
    → a.current + 1 < 2 ^ 64
    → (live ((alloc a).0) ≡ 0) × IsWellFormed ((alloc a).1) (λ x. one x ((alloc a).0) + live x)
unfolding alloc alloc_from count
alloc_step a live w small = go a.recycled refl
  where
    go :
        (v : List ℕ)
        → a.recycled ≡ v
        → (live ((alloc_from v a).0) ≡ 0)
          × IsWellFormed ((alloc_from v a).1) (λ x. one x ((alloc_from v a).0) + live x)
    go [] e =
        let c = a.current in
        let s : (c + 1) % 2 ^ 64 ≡ c + 1 = omega arith in
        (
          omega (arith, w c, below-here c),
          λ x. let g = below-grow c x in rw s (omega (arith, w x, g)),
        )
    go (pid ∷ rest) e =
        let counts = λ (x : ℕ). ap (count x) e in
        (
          omega (arith, w pid, counts pid, one_self pid, below-le a.current pid),
          λ x. omega (arith, w x, counts x),
        )

pub drop_step :
    (a : PidAllocator) (live rest : ℕ → ℕ) (pid : ℕ)
    → IsWellFormed a live
    → 0 < live pid
    → ((x : ℕ) → rest x + one x pid ≡ live x)
    → (dealloc a pid ≡ ok (record a { recycled = pid ∷ a.recycled }))
      × IsWellFormed (record a { recycled = pid ∷ a.recycled }) rest
unfolding dealloc count
drop_step a live rest pid w there taken =
    let lt = below-pos a.current pid (omega (arith, w pid)) in
    let free : count pid a.recycled ≡ 0 = omega (arith, w pid, below-le a.current pid) in
    (
      rw (lt→ltb pid a.current lt, count→none pid a.recycled free) refl,
      λ x. omega (arith, w x, taken x),
    )

pub start-IsWellFormed : IsWellFormed new (λ x. 0)
unfolding new count below
start-IsWellFormed x = ground arith

Reachable-IsWellFormed :
    (a : PidAllocator) (live : List ℕ) → Reachable a live → IsWellFormed a (λ x. count x live)
unfolding count
Reachable-IsWellFormed _ _ start = start-IsWellFormed
Reachable-IsWellFormed _ _ (allocated a live run small) =
    (alloc_step a (λ x. count x live) (Reachable-IsWellFormed a live run) small).1
Reachable-IsWellFormed _ _ (dropped a b live pid run there e) =
    let (res, w) =
      drop_step a (λ x. count x live) (λ x. count x (remove pid live)) pid
        (Reachable-IsWellFormed a live run) there (λ x. count-remove pid x live there) in
    let be : record a { recycled = pid ∷ a.recycled } ≡ b = cc in
    subst (λ (c : PidAllocator). IsWellFormed c (λ x. count x (remove pid live))) be w

-- In each state that calls of `alloc`, with the counter below `2 ^ 64 - 1`, and drops of handles
-- lead to, while the counter is below it, the id that `alloc` gives is not a live one.
pub alloc_pid :
    (a : PidAllocator) (live : List ℕ)
    → Reachable a live
    → a.current + 1 < 2 ^ 64
    → count ((alloc a).0) live ≡ 0
alloc_pid a live run small =
    (alloc_step a (λ x. count x live) (Reachable-IsWellFormed a live run) small).0

-- In each state that calls of `alloc`, with the counter below `2 ^ 64 - 1`, and drops of handles
-- lead to, `dealloc` of an id succeeds if it is live and panics if it is not.
pub dealloc_pid :
    (a : PidAllocator) (live : List ℕ) (pid : ℕ)
    → Reachable a live
    → ((0 < count pid live) × ((b : PidAllocator) × (dealloc a pid ≡ ok b)))
      ⊎ ((count pid live ≡ 0) × (dealloc a pid ≡ panic))
unfolding dealloc below
dealloc_pid a live pid run =
    let w = Reachable-IsWellFormed a live run in
    elim (Bool-cases (ltb 0 (count pid live))) [
      | inl x ↦ inl (
        ltb→lt _ _ x,
        (
          record a { recycled = pid ∷ a.recycled },
          (drop_step a (λ y. count y live) (λ y. count y (remove pid live)) pid w (ltb→lt _ _ x)
              (λ y. count-remove pid y live (ltb→lt _ _ x))).0,
        ),
      )
      | inr x ↦
          let gone : count pid live ≡ 0 = omega (arith, ltb→le _ _ x) in
          elim (Bool-cases (ltb pid a.current)) [
            | inl y ↦
                let free : 0 < count pid a.recycled = ground (arith, w pid) in
                inr (gone, rw (y, count→contains pid a.recycled free) refl)
            | inr y ↦ inr (gone, rw y refl)
          ]
    ]
