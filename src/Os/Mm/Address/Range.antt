-- ===== src/Os/Mm/Address/Range.antt =====
-- The iteration over a range.
use r_core_tutorial_code.Base.{
  ℕ, zero, suc, ◌+◌, ◌-◌, ◌%◌, ◌^◌, ◌<◌, ◌≡◌, refl, arith, some, ok, panic, leb, eq→==, ne→==,
  tabulate, ap, ◌⊎◌, inl, inr, Bool-cases, leb→le, leb→lt,
}
use r_core_tutorial_code.Os.Mm.Address.{SimpleRange, new, step, next, elements, first_of}

elements_lem :
    (n l r : ℕ)
    → l + n ≡ r
    → r < 2 ^ 64
    → elements (suc n) (record { l = l; r = r }) ≡ some (tabulate n l (λ k. k))
unfolding elements next first_of step
elements_lem zero l r e lt = rw (eq→== l r (omega arith)) refl
elements_lem (suc n) l r e lt =
    let s : (l + 1) % 2 ^ 64 ≡ l + 1 = omega arith in
    let ih = elements_lem n (l + 1) r (omega arith) lt in
    rw (ne→== l r (omega arith), s) (ap (λ t. first_of (some l) t) ih)

-- A range is made unless its end, below `2 ^ 64`, is before its start, which panics; and the
-- iteration over it stops and gives the numbers from the start up to the end without it, in order.
pub range_lem :
    (start end : ℕ)
    → end < 2 ^ 64
    → ((new start end ≡ panic) × (end < start))
      ⊎ ((it : SimpleRange) × (new start end ≡ ok it)
          × (elements (suc (end - start)) it ≡ some (tabulate (end - start) start (λ k. k))))
unfolding new
range_lem start end lt = elim (Bool-cases (leb start end)) [
  | inl x ↦ inr (
    record { l = start; r = end },
    rw x refl,
    elements_lem (end - start) start end (omega (arith, leb→le _ _ x)) lt,
  )
  | inr x ↦ inl (rw x refl, leb→lt _ _ x)
]
