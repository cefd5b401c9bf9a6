-- ===== src/Base/Count.antt =====
-- How often a number stands in a list.
use r_core_tutorial_code.Base.Tests.{◌==◌, if◌then◌else◌, Bool-cases, ==→eq}
use Prim.Native.Nat.{ℕ, ◌+◌, ◌<◌}
use mathlib.Core.Bool.{Bool, true, false, ◌||◌}
use mathlib.Core.Path.{◌≡◌, refl}
use mathlib.Core.List.{List, [], ◌∷◌, ◌++◌}
use mathlib.Core.Logic.{inl, inr, ◌≢◌}
use native.Mathlib.Omega.{arith}

-- 1 for the number itself, 0 for another.
unfoldable pub one : ℕ → ℕ → ℕ
one x y = if y == x then 1 else 0

unfoldable pub count : ℕ → List ℕ → ℕ
unfolding one
count x [] = 0
count x (y ∷ ys) = one x y + count x ys

-- `iter().any(|&v| v == x)`
unfoldable pub contains : ℕ → List ℕ → Bool
contains x [] = false
contains x (y ∷ ys) = y == x || contains x ys

-- The list without the first occurrence.
unfoldable pub remove : ℕ → List ℕ → List ℕ
remove x [] = []
remove x (y ∷ ys) = if y == x then ys else y ∷ remove x ys

pub one_self : (x : ℕ) → one x x ≡ 1
unfolding one
one_self x = ground arith

pub contains→count : (x : ℕ) (ys : List ℕ) → contains x ys ≡ true → 0 < count x ys
unfolding contains count one
contains→count x [] h = absurd cc
contains→count x (y ∷ ys) h = elim (Bool-cases (y == x)) [
  | inl e ↦ rw e (omega arith)
  | inr e ↦ let ih = contains→count x ys (rw e at h) in rw e (omega arith)
]

pub contains→none : (x : ℕ) (ys : List ℕ) → contains x ys ≡ false → count x ys ≡ 0
unfolding contains count one
contains→none x [] h = refl
contains→none x (y ∷ ys) h = elim (Bool-cases (y == x)) [
  | inl e ↦ let f : true ≡ false = rw e at h in absurd cc
  | inr e ↦ let ih = contains→none x ys (rw e at h) in rw e (omega arith)
]

pub count→contains : (x : ℕ) (ys : List ℕ) → 0 < count x ys → contains x ys ≡ true
count→contains x ys h = elim (Bool-cases (contains x ys)) [
  | inl e ↦ e
  | inr e ↦ absurd (omega (arith, contains→none x ys e))
]

pub count→none : (x : ℕ) (ys : List ℕ) → count x ys ≡ 0 → contains x ys ≡ false
count→none x ys h = elim (Bool-cases (contains x ys)) [
  | inl e ↦ absurd (omega (arith, contains→count x ys e))
  | inr e ↦ e
]

-- `remove` takes one occurrence away.
pub count-remove :
    (p x : ℕ) (ys : List ℕ) → 0 < count p ys → count x (remove p ys) + one x p ≡ count x ys
unfolding remove count one
count-remove p x [] h = absurd (omega arith)
count-remove p x (y ∷ ys) h = elim (Bool-cases (y == p)) [
  | inl e ↦ let q : y ≡ p = ==→eq _ _ e in rw (e, q) (omega arith)
  | inr e ↦
      let there : 0 < 0 + count p ys = rw e at h in
      let ih = count-remove p x ys (omega arith) in rw e (omega arith)
]

pub count-append : (x : ℕ) (ys zs : List ℕ) → count x (ys ++ zs) ≡ count x ys + count x zs
unfolding count
count-append x [] zs = omega arith
count-append x (y ∷ ys) zs = omega (arith, count-append x ys zs)

pub count_nothing : (ys : List ℕ) → ((x : ℕ) → count x ys ≡ 0) → ys ≡ []
unfolding count
count_nothing [] h = refl
count_nothing (y ∷ ys) h = absurd (omega (arith, h y, one_self y))

pub one_ne : (x y : ℕ) → x ≢ y → one x y ≡ 0
unfolding one
one_ne x y ne = ground arith
