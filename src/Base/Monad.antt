-- ===== src/Base/Monad.antt =====
-- Runs that may panic or run out of fuel, and the state monad over them.
use mathlib.Core.Bool.{Bool, true, false}
use mathlib.Core.Option.{Option, none, some}

-- `panic` is a Rust panic: a failed assertion, an `unwrap` of `None`, an index out of bounds.
pub data Result {ℓ} (A : Type ℓ) : Type ℓ where
  ok : A → Result A
  panic : Result A
  out_of_fuel : Result A

abbrev pub State : Type 0 → Type 0 → Type 0
State S A = S → Result (A × S)

module _ {S : Type 0} where
  abbrev pub pure : {A : Type 0} → A → State S A
  pure a s = ok (a, s)

  abbrev pub fail : {A : Type 0} → State S A
  fail s = panic

  abbrev pub and_then : {A B : Type 0} → Result (A × S) → (A → State S B) → Result (B × S)
  and_then (ok (a, s)) k = k a s
  and_then panic k = panic
  and_then out_of_fuel k = out_of_fuel

  infixl 5 ◌>>=◌ ◌>>◌
  abbrev pub ◌>>=◌ : {A B : Type 0} → State S A → (A → State S B) → State S B
  ◌>>=◌ m k s = and_then (m s) k

  abbrev pub ◌>>◌ : {A B : Type 0} → State S A → State S B → State S B
  ◌>>◌ m k s = and_then (m s) (λ _. k)

  -- `assert!`
  abbrev pub assert : Bool → State S (Unit {0})
  assert true s = ok (tt, s)
  assert false s = panic

  -- `unwrap`
  abbrev pub unwrap : {A : Type 0} → Option A → State S A
  unwrap none s = panic
  unwrap (some a) s = ok (a, s)

  -- A read of the state.
  abbrev pub gets : {A : Type 0} → (S → A) → State S A
  gets f s = ok (f s, s)

  -- A change of the state.
  abbrev pub modify : (S → S) → State S (Unit {0})
  modify f s = ok (tt, f s)
