-- ===== src/Base/Keeps.antt =====
-- Programs that leave the state as it is.
use mathlib.Core.Bool.{Bool, true, false}
use r_core_tutorial_code.Base.Tests.{if◌then◌else◌}
use mathlib.Core.Path.{◌≡◌, refl, ◌∙◌}
use r_core_tutorial_code.Base.Monad.{
  Result, ok, panic, out_of_fuel, State, pure, and_then, ◌>>=◌, ◌>>◌, assert, gets,
}

-- A run that returns leaves the state.
abbrev pub Keeps : {S A : Type 0} → State S A → Type 0
Keeps {S = S} {A} m = (d : S) (x : A) (e : S) → m d ≡ ok (x, e) → e ≡ d

module _ {S : Type 0} where
  pub pure-Keeps : {A : Type 0} (a : A) → Keeps {S = S} (pure a)
  pure-Keeps a d x e h = cc

  pub gets-Keeps : {A : Type 0} (f : S → A) → Keeps (gets f)
  gets-Keeps f d x e h = cc

  pub assert-Keeps : (t : Bool) → Keeps {S = S} (assert t)
  assert-Keeps true d x e h = cc
  assert-Keeps false d x e h = absurd cc

  pub bind-Keeps :
      {A B : Type 0} (m : State S A) (k : A → State S B)
      → Keeps m
      → ((a : A) → Keeps (k a))
      → Keeps (m >>= k)
  bind-Keeps {A} {B} m k hm hk d x e h = go (m d) refl h
    where
      go : (r : Result (A × S)) → m d ≡ r → and_then r k ≡ ok (x, e) → e ≡ d
      go (ok (a, s)) q h = hk a s x e h ∙ hm d a s q
      go panic q h = absurd cc
      go out_of_fuel q h = absurd cc

  pub then-Keeps :
      {A B : Type 0} (m : State S A) (k : State S B) → Keeps m → Keeps k → Keeps (m >> k)
  then-Keeps m k hm hk = bind-Keeps m (λ _. k) hm (λ _. hk)

  pub if-Keeps :
      {A : Type 0} (t : Bool) (m k : State S A) → Keeps m → Keeps k → Keeps (if t then m else k)
  if-Keeps true m k hm hk = hm
  if-Keeps false m k hm hk = hk

  -- A sequence that returns, in its two runs.
  pub and_then-ok :
      {A B : Type 0} (r : Result (A × S)) (k : A → State S B) (b : B) (e : S)
      → and_then r k ≡ ok (b, e)
      → (a : A) × (s : S) × (r ≡ ok (a, s)) × (k a s ≡ ok (b, e))
  and_then-ok (ok (a, s)) k b e h = (a, s, refl, h)
  and_then-ok panic k b e h = absurd cc
  and_then-ok out_of_fuel k b e h = absurd cc
