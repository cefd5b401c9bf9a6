-- ===== src/Base/Lists.antt =====
-- Lists measured and indexed by native numbers, under the library's names.
use Prim.Native.Nat.{ℕ, zero, suc, ◌+◌, ◌-◌, ◌<◌}
use mathlib.Core.Path.{◌≡◌, refl, sym, ap, ◌∙◌, fun_ext}
use mathlib.Core.Logic.{◌≢◌}
use mathlib.Core.Bool.{Bool, true, false}
use mathlib.Core.List.{List, [], ◌∷◌, ◌++◌}
use mathlib.Core.Option.{Option, none, some}
use native.Mathlib.Omega.{arith}
use Prim.Native.Nat.{compare, Ordering}

-- A value of a function changed at one point.
unfoldable pub update {ℓ} : {A : Type ℓ} → (ℕ → A) → ℕ → A → ℕ → A
update f p v q = elim (compare q p) [ Ordering.eq ↦ v | _ ↦ f q ]

module _ {ℓ} {A : Type ℓ} where
  pub update_at : (f : ℕ → A) (p : ℕ) (v : A) (q : ℕ) → q ≡ p → update f p v q ≡ v
  unfolding update
  update_at f p v q e = ground arith

  pub update_ne : (f : ℕ → A) (p : ℕ) (v : A) (q : ℕ) → q ≢ p → update f p v q ≡ f q
  unfolding update
  update_ne f p v q ne = ground arith

  pub update_self : (f : ℕ → A) (p : ℕ) → update f p (f p) ≡ f
  unfolding update
  update_self f p = fun_ext λ q. ground arith

module _ {ℓ} {A : Type ℓ} where
  abbrev pub length : List A → ℕ
  length [] = 0
  length (x ∷ xs) = suc (length xs)

  abbrev pub get_elem? : List A → ℕ → Option A
  get_elem? [] i = none
  get_elem? (x ∷ xs) zero = some x
  get_elem? (x ∷ xs) (suc i) = get_elem? xs i

  abbrev pub get_or : List A → ℕ → A → A
  get_or [] i d = d
  get_or (x ∷ xs) zero d = x
  get_or (x ∷ xs) (suc i) d = get_or xs i d

  -- A write out of bounds changes nothing.
  abbrev pub set : List A → ℕ → A → List A
  set [] i v = []
  set (x ∷ xs) zero v = v ∷ xs
  set (x ∷ xs) (suc i) v = x ∷ set xs i v

  abbrev pub take : ℕ → List A → List A
  take zero xs = []
  take (suc n) [] = []
  take (suc n) (x ∷ xs) = x ∷ take n xs

  abbrev pub drop : ℕ → List A → List A
  drop zero xs = xs
  drop (suc n) [] = []
  drop (suc n) (x ∷ xs) = drop n xs

  abbrev pub replicate : ℕ → A → List A
  replicate zero a = []
  replicate (suc n) a = a ∷ replicate n a

  pub length-append : (xs ys : List A) → length (xs ++ ys) ≡ length xs + length ys
  length-append [] ys = omega arith
  length-append (x ∷ xs) ys = omega (arith, length-append xs ys)

  pub length-drop : (n : ℕ) (xs : List A) → length (drop n xs) ≡ length xs - n
  length-drop zero xs = omega arith
  length-drop (suc n) [] = omega arith
  length-drop (suc n) (x ∷ xs) = omega (arith, length-drop n xs)

  pub length-replicate : (n : ℕ) (a : A) → length (replicate n a) ≡ n
  length-replicate zero a = refl
  length-replicate (suc n) a = ap suc (length-replicate n a)

-- The elements of `f` at `i`, `i + 1`, … , `n` of them.
abbrev pub tabulate {ℓ} : {A : Type ℓ} → ℕ → ℕ → (ℕ → A) → List A
tabulate zero i f = []
tabulate (suc n) i f = f i ∷ tabulate n (i + 1) f

pub length-tabulate {ℓ} : {A : Type ℓ} (n i : ℕ) (f : ℕ → A) → length (tabulate n i f) ≡ n
length-tabulate zero i f = refl
length-tabulate (suc n) i f = ap suc (length-tabulate n (i + 1) f)

-- Whether a number stands in a list of numbers.
abbrev pub has : ℕ → List ℕ → Bool
has a [] = false
has a (x ∷ xs) = elim (compare x a) [ Ordering.eq ↦ true | _ ↦ has a xs ]

pub drop-drop {ℓ} : {A : Type ℓ} (m n : ℕ) (xs : List A) → drop n (drop m xs) ≡ drop (m + n) xs
drop-drop zero n xs = let e : 0 + n ≡ n = omega arith in rw e
drop-drop (suc m) zero [] = let e : suc m + 0 ≡ suc m = omega arith in rw e
drop-drop (suc m) (suc n) [] = let e : suc m + suc n ≡ suc (m + suc n) = omega arith in rw e
drop-drop (suc m) n (x ∷ xs) =
    let e : suc m + n ≡ suc (m + n) = omega arith in rw e (drop-drop m n xs)

pub drop-length {ℓ} : {A : Type ℓ} (xs : List A) → drop (length xs) xs ≡ []
drop-length [] = refl
drop-length (x ∷ xs) = drop-length xs

pub tabulate-ext {ℓ} :
    {A : Type ℓ} (n a b : ℕ) (f g : ℕ → A)
    → ((i : ℕ) → i < n → f (a + i) ≡ g (b + i))
    → tabulate n a f ≡ tabulate n b g
tabulate-ext zero a b f g h = refl
tabulate-ext (suc n) a b f g h =
    let e : a + 0 ≡ a = omega arith in
    let e' : b + 0 ≡ b = omega arith in
    let here = ap f (sym e) ∙ h 0 (omega arith) ∙ ap g e' in
    let rest = tabulate-ext n (a + 1) (b + 1) f g (λ i lt.
      let p : (a + 1) + i ≡ a + (i + 1) = omega arith in
      let q : b + (i + 1) ≡ (b + 1) + i = omega arith in
      ap f p ∙ h (i + 1) (omega arith) ∙ ap g q) in
    ap (λ x. x ∷ tabulate n (a + 1) f) here ∙ ap (λ l. g b ∷ l) rest

pub tabulate_add {ℓ} :
    {A : Type ℓ} (n m a : ℕ) (f : ℕ → A)
    → tabulate n a f ++ tabulate m (a + n) f ≡ tabulate (n + m) a f
tabulate_add zero m a f =
    let e : a + 0 ≡ a = omega arith in let e' : 0 + m ≡ m = omega arith in rw (e, e') refl
tabulate_add (suc n) m a f =
    let e : a + suc n ≡ (a + 1) + n = omega arith in
    let e' : suc n + m ≡ suc (n + m) = omega arith in
    rw (e, e') (ap (λ l. f a ∷ l) (tabulate_add n m (a + 1) f))

module _ {ℓ} {A : Type ℓ} where
  pub get_elem?-set_self :
      (xs : List A) (i : ℕ) (v : A) → i < length xs → get_elem? (set xs i v) i ≡ some v
  get_elem?-set_self [] i v lt = absurd (omega arith)
  get_elem?-set_self (x ∷ xs) zero v lt = refl
  get_elem?-set_self (x ∷ xs) (suc i) v lt = get_elem?-set_self xs i v (omega arith)

  pub get_elem?-set_ne :
      (xs : List A) (i : ℕ) (v : A) (j : ℕ) → j ≢ i → get_elem? (set xs i v) j ≡ get_elem? xs j
  get_elem?-set_ne [] i v j ne = refl
  get_elem?-set_ne (x ∷ xs) zero v zero ne = absurd (ne refl)
  get_elem?-set_ne (x ∷ xs) zero v (suc j) ne = refl
  get_elem?-set_ne (x ∷ xs) (suc i) v zero ne = refl
  get_elem?-set_ne (x ∷ xs) (suc i) v (suc j) ne = get_elem?-set_ne xs i v j (λ e. ne (ap suc e))

  pub length-set : (xs : List A) (i : ℕ) (v : A) → length (set xs i v) ≡ length xs
  length-set [] i v = refl
  length-set (x ∷ xs) zero v = refl
  length-set (x ∷ xs) (suc i) v = ap suc (length-set xs i v)

  pub get_elem?-length : (xs : List A) (i : ℕ) (v : A) → get_elem? xs i ≡ some v → i < length xs
  get_elem?-length [] i v h = absurd cc
  get_elem?-length (x ∷ xs) zero v h = omega arith
  get_elem?-length (x ∷ xs) (suc i) v h = omega (arith, get_elem?-length xs i v h)

  pub get_elem?-append_last : (xs : List A) (v : A) → get_elem? (xs ++ v ∷ []) (length xs) ≡ some v
  get_elem?-append_last [] v = refl
  get_elem?-append_last (x ∷ xs) v = get_elem?-append_last xs v

  pub get_elem?-append_ne :
      (xs : List A) (v : A) (j : ℕ) → j ≢ length xs → get_elem? (xs ++ v ∷ []) j ≡ get_elem? xs j
  get_elem?-append_ne [] v zero ne = absurd (ne refl)
  get_elem?-append_ne [] v (suc j) ne = refl
  get_elem?-append_ne (x ∷ xs) v zero ne = refl
  get_elem?-append_ne (x ∷ xs) v (suc j) ne = get_elem?-append_ne xs v j (λ e. ne (ap suc e))

  pub get_elem?-at_length : (xs : List A) → get_elem? xs (length xs) ≡ none
  get_elem?-at_length [] = refl
  get_elem?-at_length (x ∷ xs) = get_elem?-at_length xs
