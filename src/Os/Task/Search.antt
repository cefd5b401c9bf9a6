-- ===== src/Os/Task/Search.antt =====
-- `waitpid`: what its two searches over the children find.
use r_core_tutorial_code.Base.{
  ℕ, suc, ◌<◌, ◌≡◌, refl, ap, sym, arith, ◌∙◌, Bool, true, false, ◌&&◌, ◌||◌, Option, none, some,
  List, [], ◌⊎◌, inl, inr, ◌∷◌, if◌then◌else◌, Bool-cases, get_elem?,
}
use r_core_tutorial_code.Base.Count.{count, one, one_self}
use r_core_tutorial_code.Os.Task.Control.{TaskControlBlock, is_zombie, get_task}
use r_core_tutorial_code.Os.Task.Process.{means, any_child, has_ended, find_zombie}

or_false : (a b : Bool) → (a || b) ≡ false → (a ≡ false) × (b ≡ false)
or_false true b h = absurd cc
or_false false b h = (refl, h)

and_true : (a b : Bool) → (a && b) ≡ true → (a ≡ true) × (b ≡ true)
and_true true b h = (refl, h)
and_true false b h = absurd cc

-- An element of a list is the first one or stands in the rest.
count-cases : (c p : ℕ) (ps : List ℕ) → 0 < count c (p ∷ ps) → (p ≡ c) ⊎ (0 < count c ps)
unfolding count one
count-cases c p ps h = ground arith

pub any_child-false :
    (pid : ℕ) (cs : List ℕ)
    → any_child pid cs ≡ false
    → (c : ℕ) → 0 < count c cs
    → means pid c ≡ false
unfolding any_child count
any_child-false pid [] h c there = absurd (omega arith)
any_child-false pid (p ∷ ps) h c there =
    let (here, rest) = or_false (means pid p) (any_child pid ps) h in
    elim (count-cases c p ps there) [
      | inl e ↦ ap (means pid) (sym e) ∙ here
      | inr later ↦ any_child-false pid ps rest c later
    ]

pub any_child-true :
    (pid : ℕ) (cs : List ℕ)
    → any_child pid cs ≡ true
    → (c : ℕ) × (0 < count c cs) × (means pid c ≡ true)
unfolding any_child count
any_child-true pid [] h = absurd cc
any_child-true pid (p ∷ ps) h = elim (Bool-cases (means pid p)) [
  | inl e ↦ (p, omega (arith, one_self p), e)
  | inr e ↦ let (c, there, m) = any_child-true pid ps (rw (e, ◌||◌) at h) in (c, omega arith, m)
]

module _ {M F : Type 0} (tasks : List (TaskControlBlock M F)) where
  pub has_ended-true :
      (c : ℕ)
      → has_ended c tasks ≡ true
      → (z : TaskControlBlock M F) × (get_task c tasks ≡ some z) × (is_zombie z ≡ true)
  unfolding has_ended
  has_ended-true c h = go (get_task c tasks) refl h
    where
      go :
          (o : Option (TaskControlBlock M F))
          → get_task c tasks ≡ o
          → (let b : Bool = elim o [ none ↦ false | some t ↦ is_zombie t ] in b) ≡ true
          → (z : TaskControlBlock M F) × (get_task c tasks ≡ some z) × (is_zombie z ≡ true)
      go none e q = absurd cc
      go (some z) e q = (z, e, q)

  pub has_ended-false :
      (c : ℕ) (z : TaskControlBlock M F)
      → has_ended c tasks ≡ false
      → get_task c tasks ≡ some z
      → is_zombie z ≡ false
  unfolding has_ended
  has_ended-false c z h g = rw (g, has_ended) at h

  pub find_zombie-some :
      (pid : ℕ) (cs : List ℕ) (i : ℕ)
      → find_zombie pid tasks cs ≡ some i
      → (c : ℕ) × (get_elem? cs i ≡ some c) × (means pid c ≡ true) × (has_ended c tasks ≡ true)
  unfolding find_zombie
  find_zombie-some pid [] i h = absurd cc
  find_zombie-some pid (p ∷ ps) i h = elim (Bool-cases (has_ended p tasks && means pid p)) [
    | inl e ↦
        let q : some 0 ≡ some i = rw (e, if◌then◌else◌) at h in
        let z : 0 ≡ i = cc in
        let (a, b) = and_true (has_ended p tasks) (means pid p) e in
        (p, ap (get_elem? (p ∷ ps)) (sym z), b, a)
    | inr e ↦
        later (find_zombie-some pid ps) (find_zombie pid tasks ps) refl (rw (e, if◌then◌else◌) at h)
  ]
    where
      later :
          ((j : ℕ)
            → find_zombie pid tasks ps ≡ some j
            → (c : ℕ) × (get_elem? ps j ≡ some c)
              × (means pid c ≡ true)
              × (has_ended c tasks ≡ true))
          → (o : Option ℕ) → find_zombie pid tasks ps ≡ o
          → (let v : Option ℕ = elim o [ none ↦ none | some j ↦ some (suc j) ] in v) ≡ some i
          → (c : ℕ) × (get_elem? (p ∷ ps) i ≡ some c)
            × (means pid c ≡ true)
            × (has_ended c tasks ≡ true)
      later ih none e q = absurd cc
      later ih (some j) e q =
          let (c, there, m, over) = ih j e in
          let place : suc j ≡ i = cc in (c, ap (get_elem? (p ∷ ps)) (sym place) ∙ there, m, over)

  pub find_zombie-none :
      (pid : ℕ) (cs : List ℕ)
      → find_zombie pid tasks cs ≡ none
      → (c : ℕ) → 0 < count c cs
      → means pid c ≡ true
      → has_ended c tasks ≡ false
  unfolding find_zombie count
  find_zombie-none pid [] h c there m = absurd (omega arith)
  find_zombie-none pid (p ∷ ps) h c there m = elim (Bool-cases (has_ended p tasks && means pid p)) [
    | inl e ↦ let q : ◌≡◌ {A = Option ℕ} (some 0) none = rw (e, if◌then◌else◌) at h in absurd cc
    | inr e ↦
        let rest = none_later (find_zombie pid tasks ps) (rw (e, if◌then◌else◌) at h) in
        elim (count-cases c p ps there) [
          | inl same ↦ not_here c (ap (λ n. has_ended n tasks && means pid n) (sym same) ∙ e) m
          | inr later ↦ find_zombie-none pid ps rest c later m
        ]
  ]
    where
      none_later :
          (o : Option ℕ)
          → (let v : Option ℕ = elim o [ none ↦ none | some j ↦ some (suc j) ] in v) ≡ none
          → o ≡ none
      none_later none q = refl
      none_later (some j) q = absurd cc

      not_here :
          (c : ℕ)
          → (has_ended c tasks && means pid c) ≡ false
          → means pid c ≡ true
          → has_ended c tasks ≡ false
      not_here c h m = elim (Bool-cases (has_ended c tasks)) [
        | inl e ↦ let q : true ≡ false = rw (e, ◌&&◌, m) at h in absurd cc
        | inr e ↦ e
      ]
