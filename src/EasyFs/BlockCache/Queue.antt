-- ===== src/EasyFs/BlockCache/Queue.antt =====
-- The queue of the cache: searches, changes and removals of entries.
use r_core_tutorial_code.Base.{
  ℕ, ◌≡◌, ◌≢◌, refl, ap, sym, ◌∙◌, true, false, none, some, List, [], ◌∷◌, ◌++◌, length, ◌==◌,
  if◌then◌else◌, arith, Bool-cases, inl, inr, ==→eq, ==→ne, eq→==, ne→==,
}
use r_core_tutorial_code.EasyFs.BlockCache.{Entry, find_entry, change}

-- No two entries for one block.
abbrev pub Distinct : List Entry → Type 0
Distinct [] = Unit
Distinct (e ∷ es) = (find_entry e.id es ≡ none) × Distinct es

abbrev pub All : (Entry → Type 0) → List Entry → Type 0
All P [] = Unit
All P (e ∷ es) = P e × All P es

pub All-map :
    (P Q : Entry → Type 0) → ((e : Entry) → P e → Q e) → (es : List Entry) → All P es → All Q es
All-map P Q f [] h = tt
All-map P Q f (e ∷ es) (p, ps) = (f e p, All-map P Q f es ps)

pub All-append :
    (P : Entry → Type 0) (es : List Entry) (x : Entry) → All P es → P x → All P (es ++ x ∷ [])
All-append P [] x h p = (p, tt)
All-append P (e ∷ es) x (q, qs) p = (q, All-append P es x qs p)

pub All-change :
    (P : Entry → Type 0) (a : ℕ) (f : Entry → Entry)
    → ((e : Entry) → P e → P (f e))
    → (es : List Entry) → All P es
    → All P (change a f es)
unfolding change
All-change P a f keep [] h = tt
All-change P a f keep (e ∷ es) (p, ps) = elim (Bool-cases (e.id == a)) [
  | inl x ↦ rw x (keep e p, ps)
  | inr x ↦ rw x (p, All-change P a f keep es ps)
]

-- An entry that is found has the property and the id.
pub All-find_entry :
    (P : Entry → Type 0) (a : ℕ) (es : List Entry) (e : Entry)
    → All P es
    → find_entry a es ≡ some e
    → P e × (e.id ≡ a)
unfolding find_entry
All-find_entry P a [] e h eq = absurd (cc)
All-find_entry P a (x ∷ es) e (p, ps) eq = elim (Bool-cases (x.id == a)) [
  | inl y ↦
      let xe : x ≡ e = ground arith in (rw xe at p, ground (arith, ap (λ (z : Entry). z.id) xe))
  | inr y ↦ All-find_entry P a es e ps (rw y at eq)
]

-- Entries for which a search fails have other ids.
pub All-ne_of_none : (a : ℕ) (es : List Entry) → find_entry a es ≡ none → All (λ e. e.id ≢ a) es
unfolding find_entry
All-ne_of_none a [] h = tt
All-ne_of_none a (e ∷ es) h = elim (Bool-cases (e.id == a)) [
  | inl x ↦ absurd (ground arith)
  | inr x ↦ (==→ne _ _ x, All-ne_of_none a es (ground arith))
]

pub All-zip :
    (P Q : Entry → Type 0) (es : List Entry) → All P es → All Q es → All (λ e. P e × Q e) es
All-zip P Q [] h k = tt
All-zip P Q (e ∷ es) (p, ps) (q, qs) = ((p, q), All-zip P Q es ps qs)

pub length-change :
    (a : ℕ) (f : Entry → Entry) (es : List Entry) → length (change a f es) ≡ length es
unfolding change
length-change a f [] = refl
length-change a f (e ∷ es) = ground (arith, length-change a f es)

pub find_entry-append :
    (a : ℕ) (es : List Entry) (x : Entry)
    → find_entry a (es ++ x ∷ [])
      ≡ elim (find_entry a es) [ some e ↦ some e | none ↦ if x.id == a then some x else none ]
unfolding find_entry
find_entry-append a [] x = refl
find_entry-append a (e ∷ es) x = elim (Bool-cases (e.id == a)) [
  | inl y ↦ rw y
  | inr y ↦ rw y (find_entry-append a es x)
]

-- A change that keeps the ids, seen by searches.
module _ (a : ℕ) (f : Entry → Entry) (keeps_id : (e : Entry) → (f e).id ≡ e.id) where
  pub find_entry-change_self :
      (es : List Entry) (e : Entry)
      → find_entry a es ≡ some e
      → find_entry a (change a f es) ≡ some (f e)
  unfolding find_entry change
  find_entry-change_self [] e h = absurd (cc)
  find_entry-change_self (x ∷ es) e h = elim (Bool-cases (x.id == a)) [
    | inl y ↦
        let xe : x ≡ e = ground arith in
        let y' : ((f x).id == a) ≡ true = eq→== _ _ (keeps_id x ∙ ==→eq _ _ y) in
        rw (y, y') (ap (λ (z : Entry). some (f z)) xe)
    | inr y ↦ rw (y, y) (find_entry-change_self es e (rw y at h))
  ]

  pub find_entry-change_ne :
      (b : ℕ) (es : List Entry) → b ≢ a → find_entry b (change a f es) ≡ find_entry b es
  unfolding find_entry change
  find_entry-change_ne b [] ne = refl
  find_entry-change_ne b (x ∷ es) ne = elim (Bool-cases (x.id == a)) [
    | inl y ↦
        let n : (x.id == b) ≡ false = ne→== _ _ (λ p. ne (sym p ∙ ==→eq _ _ y)) in
        rw (y, keeps_id x, n)
    | inr y ↦ rw y (ground (arith, find_entry-change_ne b es ne))
  ]

  pub find_entry-change-none :
      (es : List Entry) → find_entry a es ≡ none → find_entry a (change a f es) ≡ none
  unfolding find_entry change
  find_entry-change-none [] h = refl
  find_entry-change-none (x ∷ es) h = elim (Bool-cases (x.id == a)) [
    | inl y ↦ absurd (ground arith)
    | inr y ↦ rw (y, y) (find_entry-change-none es (rw y at h))
  ]

  pub Distinct-change : (es : List Entry) → Distinct es → Distinct (change a f es)
  unfolding change
  Distinct-change [] h = tt
  Distinct-change (x ∷ es) (h, hs) = elim (Bool-cases (x.id == a)) [
    | inl y ↦ rw (y, keeps_id x) (h, hs)
    | inr y ↦ rw y (rw (find_entry-change_ne x.id es (==→ne _ _ y)) h, Distinct-change es hs)
  ]

pub Distinct-append :
    (es : List Entry) (x : Entry)
    → Distinct es
    → find_entry x.id es ≡ none
    → Distinct (es ++ x ∷ [])
unfolding find_entry
Distinct-append [] x h e = (refl, tt)
Distinct-append (y ∷ es) x (h, hs) e = elim (Bool-cases (y.id == x.id)) [
  | inl z ↦ absurd (ground arith)
  | inr z ↦
      let n : (x.id == y.id) ≡ false = ne→== _ _ (λ p. ==→ne _ _ z (sym p)) in
      (rw (find_entry-append y.id es x, h, n), Distinct-append es x hs (rw z at e))
]
