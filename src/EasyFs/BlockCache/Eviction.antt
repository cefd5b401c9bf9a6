-- ===== src/EasyFs/BlockCache/Eviction.antt =====
-- The entry that makes room, and the dropped block's write-back.
use r_core_tutorial_code.Base.{
  ℕ, suc, ◌≡◌, ◌≢◌, refl, ap, sym, ◌∙◌, Option, none, some, List, [], ◌∷◌, length, ◌==◌, arith,
  Bool-cases, inl, inr, ==→eq, ==→ne, eq→==, ◌↔◌, ne→==,
}
use r_core_tutorial_code.EasyFs.BlockCache.{Entry, find_entry, find_unused, keep}
use r_core_tutorial_code.EasyFs.BlockCache.Queue.{Distinct, All}

-- What `find_unused` takes out: one entry with a single reference, the others staying in order.
pub record Removed (es : List Entry) (x : Entry) (rest : List Entry) : Type 0 where
  pub found : find_entry x.id es ≡ some x
  pub gone : find_entry x.id rest ≡ none
  pub same : (b : ℕ) → b ≢ x.id → find_entry b rest ≡ find_entry b es
  pub distinct : Distinct rest
  pub shorter : length es ≡ suc (length rest)
  pub unused : x.strong_count ≡ 1

-- A search that goes on behind its first entry.
keep-eq-some :
    (e : Entry) (o : Option (Entry × List Entry)) (x : Entry) (rest : List Entry)
    → keep e o ≡ some (x, rest)
    → (left : List Entry) × (o ≡ some (x, left)) × (e ∷ left ≡ rest)
keep-eq-some e none x rest h = absurd (cc)
keep-eq-some e (some (y, left)) x rest h =
    let p : y ≡ x = cc in (left, ap (λ z. some (z, left)) p, cc)

keep-eq-none : (e : Entry) (o : Option (Entry × List Entry)) → keep e o ≡ none → o ≡ none
keep-eq-none e none h = refl
keep-eq-none e (some (x, rest)) h = absurd (cc)

module _ (e : Entry) (es : List Entry) (h : find_entry e.id es ≡ none) (hs : Distinct es) where
  Removed-here : e.strong_count ≡ 1 → Removed (e ∷ es) e es
  unfolding find_entry
  Removed-here one = record {
    found = rw (eq→== e.id e.id refl);
    gone = h;
    same = λ b ne. rw (ne→== e.id b (λ p. ne (sym p)));
    distinct = hs;
    shorter = refl;
    unused = one;
  }

  Removed-there :
      (x : Entry) (left : List Entry) → Removed es x left → Removed (e ∷ es) x (e ∷ left)
  unfolding find_entry
  Removed-there x left r = record {
    found = rw (ne→== e.id x.id ne) r.found;
    gone = rw (ne→== e.id x.id ne) r.gone;
    same = λ b b_ne. ground (arith, r.same b b_ne);
    distinct = (r.same e.id ne ∙ h, r.distinct);
    shorter = ap suc r.shorter;
    unused = r.unused;
  }
    where
      ne : e.id ≢ x.id
      ne p =
          let q : ◌≡◌ {A = Option Entry} none (some x) =
            sym h ∙ ap (λ b. find_entry b es) p ∙ r.found in
          absurd (cc)

pub find_unused-Removed :
    (es : List Entry) (x : Entry) (rest : List Entry)
    → Distinct es
    → find_unused es ≡ some (x, rest)
    → Removed es x rest
unfolding find_unused
find_unused-Removed [] x rest h eq = absurd (cc)
find_unused-Removed (e ∷ es) x rest (h, hs) eq = elim (Bool-cases (e.strong_count == 1)) [
  | inl one ↦
      let eq' : ◌≡◌ {A = Option (Entry × List Entry)} (some (e, es)) (some (x, rest)) =
        rw one at eq in
      let p : e ≡ x = cc in
      let q : es ≡ rest = cc in rw (← p, ← q) (Removed-here e es h hs (==→eq _ _ one))
  | inr more ↦
      let (left, eq', q) = keep-eq-some e (find_unused es) x rest (rw more at eq) in
      rw (← q) (Removed-there e es h hs x left (find_unused-Removed es x left hs eq'))
]

pub All-find_unused :
    (P : Entry → Type 0) (es : List Entry) (x : Entry) (rest : List Entry)
    → find_unused es ≡ some (x, rest)
    → All P es
    → P x × All P rest
unfolding find_unused
All-find_unused P [] x rest eq h = absurd (cc)
All-find_unused P (e ∷ es) x rest eq (h, hs) = elim (Bool-cases (e.strong_count == 1)) [
  | inl one ↦
      let eq' : ◌≡◌ {A = Option (Entry × List Entry)} (some (e, es)) (some (x, rest)) =
        rw one at eq in
      let p : e ≡ x = cc in let q : es ≡ rest = cc in rw (← p, ← q) (h, hs)
  | inr more ↦
      let (left, eq', q) = keep-eq-some e (find_unused es) x rest (rw more at eq) in
      let (px, pl) = All-find_unused P es x left eq' hs in rw (← q) (px, (h, pl))
]

-- No entry has a single reference exactly when the search fails.
pub find_unused-none_iff :
    (es : List Entry) → (find_unused es ≡ none) ↔ All (λ e. e.strong_count ≢ 1) es
unfolding find_unused
find_unused-none_iff [] = (λ _. tt, λ _. refl)
find_unused-none_iff (e ∷ es) = elim (Bool-cases (e.strong_count == 1)) [
  | inl one ↦ rw one (λ h. absurd (cc), λ (ne, _). absurd (ne (==→eq _ _ one)))
  | inr more ↦ rw more (
    λ h. (==→ne _ _ more, (find_unused-none_iff es).0 (keep-eq-none e (find_unused es) h)),
    λ (ne, ns). ap (keep e) ((find_unused-none_iff es).1 ns),
  )
]
