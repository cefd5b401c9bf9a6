-- ===== src/Os/Mm/UserBuffer/Iterate.antt =====
-- The iterator over a `UserBuffer` gives the bytes of its slices, in their order.
use r_core_tutorial_code.Base.{
  ℕ, zero, suc, ◌+◌, ◌-◌, ◌/◌, ◌^◌, ◌<◌, ◌≤◌, ◌≡◌, refl, ap, ◌∙◌, arith, true, false, none, some,
  List, [], ◌∷◌, ◌++◌, ok, ◌==◌, ltb, tabulate, lt→ltb, length, Bool-cases, inl, inr, ==→eq, ==→ne,
  eq→==, get_elem?, drop, length-append, length-tabulate,
}
use r_core_tutorial_code.Os.Mm.PageTable.{Memory, translate, from_token}
use r_core_tutorial_code.Os.Mm.UserBuffer.{
  Slice, Place, places, all_places, buffer_length, AreNonEmpty, UserBufferIterator, into_iter, next,
  next_in, push_place, collect, translated_byte_buffer,
}
use r_core_tutorial_code.Os.Mm.UserBuffer.Buffer.{place, translated_byte_buffer_lem}

drop_nothing : (xs : List Slice) (n : ℕ) → drop n xs ≡ [] → get_elem? xs n ≡ none
drop_nothing [] n h = refl
drop_nothing (x ∷ xs) zero h = absurd cc
drop_nothing (x ∷ xs) (suc n) h = drop_nothing xs n h

drop_first :
    (xs : List Slice) (n : ℕ) (b : Slice) (bs : List Slice)
    → drop n xs ≡ b ∷ bs
    → (get_elem? xs n ≡ some b) × (drop (n + 1) xs ≡ bs)
drop_first [] zero b bs h = absurd cc
drop_first [] (suc n) b bs h = absurd cc
drop_first (x ∷ xs) zero b bs h = (cc, cc)
drop_first (x ∷ xs) (suc n) b bs h =
    let (e, f) = drop_first xs n b bs h in
    let g : suc n + 1 ≡ suc (n + 1) = omega arith in (e, rw g f)

-- What is left in the first of the slices behind `i` bytes, and in the others.
abbrev left : ℕ → List Slice → List Place
left i [] = []
left i (b ∷ bs) =
    tabulate ((b.to - b.from) - i) (b.from + i) (λ offset. (b.ppn, offset)) ++ all_places bs

abbrev left_count : ℕ → List Slice → ℕ
left_count i [] = 0
left_count i (b ∷ bs) = ((b.to - b.from) - i) + buffer_length bs

abbrev IsInside : ℕ → List Slice → Type 0
IsInside i [] = Unit {0}
IsInside i (b ∷ bs) = (i < b.to - b.from) × AreNonEmpty bs

left_whole : (bs : List Slice) → left 0 bs ≡ all_places bs
unfolding all_places places
left_whole [] = refl
left_whole (b ∷ bs) =
    let e : (b.to - b.from) - 0 ≡ b.to - b.from = omega arith in
    let f : b.from + 0 ≡ b.from = omega arith in rw (e, f) refl

count_whole : (bs : List Slice) → left_count 0 bs ≡ buffer_length bs
unfolding buffer_length
count_whole [] = refl
count_whole (b ∷ bs) = omega arith

IsInside-whole : (bs : List Slice) → AreNonEmpty bs → IsInside 0 bs
IsInside-whole [] h = tt
IsInside-whole (b ∷ bs) h = h

collect_step :
    (fuel : ℕ) (it it' : UserBufferIterator) (p : Place) (ps : List Place)
    → next it ≡ ok (some p, it')
    → collect fuel it' ≡ ok ps
    → collect (suc fuel) it ≡ ok (p ∷ ps)
unfolding collect push_place
collect_step fuel it it' p ps h run = rw (collect, h, run) refl

next_end :
    (it : UserBufferIterator) → drop it.current_buffer it.buffers ≡ [] → next it ≡ ok (none, it)
unfolding next next_in
next_end it h = rw (drop_nothing it.buffers it.current_buffer h) refl

module _ (it : UserBufferIterator) (b : Slice) (bs : List Slice) where
  -- The iterator behind the last byte of a slice, and behind another one.
  abbrev at_next : UserBufferIterator
  at_next = record it { current_idx = 0; current_buffer = it.current_buffer + 1 }

  abbrev at_same : UserBufferIterator
  at_same = record it { current_idx = it.current_idx + 1 }

  next_last :
      drop it.current_buffer it.buffers ≡ b ∷ bs
      → it.current_idx + 1 ≡ b.to - b.from
      → next it ≡ ok (some (b.ppn, b.from + it.current_idx), at_next)
  unfolding next next_in
  next_last h e =
      let here = (drop_first it.buffers it.current_buffer b bs h).0 in
      let inside : ltb it.current_idx (b.to - b.from) ≡ true = lt→ltb _ _ (omega arith) in
      let last : (it.current_idx + 1 == b.to - b.from) ≡ true = eq→== _ _ e in
      rw (here, next_in, inside, last) refl

  next_more :
      drop it.current_buffer it.buffers ≡ b ∷ bs
      → it.current_idx + 1 < b.to - b.from
      → next it ≡ ok (some (b.ppn, b.from + it.current_idx), at_same)
  unfolding next next_in
  next_more h lt =
      let here = (drop_first it.buffers it.current_buffer b bs h).0 in
      let inside : ltb it.current_idx (b.to - b.from) ≡ true = lt→ltb _ _ (omega arith) in
      let more : (it.current_idx + 1 == b.to - b.from) ≡ false = ground arith in
      rw (here, next_in, inside, more) refl

collect-left :
    (fuel : ℕ) (it : UserBufferIterator) (bs : List Slice)
    → drop it.current_buffer it.buffers ≡ bs
    → IsInside it.current_idx bs
    → left_count it.current_idx bs < fuel
    → collect fuel it ≡ ok (left it.current_idx bs)
collect-left zero it bs h inside enough = absurd (omega arith)
collect-left (suc fuel) it [] h inside enough = unfold collect in rw (collect, next_end it h) refl
collect-left (suc fuel) it (b ∷ bs) h (lt, full) enough =
    elim (Bool-cases (it.current_idx + 1 == b.to - b.from)) [
      | inl last ↦
          let e = ==→eq _ _ last in
          let rest = (drop_first it.buffers it.current_buffer b bs h).1 in
          let ih =
            collect-left fuel (at_next it b bs) bs rest (IsInside-whole bs full)
              (omega (arith, count_whole bs)) in
          let one_left : (b.to - b.from) - it.current_idx ≡ 1 = omega arith in
          collect_step fuel it (at_next it b bs) _ _ (next_last it b bs h e)
            (ih ∙ ap ok (left_whole bs))
          ∙ rw one_left refl
      | inr more ↦
          let ne = ==→ne _ _ more in
          let ih =
            collect-left fuel (at_same it b bs) (b ∷ bs) h (omega arith, full) (omega arith) in
          let size : (b.to - b.from) - it.current_idx
              ≡ suc ((b.to - b.from) - (it.current_idx + 1)) =
            omega arith in
          let place : b.from + (it.current_idx + 1) ≡ (b.from + it.current_idx) + 1 = omega arith in
          collect_step fuel it (at_same it b bs) _ _ (next_more it b bs h (omega arith)) ih
          ∙ rw (size, place) refl
    ]

buffer_length-places : (bs : List Slice) → buffer_length bs ≡ length (all_places bs)
unfolding buffer_length all_places places
buffer_length-places [] = refl
buffer_length-places (b ∷ bs) =
    let one =
      length-tabulate (b.to - b.from) b.from (λ offset. let p : Place = (b.ppn, offset) in p) in
    omega (arith, buffer_length-places bs, length-append {0} (places b) (all_places bs), one)

-- For a range of addresses below `2 ^ 38` whose pages are all mapped: the length of the `UserBuffer`
-- that `translated_byte_buffer` gives is that of the range, and a `for` loop over it ends, fails at
-- no index, and sees the places of the bytes of the range in their order.
pub into_iter_lem :
    (m : Memory) (token ptr size : ℕ)
    → ptr + size < 2 ^ 38
    → ((va : ℕ)
        → ptr ≤ va
        → va < ptr + size
        → (pte : ℕ) × (translate m (from_token token) (va / 4096) ≡ some pte))
    → (v : List Slice) × (translated_byte_buffer m token ptr size ≡ ok v)
      × (buffer_length v ≡ size)
      × (collect (size + 1) (into_iter v) ≡ ok (tabulate size ptr (place m (from_token token))))
unfolding into_iter
into_iter_lem m token ptr size small mapped =
    let (v, full, run, all) = translated_byte_buffer_lem m token ptr size small mapped in
    let total : buffer_length v ≡ size =
      buffer_length-places v
      ∙ ap length all
      ∙ length-tabulate size ptr (place m (from_token token)) in
    let seen =
      collect-left (size + 1) (into_iter v) v refl (IsInside-whole v full)
        (omega (arith, count_whole v)) in
    (v, run, total, seen ∙ ap ok (left_whole v ∙ all))
