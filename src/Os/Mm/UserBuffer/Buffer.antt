-- ===== src/Os/Mm/UserBuffer/Buffer.antt =====
-- `translated_byte_buffer` gives all bytes of a range, in their order.
use r_core_tutorial_code.Base.{
  leb, le→leb, ℕ, zero, suc, ◌+◌, ◌-◌, ◌*◌, ◌/◌, ◌%◌, ◌^◌, ◌<◌, ◌≤◌, ◌≡◌, refl, ap, sym, ◌∙◌, arith,
  true, Option, none, some, List, [], ◌∷◌, ◌++◌, ok, ◌==◌, ltb, if◌then◌else◌, min, tabulate,
  tabulate-ext, tabulate_add, Bool-cases, inl, inr, ltb→lt, ltb→le,
}
use r_core_tutorial_code.Os.Mm.Address.{
  page_size, virt_addr, usize_of_virt_addr, floor, page_offset, address_of, step,
}
use r_core_tutorial_code.Os.Mm.PageTable.{Memory, ppn_of, translate, from_token}
use r_core_tutorial_code.Os.Mm.UserBuffer.{
  AreNonEmpty, Slice, Place, places, all_places, push_slice, cons_slice, round_end, buffer_loop,
  translated_byte_buffer,
}

-- The frame of an entry, if there is one.
abbrev pub frame : Option ℕ → ℕ
frame none = 0
frame (some pte) = ppn_of pte

-- The place of a virtual address.
abbrev pub place : Memory → (root_ppn va : ℕ) → Place
place m root_ppn va = (frame (translate m root_ppn (va / 4096)), va % 4096)

module _ (m : Memory) (root_ppn : ℕ) where
  -- The end of a round, where the addresses are below `2 ^ 38`.
  round_end_lem :
      (start end : ℕ)
      → start < end
      → end < 2 ^ 38
      → (round_end start end ≡ min ((start / 4096 + 1) * 4096) end)
        × (virt_addr start ≡ start)
        × (floor (virt_addr start) ≡ start / 4096)
        × (usize_of_virt_addr (round_end start end) ≡ min ((start / 4096 + 1) * 4096) end)
  unfolding round_end virt_addr usize_of_virt_addr floor address_of step
  round_end_lem start end lt small =
      let a : (start % 2 ^ 39) ≡ start = omega arith in
      let b : round_end start end ≡ min ((start / 4096 + 1) * 4096) end = omega arith in
      (b, a, omega arith, ground (arith, b))

  -- The bytes of a slice that ends in its page or at the end of it.
  slice_lem :
      (pte start e : ℕ)
      → start < e
      → e ≤ (start / 4096 + 1) * 4096
      → translate m root_ppn (start / 4096) ≡ some pte
      → places (record {
        ppn = ppn_of pte;
        from = page_offset start;
        to = if page_offset e == 0 then page_size else page_offset e;
      })
        ≡ tabulate (e - start) start (place m root_ppn)
  unfolding places page_offset
  slice_lem pte start e lt le mapped =
      let to : ℕ = if e % 4096 == 0 then 4096 else e % 4096 in
      let size : to - start % 4096 ≡ e - start = ground arith in
      rw size (
        tabulate-ext (e - start) (start % 4096) start _ (place m root_ppn) (λ i below.
          let page : start / 4096 ≡ (start + i) / 4096 = omega arith in
          let offset : start % 4096 + i ≡ (start + i) % 4096 = omega arith in
          ap (λ o. (ppn_of pte, o)) offset
          ∙ ap (λ f. (f, (start + i) % 4096))
              (ap frame (sym mapped) ∙ ap (λ v. frame (translate m root_ppn v)) page)))

  abbrev first_slice : (pte start e : ℕ) → Slice
  first_slice pte start e = record {
    ppn = ppn_of pte;
    from = page_offset start;
    to = if page_offset e == 0 then page_size else page_offset e;
  }

  slice_size :
      (pte start e : ℕ)
      → start < e
      → e ≤ (start / 4096 + 1) * 4096
      → 0 < (first_slice pte start e).to - (first_slice pte start e).from
  unfolding page_offset
  slice_size pte start e lt le = ground arith

  round_lem :
      (fuel start end e pte : ℕ) (v : List Slice)
      → ltb start end ≡ true
      → round_end start end ≡ e
      → virt_addr start ≡ start
      → floor (virt_addr start) ≡ start / 4096
      → usize_of_virt_addr (round_end start end) ≡ e
      → translate m root_ppn (start / 4096) ≡ some pte
      → leb (first_slice pte start e).from (first_slice pte start e).to ≡ true
      → buffer_loop m root_ppn fuel e end ≡ ok v
      → buffer_loop m root_ppn (suc fuel) start end ≡ ok (first_slice pte start e ∷ v)
  unfolding buffer_loop push_slice cons_slice
  round_lem fuel start end e pte v more e1 e2 e3 e4 here ordered run =
      rw (more, if◌then◌else◌, e3, here, e4, run, e2, e1, ordered) refl

  buffer_loop_lem :
      (fuel start end : ℕ)
      → end - start < fuel
      → end < 2 ^ 38
      → ((va : ℕ)
          → start ≤ va
          → va < end
          → (pte : ℕ) × (translate m root_ppn (va / 4096) ≡ some pte))
      → (v : List Slice) × AreNonEmpty v
        × (buffer_loop m root_ppn fuel start end ≡ ok v)
        × (all_places v ≡ tabulate (end - start) start (place m root_ppn))
  unfolding buffer_loop all_places
  buffer_loop_lem zero start end enough small mapped = absurd (omega arith)
  buffer_loop_lem (suc fuel) start end enough small mapped = elim (Bool-cases (ltb start end)) [
    | inl more ↦
        let lt = ltb→lt start end more in
        let (e1, e2, e3, e4) = round_end_lem start end lt small in
        let e = min ((start / 4096 + 1) * 4096) end in
        let (pte, here) = mapped start (omega arith) lt in
        let (v, full, run, all) =
          buffer_loop_lem fuel e end (omega arith) small
            (λ va ge below. mapped va (omega arith) below) in
        let slice = slice_lem pte start e (omega arith) (omega arith) here in
        let sum : (e - start) + (end - e) ≡ end - start = omega arith in
        let back : start + (e - start) ≡ e = omega arith in
        (
          first_slice pte start e ∷ v,
          (slice_size pte start e (omega arith) (omega arith), full),
          round_lem fuel start end e pte v more e1 e2 e3 e4 here
              (le→leb _ _ (omega (arith, slice_size pte start e (omega arith) (omega arith)))) run,
          ap (λ l. l ++ all_places v) slice
              ∙ ap (λ l. tabulate (e - start) start (place m root_ppn) ++ l) all
              ∙ ap
                  (λ n.
                    tabulate (e - start) start (place m root_ppn)
                    ++ tabulate (end - e) n (place m root_ppn))
                  (sym back)
              ∙ tabulate_add (e - start) (end - e) start (place m root_ppn)
              ∙ ap (λ n. tabulate n start (place m root_ppn)) sum,
        )
    | inr over ↦
        let none_left : end - start ≡ 0 = omega (arith, ltb→le start end over) in
        ([], tt, rw (over, if◌then◌else◌) refl, rw none_left refl)
  ]

-- For a range of addresses below `2 ^ 38` whose pages are all mapped, `translated_byte_buffer`
-- returns: no slice is empty, and the slices, one after the other, are the places of the bytes of the range, each in the frame
-- that its page is mapped to.
pub translated_byte_buffer_lem :
    (m : Memory) (token ptr len : ℕ)
    → ptr + len < 2 ^ 38
    → ((va : ℕ)
        → ptr ≤ va
        → va < ptr + len
        → (pte : ℕ) × (translate m (from_token token) (va / 4096) ≡ some pte))
    → (v : List Slice) × AreNonEmpty v
      × (translated_byte_buffer m token ptr len ≡ ok v)
      × (all_places v ≡ tabulate len ptr (place m (from_token token)))
unfolding translated_byte_buffer
translated_byte_buffer_lem m token ptr len small mapped =
    let whole : (ptr + len) % 2 ^ 64 ≡ ptr + len = omega arith in
    let size : (ptr + len) - ptr ≡ len = omega arith in
    let (v, full, run, all) =
      buffer_loop_lem m (from_token token) (len + 1) ptr (ptr + len) (omega arith) small mapped in
    (
      v,
      full,
      ap (λ n. buffer_loop m (from_token token) (len + 1) ptr n) whole ∙ run,
      all ∙ ap (λ n. tabulate n ptr (place m (from_token token))) size,
    )
