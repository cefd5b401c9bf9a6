-- ===== src/Os/Mm/Address/Conversion.antt =====
-- The conversions between addresses, page numbers and table indexes.
use r_core_tutorial_code.Base.{
  ℕ, ◌+◌, ◌-◌, ◌*◌, ◌/◌, ◌%◌, ◌^◌, ◌<◌, ◌≤◌, ◌≡◌, ◌≢◌, ◌⊎◌, inl, inr, refl, arith, ok, panic, ◌==◌,
  Bool-cases, ==→eq, ==→ne,
}
use r_core_tutorial_code.Os.Mm.Address.{
  virt_addr, usize_of_virt_addr, floor, ceil, page_offset, page_of, address_of, indexes,
}

-- A 64-bit number survives as a virtual address if and only if its bits from 38 on are equal, that
-- is, if it is in the lowest or in the highest `2 ^ 38` of them.
pub virt_addr_canonical :
    (v : ℕ)
    → v < 2 ^ 64
    → ((usize_of_virt_addr (virt_addr v) ≡ v) × ((v < 2 ^ 38) ⊎ (2 ^ 64 - 2 ^ 38 ≤ v)))
      ⊎ ((usize_of_virt_addr (virt_addr v) ≢ v) × (2 ^ 38 ≤ v) × (v < 2 ^ 64 - 2 ^ 38))
unfolding usize_of_virt_addr virt_addr
virt_addr_canonical v lt = ground arith

-- Of an address whose page is followed by another in 64 bits: its page and its offset, which is
-- below 4096, make it up, and `ceil` is the first page that does not start before it.
pub floor-ceil :
    (v : ℕ)
    → v + 4096 ≤ 2 ^ 64
    → (floor v * 4096 + page_offset v ≡ v)
      × (page_offset v < 4096)
      × (v ≤ ceil v * 4096)
      × (ceil v * 4096 < v + 4096)
unfolding floor page_offset ceil
floor-ceil v h = (omega arith, omega arith, omega arith, omega arith)

-- The page of a 64-bit address is given, with the address as its own, and is the page of that
-- address again; or the address is not aligned, which panics.
pub page_of_lem :
    (v : ℕ)
    → v < 2 ^ 64
    → ((page_of v ≡ panic) × (page_offset v ≢ 0))
      ⊎ ((n : ℕ) × (page_of v ≡ ok n) × (address_of n ≡ v) × (page_of (address_of n) ≡ ok n))
unfolding page_of page_offset floor address_of
page_of_lem v lt = elim (Bool-cases (v % 4096 == 0)) [
  | inl x ↦
      let z : v % 4096 ≡ 0 = ==→eq _ _ x in
      let back : (v / 4096 * 4096) % 2 ^ 64 ≡ v = omega arith in
      inr (v / 4096, rw x refl, back, rw (back, x) refl)
  | inr x ↦ inl (rw x refl, ==→ne _ _ x)
]

-- The three indexes of a virtual page number of 27 bits are below 512 and make it up.
pub indexes_lem :
    (vpn : ℕ)
    → vpn < 2 ^ 27
    → let i = indexes vpn in
      (i.0 < 512) × (i.1 < 512) × (i.2 < 512) × ((i.0 * 512 + i.1) * 512 + i.2 ≡ vpn)
unfolding indexes
indexes_lem vpn lt = (omega arith, omega arith, omega arith, omega arith)
