-- ===== src/Os/Mm/UserBuffer.antt =====
-- os/src/mm/page_table.rs: the memory of a process that the kernel reads and writes through the page
-- table of the process. A slice of a frame is its page number and its two ends in the page; a byte is
-- the page number and the offset of its place.
pub mod Buffer
pub mod Iterate
pub mod Text
use r_core_tutorial_code.Base.{
  ℕ, zero, suc, ◌+◌, ◌-◌, ◌*◌, ◌/◌, ◌%◌, ◌^◌, ◌<◌, Bool, Option, none, some, List, [], ◌∷◌, ◌++◌,
  Result, ok, panic, out_of_fuel, ◌==◌, ltb, leb, if◌then◌else◌, min, tabulate, length, get_elem?,
}
use r_core_tutorial_code.Os.Mm.Address.{
  page_size, virt_addr, usize_of_virt_addr, floor, page_offset, address_of, step,
}
use r_core_tutorial_code.Os.Mm.PageTable.{Memory, ppn_of, translate, translate_va, from_token}

pub record Slice : Type 0 where
  pub ppn : ℕ
  pub from : ℕ
  pub to : ℕ

abbrev pub Place : Type 0
Place = ℕ × ℕ

-- The bytes of a slice, and those of slices one after the other.
unfoldable pub places : Slice → List Place
places b = tabulate (b.to - b.from) b.from (λ offset. (b.ppn, offset))

unfoldable pub all_places : List Slice → List Place
all_places [] = []
all_places (b ∷ bs) = places b ++ all_places bs

-- `v.push`, with what the later rounds push behind.
unfoldable pub cons_slice : Slice → Result (List Slice) → Result (List Slice)
cons_slice b (ok v) = ok (b ∷ v)
cons_slice b panic = panic
cons_slice b out_of_fuel = out_of_fuel

-- A slice of the frame of `start_va`, to the offset of `end_va` or to the end of the frame. The source
-- panics when the slice would end before its start.
unfoldable pub push_slice :
    Option ℕ → (start_va end_va : ℕ) → Result (List Slice) → Result (List Slice)
unfolding ppn_of page_offset cons_slice
push_slice none start_va end_va rest = panic
push_slice (some pte) start_va end_va rest =
    let to = if page_offset end_va == 0 then page_size else page_offset end_va in
    if leb (page_offset start_va) to
    then cons_slice (record { ppn = ppn_of pte; from = page_offset start_va; to = to }) rest
    else panic

-- The end of a round: the next page or the end of all.
unfoldable pub round_end : (start end : ℕ) → ℕ
unfolding address_of step floor virt_addr
round_end start end = min (address_of (step (floor (virt_addr start)))) (virt_addr end)

-- The loop of `translated_byte_buffer`, on fuel.
unfoldable pub buffer_loop : Memory → (root_ppn fuel start end : ℕ) → Result (List Slice)
buffer_loop m root_ppn zero start end = out_of_fuel
buffer_loop m root_ppn (suc fuel) start end =
    let rest = buffer_loop m root_ppn fuel (usize_of_virt_addr (round_end start end)) end in
    if ltb start end
    then push_slice (translate m root_ppn (floor (virt_addr start))) (virt_addr start)
        (round_end start end) rest
    else ok []

unfoldable pub translated_byte_buffer : Memory → (token ptr len : ℕ) → Result (List Slice)
unfolding buffer_loop from_token
translated_byte_buffer m token ptr len =
    buffer_loop m (from_token token) (len + 1) ptr ((ptr + len) % 2 ^ 64)

-- A byte of physical memory, in little endian order.
unfoldable pub load_byte : Memory → ℕ → ℕ
load_byte m pa = m (pa / page_size) (pa % page_size / 8) / 2 ^ (8 * (pa % 8)) % 2 ^ 8

-- A round of the loop of `translated_str`: the byte that was read and the text behind it. A
-- character is its code.
unfoldable pub push_char : Option ℕ → Result (List ℕ) → Result (List ℕ)
push_char none rest = panic
push_char (some zero) rest = ok []
push_char (some (suc ch)) (ok string) = ok (suc ch ∷ string)
push_char (some (suc ch)) panic = panic
push_char (some (suc ch)) out_of_fuel = out_of_fuel

-- The byte at a virtual address.
unfoldable pub load_at : Memory → Option ℕ → Option ℕ
unfolding load_byte
load_at m none = none
load_at m (some pa) = some (load_byte m pa)

unfoldable pub str_loop : Memory → (root_ppn fuel va : ℕ) → Result (List ℕ)
unfolding push_char load_at
str_loop m root_ppn zero va = out_of_fuel
str_loop m root_ppn (suc fuel) va =
    push_char (load_at m (translate_va m root_ppn (virt_addr va)))
      (str_loop m root_ppn fuel ((va + 1) % 2 ^ 64))

unfoldable pub translated_str : Memory → (fuel token ptr : ℕ) → Result (List ℕ)
unfolding str_loop from_token
translated_str m fuel token ptr = str_loop m (from_token token) fuel ptr

-- `UserBuffer::len`
unfoldable pub buffer_length : List Slice → ℕ
buffer_length [] = 0
buffer_length (b ∷ bs) = (b.to - b.from) + buffer_length bs

-- No slice is empty.
abbrev pub AreNonEmpty : List Slice → Type 0
AreNonEmpty [] = Unit {0}
AreNonEmpty (b ∷ bs) = (0 < b.to - b.from) × AreNonEmpty bs

-- `UserBufferIterator`, and `into_iter`.
pub record UserBufferIterator : Type 0 where
  pub buffers : List Slice
  pub current_buffer : ℕ
  pub current_idx : ℕ

unfoldable pub into_iter : List Slice → UserBufferIterator
into_iter buffers = record { buffers = buffers; current_buffer = 0; current_idx = 0 }

-- `next` in the current slice, if there is one; the index in it is checked.
unfoldable pub next_in :
    Option Slice → UserBufferIterator → Result (Option Place × UserBufferIterator)
next_in none it = ok (none, it)
next_in (some b) it =
    if ltb it.current_idx (b.to - b.from)
    then ok (
      some (b.ppn, b.from + it.current_idx),
      if it.current_idx + 1 == b.to - b.from
          then record it { current_idx = 0; current_buffer = it.current_buffer + 1 }
          else record it { current_idx = it.current_idx + 1 },
    )
    else panic

unfoldable pub next : UserBufferIterator → Result (Option Place × UserBufferIterator)
unfolding next_in
next it = next_in (get_elem? it.buffers it.current_buffer) it

-- The places that a `for` loop sees, on fuel.
unfoldable pub push_place : Place → Result (List Place) → Result (List Place)
push_place p (ok ps) = ok (p ∷ ps)
push_place p panic = panic
push_place p out_of_fuel = out_of_fuel

unfoldable pub collect : ℕ → UserBufferIterator → Result (List Place)
unfolding next push_place
collect zero it = out_of_fuel
collect (suc fuel) it = elim (next it) [
  | ok (some p, it') ↦ push_place p (collect fuel it')
  | ok (none, it') ↦ ok []
  | panic ↦ panic
  | out_of_fuel ↦ out_of_fuel
]
