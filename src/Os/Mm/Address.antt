-- ===== src/Os/Mm/Address.antt =====
-- os/src/mm/address.rs: addresses and page numbers of Sv39. The four types are the numbers that
-- they hold, 64-bit ones; `v & ((1 << w) - 1)` is the remainder by `2 ^ w`.
pub mod Conversion
pub mod Range
use r_core_tutorial_code.Base.{
  ℕ, zero, suc, ◌+◌, ◌-◌, ◌*◌, ◌/◌, ◌%◌, ◌^◌, Bool, Option, none, some, List, [], ◌∷◌, Result, ok,
  panic, leb, ◌==◌, if◌then◌else◌,
}

-- `PAGE_SIZE`
abbrev pub page_size : ℕ
page_size = 0x1000

abbrev pub page_size_bits : ℕ
page_size_bits = 0xc

abbrev pub pa_width_sv39 : ℕ
pa_width_sv39 = 56

abbrev pub va_width_sv39 : ℕ
va_width_sv39 = 39

-- `From<usize>` of the four types.
unfoldable pub phys_addr : ℕ → ℕ
phys_addr v = v % 2 ^ pa_width_sv39

unfoldable pub phys_page_num : ℕ → ℕ
phys_page_num v = v % 2 ^ (pa_width_sv39 - page_size_bits)

unfoldable pub virt_addr : ℕ → ℕ
virt_addr v = v % 2 ^ va_width_sv39

unfoldable pub virt_page_num : ℕ → ℕ
virt_page_num v = v % 2 ^ (va_width_sv39 - page_size_bits)

-- `From<VirtAddr> for usize`: the bits from 39 on are set where bit 38 and those above it make the
-- number large.
unfoldable pub usize_of_virt_addr : ℕ → ℕ
usize_of_virt_addr v =
    if leb (2 ^ (va_width_sv39 - 1)) v
    then v % 2 ^ va_width_sv39 + (2 ^ 64 - 2 ^ va_width_sv39)
    else v

-- `floor` and `ceil`, `page_offset` and `aligned`, of physical and virtual addresses alike.
unfoldable pub floor : ℕ → ℕ
floor v = v / page_size

unfoldable pub ceil : ℕ → ℕ
ceil v = ((v + 2 ^ 64 - 1) % 2 ^ 64 + page_size) % 2 ^ 64 / page_size

unfoldable pub page_offset : ℕ → ℕ
page_offset v = v % page_size

unfoldable pub aligned : ℕ → Bool
unfolding page_offset
aligned v = page_offset v == 0

-- `From` an address for its page number, with the assertion, and back.
unfoldable pub page_of : ℕ → Result ℕ
unfolding page_offset floor
page_of v = if page_offset v == 0 then ok (floor v) else panic

unfoldable pub address_of : ℕ → ℕ
address_of n = (n * 2 ^ page_size_bits) % 2 ^ 64

-- `VirtPageNum::indexes`
unfoldable pub indexes : ℕ → ℕ × ℕ × ℕ
indexes vpn =
    let vpn1 = vpn / 2 ^ 9 in let vpn2 = vpn1 / 2 ^ 9 in (vpn2 % 512, vpn1 % 512, vpn % 512)

-- `StepByOne`
unfoldable pub step : ℕ → ℕ
step n = (n + 1) % 2 ^ 64

-- `SimpleRange`, and its iterator with the same two numbers.
pub record SimpleRange : Type 0 where
  pub l : ℕ
  pub r : ℕ

unfoldable pub new : ℕ → ℕ → Result SimpleRange
new start end = if leb start end then ok (record { l = start; r = end }) else panic

-- `Iterator::next`
unfoldable pub next : SimpleRange → Option ℕ × SimpleRange
unfolding step
next it = if it.l == it.r then (none, it) else (some it.l, record it { l = step it.l })

-- The first element and those after it.
unfoldable pub first_of : Option ℕ → Option (List ℕ) → Option (List ℕ)
first_of none rest = some []
first_of (some n) none = none
first_of (some n) (some ns) = some (n ∷ ns)

-- The elements that a `for` loop over the range sees, on fuel; `none` is no end in sight.
unfoldable pub elements : ℕ → SimpleRange → Option (List ℕ)
unfolding next first_of
elements zero it = none
elements (suc fuel) it = let rest = elements fuel ((next it).1) in first_of ((next it).0) rest
