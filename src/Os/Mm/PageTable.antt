-- ===== src/Os/Mm/PageTable.antt =====
-- os/src/mm/page_table.rs: entries, and the walk through the three levels of a page table. Physical
-- memory is the entries of its frames; the identity of a frame is its page number.
pub mod Entry
pub mod Mapping
use r_core_tutorial_code.Base.{
  ℕ, zero, suc, ◌+◌, ◌-◌, ◌*◌, ◌/◌, ◌%◌, ◌^◌, Bool, not, Option, none, some, List, [], ◌∷◌, ◌++◌,
  State, Result, ok, panic, assert, gets, modify, pure, unwrap, ◌>>=◌, ◌>>◌, update, ◌==◌,
  if◌then◌else◌, bit_or,
}
use r_core_tutorial_code.Os.Mm.Address.{
  indexes, phys_page_num, phys_addr, floor, page_offset, address_of,
}
use r_core_tutorial_code.Os.Mm.FrameAllocator.{StackFrameAllocator, alloc}

-- `PageTableEntry::new`; the flags are a byte, so that `|` is a sum.
unfoldable pub new_entry : (ppn flags : ℕ) → ℕ
new_entry ppn flags = (ppn * 2 ^ 10) % 2 ^ 64 + flags

unfoldable pub ppn_of : ℕ → ℕ
unfolding phys_page_num
ppn_of bits = phys_page_num (bits / 2 ^ 10 % 2 ^ 44)

-- All eight bits are flags, so `from_bits` has a result.
unfoldable pub flags_of : ℕ → ℕ
flags_of bits = bits % 2 ^ 8

-- The tests of the flags V, R, W and X.
unfoldable pub has_flag : ℕ → ℕ → Bool
unfolding flags_of
has_flag k bits = flags_of bits / 2 ^ k % 2 == 1

unfoldable pub is_valid : ℕ → Bool
unfolding has_flag
is_valid bits = has_flag 0 bits

unfoldable pub readable : ℕ → Bool
unfolding has_flag
readable bits = has_flag 1 bits

unfoldable pub writable : ℕ → Bool
unfolding has_flag
writable bits = has_flag 2 bits

unfoldable pub executable : ℕ → Bool
unfolding has_flag
executable bits = has_flag 3 bits

-- The entries of the frames, by page number and index.
abbrev pub Memory : Type 0
Memory = ℕ → ℕ → ℕ

unfoldable pub set_entry : Memory → (ppn idx bits : ℕ) → Memory
set_entry m ppn idx bits = update m ppn (update (m ppn) idx bits)

-- The frame allocator, the memory, and the frames that the page table owns.
pub record Space : Type 0 where
  pub frames : StackFrameAllocator
  pub memory : Memory
  pub owned : List ℕ

-- `FrameTracker::new` clears the frame.
unfoldable pub track : Option ℕ × StackFrameAllocator → State Space (Option ℕ)
track (none, a) s = ok (none, record s { frames = a })
track (some ppn, a) s =
    ok (some ppn, record s { frames = a; memory = update s.memory ppn (λ _. 0) })

unfoldable pub frame_alloc : State Space (Option ℕ)
unfolding track alloc
frame_alloc s = track (alloc s.frames) s

-- The loop of `find_pte`: where the last entry is, by the page number of its table and its index.
unfoldable pub find_from : Memory → List ℕ → ℕ → Option (ℕ × ℕ)
unfolding is_valid ppn_of
find_from m [] ppn = none
find_from m (idx ∷ []) ppn = some (ppn, idx)
find_from m (idx ∷ i ∷ is) ppn =
    if is_valid (m ppn idx) then find_from m (i ∷ is) (ppn_of (m ppn idx)) else none

-- `indexes` as a list.
unfoldable pub path : ℕ → List ℕ
unfolding indexes
path vpn = let (i0, i1, i2) = indexes vpn in i0 ∷ i1 ∷ i2 ∷ []

unfoldable pub find_pte : Memory → (root_ppn vpn : ℕ) → Option (ℕ × ℕ)
unfolding find_from path
find_pte m root_ppn vpn = find_from m (path vpn) root_ppn

-- The table of an entry that is not valid yet.
unfoldable pub create_table : (ppn idx : ℕ) → State Space ℕ
unfolding frame_alloc new_entry ppn_of set_entry
create_table ppn idx = do
  found ← frame_alloc
  frame ← unwrap found
  modify (λ s. record s {
    memory = set_entry s.memory ppn idx (new_entry frame 1);
    owned = s.owned ++ frame ∷ [];
  })
  gets (λ s. ppn_of (s.memory ppn idx))

-- The loop of `find_pte_create`.
unfoldable pub find_create_from : List ℕ → ℕ → State Space (Option (ℕ × ℕ))
unfolding create_table is_valid ppn_of
find_create_from [] ppn = pure none
find_create_from (idx ∷ []) ppn = pure (some (ppn, idx))
find_create_from (idx ∷ i ∷ is) ppn = do
  pte ← gets (λ s. s.memory ppn idx)
  next ← (if is_valid pte then pure (ppn_of pte) else create_table ppn idx)
  find_create_from (i ∷ is) next

unfoldable pub find_pte_create : (root_ppn vpn : ℕ) → State Space (Option (ℕ × ℕ))
unfolding find_create_from path
find_pte_create root_ppn vpn = find_create_from (path vpn) root_ppn

unfoldable pub map_page : (root_ppn vpn ppn flags : ℕ) → State Space (Unit {0})
unfolding find_pte_create is_valid new_entry set_entry
map_page root_ppn vpn ppn flags = do
  found ← find_pte_create root_ppn vpn
  (table, idx) ← unwrap found
  pte ← gets (λ s. s.memory table idx)
  assert (not (is_valid pte))
  modify (λ s. record s { memory = set_entry s.memory table idx (new_entry ppn (bit_or flags 1)) })

unfoldable pub unmap : (root_ppn vpn : ℕ) → State Space (Unit {0})
unfolding find_pte is_valid set_entry
unmap root_ppn vpn = do
  found ← gets (λ s. find_pte s.memory root_ppn vpn)
  (table, idx) ← unwrap found
  pte ← gets (λ s. s.memory table idx)
  assert (is_valid pte)
  modify (λ s. record s { memory = set_entry s.memory table idx 0 })

-- An entry at a place, if there is one.
unfoldable pub entry_at : Memory → Option (ℕ × ℕ) → Option ℕ
entry_at m none = none
entry_at m (some (table, idx)) = some (m table idx)

unfoldable pub translate : Memory → (root_ppn vpn : ℕ) → Option ℕ
unfolding entry_at find_pte
translate m root_ppn vpn = entry_at m (find_pte m root_ppn vpn)

unfoldable pub address_in : ℕ → Option ℕ → Option ℕ
unfolding ppn_of address_of page_offset phys_addr
address_in va none = none
address_in va (some pte) = some (phys_addr (address_of (ppn_of pte) + page_offset va))

unfoldable pub translate_va : Memory → (root_ppn va : ℕ) → Option ℕ
unfolding address_in translate floor
translate_va m root_ppn va = address_in va (translate m root_ppn (floor va))

unfoldable pub token : ℕ → ℕ
token root_ppn = 8 * 2 ^ 60 + root_ppn

unfoldable pub from_token : ℕ → ℕ
unfolding phys_page_num
from_token satp = phys_page_num (satp % 2 ^ 44)
