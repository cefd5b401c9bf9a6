-- ===== src/Os/Mm/MapArea.antt =====
-- os/src/mm/memory_set.rs: areas of an address space. The frames of the page table at work are those
-- in the state (`owned`); a frame that is dropped goes back to the allocator. The loops over a range of
-- pages run as often as it has pages.
pub mod Frames
pub mod Areas
use r_core_tutorial_code.Base.{
  ℕ, zero, suc, ◌+◌, ◌-◌, ◌*◌, ◌/◌, ◌%◌, ◌^◌, Bool, true, false, Option, none, some, List, [], ◌∷◌,
  ◌++◌, State, Result, ok, panic, out_of_fuel, and_then, assert, gets, modify, pure, unwrap, ◌>>=◌,
  ◌>>◌, ◌==◌, ltb, leb, if◌then◌else◌, update,
}
use r_core_tutorial_code.Os.Mm.Address
use r_core_tutorial_code.Os.Mm.Address.{SimpleRange, virt_addr, floor, ceil, page_of, phys_addr}
use r_core_tutorial_code.Os.Mm.FrameAllocator.{dealloc, StackFrameAllocator}
use r_core_tutorial_code.Os.Mm.PageTable
use r_core_tutorial_code.Os.Mm.PageTable.{
  Space, Memory, frame_alloc, map_page, unmap, translate, ppn_of,
}
use r_core_tutorial_code.Os.Task.Pid.{trampoline}

pub data MapType : Type 0 where
  identical : MapType
  framed : MapType

-- `MapPermission`
abbrev pub readable : ℕ
readable = 2

abbrev pub writable : ℕ
writable = 4

abbrev pub executable : ℕ
executable = 8

abbrev pub user : ℕ
user = 16

-- `data_frames` has the pages with their frames.
pub record MapArea : Type 0 where
  pub vpn_range : SimpleRange
  pub data_frames : List (ℕ × ℕ)
  pub map_type : MapType
  pub map_perm : ℕ

-- A result without a state.
abbrev pub lift : {A : Type 0} → Result A → State Space A
lift (ok a) s = ok (a, s)
lift panic s = panic
lift out_of_fuel s = out_of_fuel

with_frames : Space → Result StackFrameAllocator → Result (Unit {0} × Space)
with_frames s (ok a) = ok (tt, record s { frames = a })
with_frames s panic = panic
with_frames s out_of_fuel = out_of_fuel

-- The drop of a `FrameTracker`.
unfoldable pub frame_dealloc : ℕ → State Space (Unit {0})
unfolding with_frames
frame_dealloc ppn s = with_frames s (dealloc s.frames ppn)

-- The drop of the frames of an area, and of a page table.
unfoldable pub drop_frames : List (ℕ × ℕ) → State Space (Unit {0})
drop_frames [] = pure tt
drop_frames ((vpn, ppn) ∷ rest) = do frame_dealloc ppn; drop_frames rest

unfoldable pub drop_table : List ℕ → State Space (Unit {0})
drop_table [] = pure tt
drop_table (ppn ∷ rest) = do frame_dealloc ppn; drop_table rest

-- `BTreeMap::insert` and `remove`, with the frame that was there.
unfoldable pub taken : ℕ → List (ℕ × ℕ) → Option ℕ
taken vpn [] = none
taken vpn ((v, ppn) ∷ rest) = if v == vpn then some ppn else taken vpn rest

unfoldable pub without : ℕ → List (ℕ × ℕ) → List (ℕ × ℕ)
without vpn [] = []
without vpn ((v, ppn) ∷ rest) = if v == vpn then rest else (v, ppn) ∷ without vpn rest

-- The list is in the order of the pages, in which the frames are dropped.
unfoldable pub inserted : (vpn ppn : ℕ) → List (ℕ × ℕ) → List (ℕ × ℕ)
inserted vpn ppn [] = (vpn, ppn) ∷ []
inserted vpn ppn ((v, p) ∷ rest) =
    if ltb vpn v then (vpn, ppn) ∷ (v, p) ∷ rest else (v, p) ∷ inserted vpn ppn rest

unfoldable pub drop_taken : Option ℕ → State Space (Unit {0})
drop_taken none = pure tt
drop_taken (some ppn) = frame_dealloc ppn

-- `MapArea::new` and `from_another`
unfoldable pub with_range : MapType → ℕ → Result SimpleRange → Result MapArea
with_range map_type map_perm (ok range) =
    ok (record { vpn_range = range; data_frames = []; map_type = map_type; map_perm = map_perm })
with_range map_type map_perm panic = panic
with_range map_type map_perm out_of_fuel = out_of_fuel

unfoldable pub new : (start_va end_va : ℕ) → MapType → ℕ → Result MapArea
unfolding with_range
new start_va end_va map_type map_perm =
    with_range map_type map_perm (Address.new (floor start_va) (ceil end_va))

unfoldable pub from_another : MapArea → Result MapArea
unfolding with_range
from_another another =
    with_range another.map_type another.map_perm
      (Address.new another.vpn_range.l another.vpn_range.r)

-- The frame of a page, and the area with it.
unfoldable pub choose_frame : MapType → (vpn : ℕ) → MapArea → State Space (ℕ × MapArea)
unfolding taken without inserted drop_taken
choose_frame identical vpn self = pure (vpn, self)
choose_frame framed vpn self = do
  found ← frame_alloc
  ppn ← unwrap found
  drop_taken (taken vpn self.data_frames)
  pure (ppn, record self { data_frames = inserted vpn ppn (without vpn self.data_frames) })

unfoldable pub map_one : (root_ppn vpn : ℕ) → MapArea → State Space MapArea
unfolding choose_frame
map_one root_ppn vpn self = do
  (ppn, self') ← choose_frame self.map_type vpn self
  map_page root_ppn vpn ppn self.map_perm
  pure self'

unfoldable pub release_frame : MapType → (vpn : ℕ) → MapArea → State Space MapArea
unfolding taken without drop_taken
release_frame identical vpn self = pure self
release_frame framed vpn self = do
  drop_taken (taken vpn self.data_frames)
  pure (record self { data_frames = without vpn self.data_frames })

unfoldable pub unmap_one : (root_ppn vpn : ℕ) → MapArea → State Space MapArea
unfolding release_frame
unmap_one root_ppn vpn self = do
  self' ← release_frame self.map_type vpn self
  unmap root_ppn vpn
  pure self'

-- `n` pages from `vpn` on.
unfoldable pub map_pages : (n root_ppn vpn : ℕ) → MapArea → State Space MapArea
map_pages zero root_ppn vpn self = pure self
map_pages (suc n) root_ppn vpn self = do
  self' ← map_one root_ppn vpn self
  map_pages n root_ppn (Address.step vpn) self'

unfoldable pub map : (root_ppn : ℕ) → MapArea → State Space MapArea
unfolding map_pages
map root_ppn self = map_pages (self.vpn_range.r - self.vpn_range.l) root_ppn self.vpn_range.l self

unfoldable pub unmap_pages : (n root_ppn vpn : ℕ) → MapArea → State Space MapArea
unmap_pages zero root_ppn vpn self = pure self
unmap_pages (suc n) root_ppn vpn self = do
  self' ← unmap_one root_ppn vpn self
  unmap_pages n root_ppn (Address.step vpn) self'

unfoldable pub unmap_area : (root_ppn : ℕ) → MapArea → State Space MapArea
unfolding unmap_pages
unmap_area root_ppn self =
    unmap_pages (self.vpn_range.r - self.vpn_range.l) root_ppn self.vpn_range.l self

-- The bytes of a frame: a word of eight bytes in little endian order, and the bytes of words.
unfoldable pub word_of : (bytes : ℕ → ℕ) → (idx : ℕ) → ℕ
word_of bytes idx =
    bytes (8 * idx)
    + bytes (8 * idx + 1) * 2 ^ 8
    + bytes (8 * idx + 2) * 2 ^ 16
    + bytes (8 * idx + 3) * 2 ^ 24
    + bytes (8 * idx + 4) * 2 ^ 32
    + bytes (8 * idx + 5) * 2 ^ 40
    + bytes (8 * idx + 6) * 2 ^ 48
    + bytes (8 * idx + 7) * 2 ^ 56

unfoldable pub byte_in : (words : ℕ → ℕ) → (offset : ℕ) → ℕ
byte_in words offset = words (offset / 8) / 2 ^ (8 * (offset % 8)) % 2 ^ 8

-- `dst.copy_from_slice(src)`, for `size` bytes at the front of a frame.
unfoldable pub copy_page : (source : ℕ → ℕ) (size : ℕ) (words : ℕ → ℕ) → ℕ → ℕ
unfolding word_of byte_in
copy_page source size words = word_of (λ i. if ltb i size then source i else byte_in words i)

-- The loop of `copy_data`; a round copies a page, so the pages of the data, or one, are its fuel.
unfoldable pub copy_loop :
    (fuel root_ppn : ℕ) (source : ℕ → ℕ) (len start vpn : ℕ) → State Space (Unit {0})
unfolding copy_page ppn_of
copy_loop zero root_ppn source len start vpn = λ _. out_of_fuel
copy_loop (suc fuel) root_ppn source len start vpn = do
  found ← gets (λ (s : Space). translate s.memory root_ppn vpn)
  pte ← unwrap found
  modify (λ s. record s {
    memory = update s.memory (ppn_of pte) (
        copy_page (λ i. source (start + i)) (if ltb len (start + 4096) then len - start else 4096)
          (s.memory (ppn_of pte)));
  })
  if leb len (start + 4096)
      then pure tt
      else copy_loop fuel root_ppn source len (start + 4096) (Address.step vpn)

unfoldable pub is_framed : MapType → Bool
is_framed identical = false
is_framed framed = true

unfoldable pub copy_data :
    (root_ppn : ℕ) (source : ℕ → ℕ) (len : ℕ) → MapArea → State Space (Unit {0})
unfolding copy_loop is_framed
copy_data root_ppn source len self = do
  assert (is_framed self.map_type)
  copy_loop (len / 4096 + 1) root_ppn source len 0 self.vpn_range.l
