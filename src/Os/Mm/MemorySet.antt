-- ===== src/Os/Mm/MemorySet.antt =====
-- os/src/mm/memory_set.rs: address spaces. The parser of ELF files is a parameter: what it finds in a
-- file. `strampoline` is the address of the code of the trampoline.
pub mod Balance
pub mod Release
pub mod Copies
use r_core_tutorial_code.Base.{
  ℕ, zero, suc, ◌+◌, ◌-◌, ◌*◌, ◌/◌, ◌%◌, ◌^◌, Bool, true, false, Option, none, some, List, [], ◌∷◌,
  ◌++◌, State, Result, ok, panic, out_of_fuel, and_then, assert, gets, modify, pure, unwrap, ◌>>=◌,
  ◌>>◌, ◌==◌, if◌then◌else◌, update,
}
use r_core_tutorial_code.Os.Mm.Address
use r_core_tutorial_code.Os.Mm.Address.{
  virt_addr, phys_addr, page_of, floor, ceil, usize_of_virt_addr, address_of,
}
use r_core_tutorial_code.Os.Mm.PageTable
use r_core_tutorial_code.Os.Mm.PageTable.{Space, Memory, frame_alloc, map_page, ppn_of}
use r_core_tutorial_code.Os.Mm.MapArea
use r_core_tutorial_code.Os.Mm.MapArea.{
  MapArea, MapType, framed, identical, readable, writable, executable, user, lift, drop_frames,
  drop_table,
}
use r_core_tutorial_code.Os.Task.Pid.{trampoline}

pub record MemorySet : Type 0 where
  pub root_ppn : ℕ
  pub table_frames : List ℕ
  pub areas : List MapArea

-- `TRAP_CONTEXT` and `USER_STACK_SIZE` of os/src/config.rs
abbrev pub trap_context : ℕ
trap_context = trampoline - 0x1000

abbrev pub user_stack_size : ℕ
user_stack_size = 4096 * 2

-- A change of the page table of a set: its frames are those of the state meanwhile.
abbrev pub restore :
    {A : Type 0} → MemorySet → List ℕ → A × Space → Result ((A × MemorySet) × Space)
restore self owned (a, s) =
    ok ((a, record self { table_frames = s.owned }), record s { owned = owned })

abbrev pub after : {A B : Type 0} → Result A → (A → Result B) → Result B
after (ok a) k = k a
after panic k = panic
after out_of_fuel k = out_of_fuel

unfoldable pub with_table : {A : Type 0} → MemorySet → State Space A → State Space (A × MemorySet)
with_table self m s = after (m (record s { owned = self.table_frames })) (restore self s.owned)

-- `PageTable::new`
unfoldable pub new_bare : State Space MemorySet
new_bare = do
  found ← frame_alloc
  root_ppn ← unwrap found
  pure (record { root_ppn = root_ppn; table_frames = root_ppn ∷ []; areas = [] })

unfoldable pub token : MemorySet → ℕ
token self = PageTable.token self.root_ppn

unfoldable pub translate : Memory → MemorySet → ℕ → Option ℕ
translate m self vpn = PageTable.translate m self.root_ppn vpn

-- `push` without data.
unfoldable pub push : MapArea → MemorySet → State Space MemorySet
unfolding with_table
push area self = do
  (area', self') ← with_table self (MapArea.map self.root_ppn area)
  pure (record self' { areas = self'.areas ++ area' ∷ [] })

-- `push` with `len` bytes of data.
unfoldable pub push_data : MapArea → (source : ℕ → ℕ) (len : ℕ) → MemorySet → State Space MemorySet
unfolding with_table
push_data area source len self = do
  (area', self') ← with_table self (MapArea.map self.root_ppn area)
  MapArea.copy_data self.root_ppn source len area'
  pure (record self' { areas = self'.areas ++ area' ∷ [] })

unfoldable pub insert_framed_area :
    (start_va end_va permission : ℕ) → MemorySet → State Space MemorySet
unfolding push
insert_framed_area start_va end_va permission self = do
  area ← lift (MapArea.new start_va end_va framed permission)
  push area self

-- The first area from a page on, the areas before it and those behind it.
unfoldable pub find_area : ℕ → List MapArea → Option (List MapArea × MapArea × List MapArea)
find_area start_vpn [] = none
find_area start_vpn (area ∷ areas) =
    if area.vpn_range.l == start_vpn
    then some ([], area, areas)
    else elim (find_area start_vpn areas) [
      | none ↦ none
      | some (before, found, behind) ↦ some (area ∷ before, found, behind)
    ]

unfoldable pub remove_found :
    Option (List MapArea × MapArea × List MapArea) → MemorySet → State Space MemorySet
unfolding with_table
remove_found none self = pure self
remove_found (some (before, area, behind)) self = do
  (area', self') ← with_table self (MapArea.unmap_area self.root_ppn area)
  drop_frames area'.data_frames
  pure (record self' { areas = before ++ behind })

unfoldable pub remove_area_with_start_vpn : ℕ → MemorySet → State Space MemorySet
unfolding find_area remove_found
remove_area_with_start_vpn start_vpn self = remove_found (find_area start_vpn self.areas) self

unfoldable pub map_trampoline : (strampoline : ℕ) → MemorySet → State Space MemorySet
unfolding with_table
map_trampoline strampoline self = do
  vpn ← lift (page_of (virt_addr trampoline))
  ppn ← lift (page_of (phys_addr strampoline))
  (_, self') ← with_table self (map_page self.root_ppn vpn ppn (readable + executable))
  pure self'

-- The drop of all areas, and of the page table.
unfoldable pub drop_areas : List MapArea → State Space (Unit {0})
drop_areas [] = pure tt
drop_areas (area ∷ areas) = do drop_frames area.data_frames; drop_areas areas

unfoldable pub recycle_data_pages : MemorySet → State Space MemorySet
unfolding drop_areas
recycle_data_pages self = do drop_areas self.areas; pure (record self { areas = [] })

unfoldable pub drop : MemorySet → State Space (Unit {0})
unfolding drop_areas
drop self = do drop_table self.table_frames; drop_areas self.areas

-- The copies of the pages of an area, `n` from `vpn` on.
unfoldable pub copy_pages : (n : ℕ) (source_root target_root vpn : ℕ) → State Space (Unit {0})
unfolding ppn_of
copy_pages zero source_root target_root vpn = pure tt
copy_pages (suc n) source_root target_root vpn = do
  source ← gets (λ (s : Space). PageTable.translate s.memory source_root vpn)
  src_pte ← unwrap source
  target ← gets (λ (s : Space). PageTable.translate s.memory target_root vpn)
  dst_pte ← unwrap target
  modify (λ s. record s { memory = update s.memory (ppn_of dst_pte) (s.memory (ppn_of src_pte)) })
  copy_pages n source_root target_root (Address.step vpn)

-- The loop of `from_existed_user` over the areas.
unfoldable pub copy_areas : (source_root : ℕ) → List MapArea → MemorySet → State Space MemorySet
unfolding push copy_pages
copy_areas source_root [] self = pure self
copy_areas source_root (area ∷ areas) self = do
  new_area ← lift (MapArea.from_another area)
  self' ← push new_area self
  copy_pages (area.vpn_range.r - area.vpn_range.l) source_root self'.root_ppn area.vpn_range.l
  copy_areas source_root areas self'

unfoldable pub from_existed_user : (strampoline : ℕ) → MemorySet → State Space MemorySet
unfolding new_bare map_trampoline copy_areas
from_existed_user strampoline user_space = do
  memory_set ← new_bare
  memory_set' ← map_trampoline strampoline memory_set
  copy_areas user_space.root_ppn user_space.areas memory_set'
