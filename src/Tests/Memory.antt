-- ===== src/Tests/Memory.antt =====
-- Address spaces of a small machine, at concrete inputs.
use r_core_tutorial_code.Base.{
  ℕ, ◌+◌, ◌≡◌, refl, arith, true, false, some, [], ◌∷◌, ok, panic, out_of_fuel, Result, update,
  if◌then◌else◌, ◌==◌,
}
use r_core_tutorial_code.Base.Count.{count, one}
use r_core_tutorial_code.Os.Mm.Address
use r_core_tutorial_code.Os.Mm.PageTable
use r_core_tutorial_code.Os.Mm.MapArea
use r_core_tutorial_code.Os.Mm.Load
use r_core_tutorial_code.Os.Mm.FrameAllocator
use r_core_tutorial_code.Os.Mm.FrameAllocator.{StackFrameAllocator, init, new}
use r_core_tutorial_code.Os.Mm.FrameAllocator.Invariant.{within, start-IsWellFormed}
use r_core_tutorial_code.Os.Mm.PageTable.{Space}
use r_core_tutorial_code.Os.Mm.MapArea.Frames.{Balanced, recount}
use r_core_tutorial_code.Os.Mm.MemorySet
use r_core_tutorial_code.Os.Mm.MemorySet.{MemorySet, from_existed_user, drop}
use r_core_tutorial_code.Os.Mm.MemorySet.Balance.{set_held, areas_held}
use r_core_tutorial_code.Os.Mm.MemorySet.Copies.{Fresh, from_existed_user_lem}
use r_core_tutorial_code.Os.Mm.Load.{ElfFile, ProgramHeader, from_elf}
use r_core_tutorial_code.Os.Mm.Load.Frames.{from_elf_lem}

-- The frames 5 to 59, all free.
abbrev free : Space
free = record {
  frames = record { current = 5; end = 60; recycled = [] };
  memory = λ a i. 0;
  owned = [];
}

free-Balanced : Balanced 5 60 (λ _. 0) free
unfolding init new count
free-Balanced =
    recount 5 60 free.frames (λ _. 0) (λ _. 0 + 0) (λ x. omega arith)
      (start-IsWellFormed 5 60 (omega arith))

-- One segment of 20 bytes, from the address `0x1000` on.
abbrev program : ElfFile
program = record {
  has_magic = true;
  input = λ i. 9;
  input_len = 100;
  program_headers =
      record {
        is_load = true;
        virtual_addr = 0x1000;
        mem_size = 40;
        is_read = true;
        is_write = false;
        is_execute = true;
        offset = 10;
        file_size = 20;
      }
      ∷ [];
  entry_point = 0x1000;
}

abbrev no_set : MemorySet
no_set = record { root_ppn = 0; table_frames = []; areas = [] }

abbrev loaded : Result ((MemorySet × ℕ × ℕ) × Space)
loaded = from_elf 0x80200000 (some program) free

abbrev of_elf : Result ((MemorySet × ℕ × ℕ) × Space) → (MemorySet × ℕ × ℕ) × Space
of_elf (ok v) = v
of_elf panic = ((no_set, 0, 0), free)
of_elf out_of_fuel = ((no_set, 0, 0), free)

abbrev first : MemorySet
first = (of_elf loaded).0.0

abbrev s1 : Space
s1 = (of_elf loaded).1

loaded_run :
    from_elf 0x80200000 (some program) free
    ≡ ok ((first, (of_elf loaded).0.1, (of_elf loaded).0.2), s1)
unfolding Load.from_elf MemorySet.new_bare PageTable.frame_alloc MemorySet.map_trampoline
    Address.page_of Address.virt_addr Address.phys_addr PageTable.map_page update MapArea.new
    Address.new Address.ceil MemorySet.push_data MapArea.map MapArea.map_one MapArea.copy_data
    PageTable.translate Address.usize_of_virt_addr Address.address_of Address.floor Address.indexes
    Address.page_offset Address.phys_page_num Address.step FrameAllocator.alloc
    FrameAllocator.alloc_from FrameAllocator.alloc_next Load.load_header Load.load_headers
    Load.load_segment Load.permission_of Load.push_new Load.push_stack MapArea.byte_in
    MapArea.choose_frame MapArea.copy_loop MapArea.copy_page MapArea.drop_taken MapArea.is_framed
    MapArea.map_pages MapArea.taken MapArea.inserted MapArea.with_range MapArea.without
    MapArea.word_of MemorySet.push MemorySet.with_table PageTable.create_table PageTable.entry_at
    PageTable.find_create_from PageTable.find_from PageTable.find_pte PageTable.find_pte_create
    PageTable.flags_of PageTable.has_flag PageTable.is_valid PageTable.new_entry PageTable.path
    PageTable.ppn_of PageTable.set_entry PageTable.track
loaded_run = refl

from_elf_lem_example :
    Fresh 5 60 (omega arith) (λ _. 0) (λ v. v.0) (from_elf 0x80200000 (some program) free)
from_elf_lem_example =
    from_elf_lem 5 60 (omega arith) 0x80200000 (some program) (λ _. 0) free free-Balanced

-- A set with one page, number 0 in the frame 4, that a fork copies.
abbrev one_page : MemorySet
one_page = record {
  root_ppn = 1;
  table_frames = 1 ∷ 2 ∷ 3 ∷ [];
  areas =
      record {
        vpn_range = record { l = 0; r = 1 };
        data_frames = (0, 4) ∷ [];
        map_type = MapArea.framed;
        map_perm = 22;
      }
      ∷ [];
}

abbrev used : Space
used = record {
  frames = record { current = 5; end = 60; recycled = [] };
  memory = λ a i.
      if i == 0
      then if a == 1 then 2049 else if a == 2 then 3073 else if a == 3 then 4119 else 7
      else 0;
  owned = [];
}

used-Balanced : Balanced 1 60 (set_held one_page) used
unfolding set_held areas_held count one within
used-Balanced = record {
  from = omega arith;
  to = omega arith;
  last = refl;
  split = λ x. ground arith;
}

abbrev forked : Result (MemorySet × Space)
forked = from_existed_user 0x80200000 one_page used

abbrev of_fork : Result (MemorySet × Space) → MemorySet × Space
of_fork (ok v) = v
of_fork panic = (no_set, free)
of_fork out_of_fuel = (no_set, free)

forked_run :
    from_existed_user 0x80200000 one_page used ≡ ok ((of_fork forked).0, (of_fork forked).1)
unfolding MemorySet.new_bare PageTable.frame_alloc MemorySet.map_trampoline Address.page_of
    Address.virt_addr Address.phys_addr PageTable.map_page update Address.new MapArea.map
    MapArea.map_one PageTable.translate Address.usize_of_virt_addr Address.address_of Address.floor
    Address.indexes Address.page_offset Address.phys_page_num Address.step FrameAllocator.alloc
    FrameAllocator.alloc_from FrameAllocator.alloc_next MapArea.choose_frame MapArea.drop_taken
    MapArea.map_pages MapArea.taken MapArea.inserted MapArea.with_range MapArea.without
    MemorySet.push MemorySet.with_table PageTable.create_table PageTable.entry_at
    PageTable.find_create_from PageTable.find_from PageTable.find_pte PageTable.find_pte_create
    PageTable.flags_of PageTable.has_flag PageTable.is_valid PageTable.new_entry PageTable.path
    PageTable.ppn_of PageTable.set_entry PageTable.track from_existed_user MemorySet.copy_areas
    MemorySet.copy_pages MapArea.from_another
forked_run = refl

from_existed_user_lem_example :
    Fresh 1 60
      (omega arith)
      (set_held one_page)
      (λ copy. copy)
      (from_existed_user 0x80200000 one_page used)
from_existed_user_lem_example =
    from_existed_user_lem 1 60 (omega arith) 0x80200000 one_page (set_held one_page) used
      used-Balanced
