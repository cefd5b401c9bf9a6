-- ===== src/Tests/Kernel.antt =====
-- The kernel's allocators and addresses, at concrete inputs.
use r_core_tutorial_code.Base.{
  ℕ, ◌<◌, ◌≤◌, ◌≡◌, ◌≢◌, ◌⊎◌, refl, arith, none, some, [], ◌∷◌, ok, panic, tabulate,
}
use r_core_tutorial_code.Base.Count.{count}
use r_core_tutorial_code.Os.Mm.Address.{
  virt_addr, usize_of_virt_addr, floor, ceil, page_offset, page_of, address_of, indexes,
  SimpleRange, elements,
}
use r_core_tutorial_code.Os.Mm.Address
use r_core_tutorial_code.Os.Mm.Address.Range.{range_lem}
use r_core_tutorial_code.Os.Mm.FrameAllocator
use r_core_tutorial_code.Os.Mm.FrameAllocator.{StackFrameAllocator}
use r_core_tutorial_code.Os.Mm.FrameAllocator.Invariant.{alloc_frame, dealloc_frame}
use r_core_tutorial_code.Os.Task.Pid
use r_core_tutorial_code.Os.Task.Pid.{PidAllocator, kernel_stack_position}
use r_core_tutorial_code.Base.{◌==◌, if◌then◌else◌, false}
use r_core_tutorial_code.Os.Mm.PageTable.{
  Space, new_entry, ppn_of, flags_of, is_valid, has_flag, map_page, unmap, translate,
}
use r_core_tutorial_code.Os.Mm.PageTable.Mapping.{HasTables, leaf, map_unmap}

-- The frames 5 to 7, and the state once 5 is held.
abbrev frames : StackFrameAllocator
frames = record { current = 6; end = 8; recycled = [] }

frames_run : FrameAllocator.Reachable 5 8 frames (5 ∷ [])
unfolding FrameAllocator.alloc FrameAllocator.alloc_from FrameAllocator.alloc_next
    FrameAllocator.init FrameAllocator.new Address.phys_page_num
frames_run =
    FrameAllocator.allocated (record { current = 5; end = 8; recycled = [] }) frames [] 5
      FrameAllocator.start refl

alloc_frame_example :
    ((p : ℕ) × (b : StackFrameAllocator) × (FrameAllocator.alloc frames ≡ (some p, b))
      × (5 ≤ p)
      × (p < 8)
      × (count p (5 ∷ []) ≡ 0))
    ⊎ ((FrameAllocator.alloc frames ≡ (none, frames))
        × ((x : ℕ) → 5 ≤ x → x < 8 → count x (5 ∷ []) ≡ 1))
alloc_frame_example = alloc_frame 5 8 frames (5 ∷ []) (omega arith) (omega arith) frames_run

dealloc_frame_example :
    ((0 < count 5 (5 ∷ []))
      × ((b : StackFrameAllocator) × (FrameAllocator.dealloc frames 5 ≡ ok b)))
    ⊎ ((count 5 (5 ∷ []) ≡ 0) × (FrameAllocator.dealloc frames 5 ≡ panic))
dealloc_frame_example =
    dealloc_frame 5 8 frames (5 ∷ []) 5 (omega arith) (omega arith) frames_run (omega arith)

-- One process, with the id 0.
abbrev pids : PidAllocator
pids = record { current = 1; recycled = [] }

pids_run : Pid.Reachable pids (0 ∷ [])
unfolding Pid.alloc Pid.alloc_from Pid.new
pids_run = Pid.allocated Pid.new [] Pid.start (omega arith)

range_lem_example :
    ((Address.new 3 6 ≡ panic) × (6 < 3))
    ⊎ ((it : SimpleRange) × (Address.new 3 6 ≡ ok it)
        × (elements 4 it ≡ some (tabulate 3 3 (λ k. k))))
range_lem_example = range_lem 3 6 (omega arith)

-- The tables of page 0 are the frames 1, 2 and 3.
abbrev space : Space
space = record {
  frames = record { current = 4; end = 8; recycled = [] };
  memory = λ a i. if i == 0 then (if a == 1 then 2049 else if a == 2 then 3073 else 0) else 0;
  owned = 1 ∷ 2 ∷ 3 ∷ [];
}

space-HasTables : HasTables space.memory 1 0
unfolding indexes is_valid has_flag flags_of ppn_of Address.phys_page_num
space-HasTables = record {
  top = refl;
  middle = refl;
  not_root = λ e. omega arith;
  not_mid = λ e. omega arith;
}

map_unmap_example :
    (t u : Space) × (map_page 1 0 70 14 space ≡ ok (tt, t))
    × (translate t.memory 1 0 ≡ some (new_entry 70 15))
    × (unmap 1 0 t ≡ ok (tt, u))
    × (translate u.memory 1 0 ≡ some 0)
    × (is_valid 0 ≡ false)
    × ((a : ℕ)
        → a ≢ leaf space.memory 1 0
        → (i : ℕ) → (t.memory a i ≡ space.memory a i) × (u.memory a i ≡ space.memory a i))
unfolding indexes is_valid has_flag flags_of ppn_of Address.phys_page_num
map_unmap_example = map_unmap space 1 0 70 14 space-HasTables refl refl
