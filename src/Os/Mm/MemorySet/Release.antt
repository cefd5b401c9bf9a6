-- ===== src/Os/Mm/MemorySet/Release.antt =====
-- The end of an address space: the drop of its areas and of its page table.
use r_core_tutorial_code.Base.{
  ℕ, ◌+◌, ◌^◌, ◌≤◌, ◌≡◌, refl, ap, ◌∙◌, arith, List, [], ◌∷◌, State, ok, and_then, ◌>>◌,
}
use r_core_tutorial_code.Base.Count.{count, one}
use r_core_tutorial_code.Os.Mm.FrameAllocator.{StackFrameAllocator}
use r_core_tutorial_code.Os.Mm.FrameAllocator.Invariant.{IsWellFormed}
use r_core_tutorial_code.Os.Mm.PageTable.{Space}
use r_core_tutorial_code.Os.Mm.MapArea.{MapArea, drop_frames, drop_table, frame_dealloc}
use r_core_tutorial_code.Os.Mm.MapArea.Frames.{frames_of, recount, frame_dealloc_lem}
use r_core_tutorial_code.Os.Mm.MapArea.Areas.{area_held}
use r_core_tutorial_code.Os.Mm.MemorySet.{MemorySet, drop_areas, drop}
use r_core_tutorial_code.Os.Mm.MemorySet.Balance.{areas_held, set_held}

module _ (l r : ℕ) (small : r ≤ 2 ^ 44) where
  -- The call returns, it changes the allocator only, and the frames that are left are held once.
  abbrev GivesBack : (s : Space) (held : ℕ → ℕ) → State Space (Unit {0}) → Type 0
  GivesBack s held m =
      (a : StackFrameAllocator) × (m s ≡ ok (tt, record s { frames = a })) × IsWellFormed l r a held

  then-GivesBack :
      (s : Space) (between held : ℕ → ℕ) (m k : State Space (Unit {0}))
      → GivesBack s between m
      → ((a : StackFrameAllocator)
          → IsWellFormed l r a between
          → GivesBack (record s { frames = a }) held k)
      → GivesBack s held (m >> k)
  then-GivesBack s between held m k (a, e, w) next =
      let (b, e', w') = next a w in (b, ap (λ v. and_then v (λ _. k)) e ∙ e', w')

  drop_frames-GivesBack :
      (fs : List (ℕ × ℕ)) (held : ℕ → ℕ) (s : Space)
      → IsWellFormed l r s.frames (λ x. held x + count x (frames_of fs))
      → GivesBack s held (drop_frames fs)
  unfolding drop_frames count
  drop_frames-GivesBack [] held s w =
      (s.frames, refl, recount l r s.frames (λ x. held x + 0) held (λ x. omega arith) w)
  drop_frames-GivesBack ((v, p) ∷ rest) held s w =
      let left = λ (x : ℕ). held x + count x (frames_of rest) in
      then-GivesBack s left held (frame_dealloc p) (drop_frames rest)
        (frame_dealloc_lem l r small p left s (
          recount l r s.frames (λ x. held x + count x (p ∷ frames_of rest)) (λ x. one x p + left x)
            (λ x. omega arith) w))
        (λ a w'. drop_frames-GivesBack rest held (record s { frames = a }) w')

  drop_table-GivesBack :
      (ps : List ℕ) (held : ℕ → ℕ) (s : Space)
      → IsWellFormed l r s.frames (λ x. held x + count x ps)
      → GivesBack s held (drop_table ps)
  unfolding drop_table count
  drop_table-GivesBack [] held s w =
      (s.frames, refl, recount l r s.frames (λ x. held x + 0) held (λ x. omega arith) w)
  drop_table-GivesBack (p ∷ rest) held s w =
      let left = λ (x : ℕ). held x + count x rest in
      then-GivesBack s left held (frame_dealloc p) (drop_table rest)
        (frame_dealloc_lem l r small p left s (
          recount l r s.frames (λ x. held x + count x (p ∷ rest)) (λ x. one x p + left x)
            (λ x. omega arith) w))
        (λ a w'. drop_table-GivesBack rest held (record s { frames = a }) w')

  pub drop_areas-GivesBack :
      (areas : List MapArea) (held : ℕ → ℕ) (s : Space)
      → IsWellFormed l r s.frames (λ x. held x + areas_held areas x)
      → GivesBack s held (drop_areas areas)
  unfolding drop_areas areas_held
  drop_areas-GivesBack [] held s w =
      (s.frames, refl, recount l r s.frames (λ x. held x + 0) held (λ x. omega arith) w)
  drop_areas-GivesBack (area ∷ areas) held s w =
      let left = λ (x : ℕ). held x + areas_held areas x in
      then-GivesBack s left held (drop_frames area.data_frames) (drop_areas areas)
        (drop_frames-GivesBack area.data_frames left s (
          recount l r s.frames (λ x. held x + (area_held area x + areas_held areas x))
            (λ x. left x + area_held area x) (λ x. omega arith) w))
        (λ a w'. drop_areas-GivesBack areas held (record s { frames = a }) w')

  -- When each frame of the allocator is free or held once, by a set or by others, the drop of the
  -- set does not panic, it changes the allocator only, and each frame is free then or held once by
  -- the others.
  pub drop_lem :
      (self : MemorySet) (others : ℕ → ℕ) (s : Space)
      → IsWellFormed l r s.frames (λ x. others x + set_held self x)
      → (a : StackFrameAllocator) × (drop self s ≡ ok (tt, record s { frames = a }))
        × IsWellFormed l r a others
  unfolding drop set_held
  drop_lem self others s w =
      let left = λ (x : ℕ). others x + areas_held self.areas x in
      then-GivesBack s left others (drop_table self.table_frames) (drop_areas self.areas)
        (drop_table-GivesBack self.table_frames left s (
          recount l r s.frames (λ x. others x + set_held self x)
            (λ x. left x + count x self.table_frames) (λ x. omega arith) w))
        (λ a w'. drop_areas-GivesBack self.areas others (record s { frames = a }) w')
