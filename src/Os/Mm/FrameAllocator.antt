-- ===== src/Os/Mm/FrameAllocator.antt =====
-- os/src/mm/frame_allocator.rs: the stack of physical frames. The last element of `recycled` is the
-- head of the list here.
pub mod Invariant
use r_core_tutorial_code.Base.{
  ℕ, zero, suc, ◌+◌, ◌-◌, ◌<◌, ◌≤◌, ◌≡◌, refl, arith, Bool, true, false, ◌||◌, Option, none, some,
  List, [], ◌∷◌, Result, ok, panic, leb, ltb, ◌==◌, if◌then◌else◌, Bool-cases, inl, inr, ◌⊎◌, ==→eq,
  ==→ne, leb→le, leb→lt, le→leb, lt→leb,
}
use r_core_tutorial_code.Base.Count.{
  count, one, contains, remove, one_self, contains→count, contains→none, count→contains, count→none,
  count-remove,
}
use r_core_tutorial_code.Os.Mm.Address.{phys_page_num}

pub record StackFrameAllocator : Type 0 where
  pub current : ℕ
  pub end : ℕ
  pub recycled : List ℕ

unfoldable pub new : StackFrameAllocator
new = record { current = 0; end = 0; recycled = [] }

unfoldable pub init : StackFrameAllocator → (l r : ℕ) → StackFrameAllocator
init self l r = record self { current = l; end = r }

-- `alloc` where `recycled` has nothing to pop.
unfoldable pub alloc_next : StackFrameAllocator → Option ℕ × StackFrameAllocator
alloc_next self =
    if self.current == self.end
    then (none, self)
    else (some (phys_page_num self.current), record self { current = self.current + 1 })

unfoldable pub alloc_from : List ℕ → StackFrameAllocator → Option ℕ × StackFrameAllocator
unfolding alloc_next
alloc_from [] self = alloc_next self
alloc_from (ppn ∷ rest) self = (some (phys_page_num ppn), record self { recycled = rest })

unfoldable pub alloc : StackFrameAllocator → Option ℕ × StackFrameAllocator
unfolding alloc_from
alloc self = alloc_from self.recycled self

unfoldable pub dealloc : StackFrameAllocator → ℕ → Result StackFrameAllocator
unfolding contains
dealloc self ppn =
    if leb self.current ppn || contains ppn self.recycled
    then panic
    else ok (record self { recycled = ppn ∷ self.recycled })

-- The states that the calls of `alloc` and `dealloc` lead to, from frames `l` to `r`, with the frames
-- that are held: handed out and not given back.
pub data Reachable (l r : ℕ) : StackFrameAllocator → List ℕ → Type 0 where
  start : Reachable l r (init new l r) []
  allocated :
      (a b : StackFrameAllocator) (held : List ℕ) (p : ℕ)
      → Reachable l r a held
      → alloc a ≡ (some p, b)
      → Reachable l r b (p ∷ held)
  freed :
      (a b : StackFrameAllocator) (held : List ℕ) (p : ℕ)
      → Reachable l r a held
      → 0 < count p held
      → dealloc a p ≡ ok b
      → Reachable l r b (remove p held)
