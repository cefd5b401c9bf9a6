-- ===== src/Os/Mm/MemorySet/Copies.antt =====
-- New address spaces: the copy for a fork.
use r_core_tutorial_code.Base.{
  ℕ, zero, suc, ◌+◌, ◌-◌, ◌^◌, ◌≤◌, ◌<◌, ◌≡◌, arith, refl, inl, inr, ◌⊎◌, List, [], ◌∷◌, Result, ok,
  panic, out_of_fuel, unwrap, update,
}
use r_core_tutorial_code.Base.Count.{count}
use r_core_tutorial_code.Os.Mm.Address
use r_core_tutorial_code.Os.Mm.FrameAllocator.Invariant.{within-le}
use r_core_tutorial_code.Os.Mm.FrameAllocator.{StackFrameAllocator}
use r_core_tutorial_code.Os.Mm.PageTable
use r_core_tutorial_code.Os.Mm.PageTable.{Space, ppn_of}
use r_core_tutorial_code.Os.Mm.MapArea
use r_core_tutorial_code.Os.Mm.MapArea.{MapArea, lift}
use r_core_tutorial_code.Os.Mm.MapArea.Frames.{
  Outcome, Balanced, Moves, bind-Moves, pure-Moves, gets-Moves, modify-Moves, recount, unwrap-Moves,
}
use r_core_tutorial_code.Os.Mm.MapArea.Areas.{area_held, with_range_held, with_range_ends}
use r_core_tutorial_code.Os.Mm.MemorySet.{
  MemorySet, new_bare, map_trampoline, push, copy_pages, copy_areas, from_existed_user, drop,
}
use r_core_tutorial_code.Os.Mm.MemorySet.Balance.{
  set_held, lift-Moves, push-Moves, new_bare-Moves, map_trampoline-Moves,
}
use r_core_tutorial_code.Os.Mm.MemorySet.Release.{drop_lem}

module _ (l r : ℕ) (small : r ≤ 2 ^ 44) where
  copy_pages-Moves :
      (held : ℕ → ℕ) (n source_root target_root vpn : ℕ)
      → Moves l r held (λ _. held) (copy_pages n source_root target_root vpn)
  unfolding copy_pages
  copy_pages-Moves held zero source_root target_root vpn = pure-Moves l r (λ _. held) tt
  copy_pages-Moves held (suc n) source_root target_root vpn =
      bind-Moves l r held (λ _. held) (λ _. held) _ _
        (gets-Moves l r held (λ s. PageTable.translate s.memory source_root vpn))
        (λ source.
          bind-Moves l r held (λ _. held) (λ _. held) (unwrap source) _
            (unwrap-Moves l r small (λ _. held) source)
            (λ src.
              bind-Moves l r held (λ _. held) (λ _. held) _ _
                (gets-Moves l r held (λ s. PageTable.translate s.memory target_root vpn))
                (λ target.
                  bind-Moves l r held (λ _. held) (λ _. held) (unwrap target) _
                    (unwrap-Moves l r small (λ _. held) target)
                    (λ dst.
                      bind-Moves l r held (λ _. held) (λ _. held) _ _
                        (modify-Moves l r held
                          (λ s. update s.memory (ppn_of dst) (s.memory (ppn_of src))))
                        (λ _.
                          copy_pages-Moves held n source_root target_root (Address.step vpn))))))

  copy_areas-Moves :
      (held : ℕ → ℕ) (source_root : ℕ) (areas : List MapArea) (self : MemorySet)
      → Moves l r
          (λ x. held x + set_held self x)
          (λ self' x. held x + set_held self' x)
          (copy_areas source_root areas self)
  unfolding copy_areas MapArea.from_another
  copy_areas-Moves held source_root [] self =
      pure-Moves l r (λ (v : MemorySet) x. held x + set_held v x) self
  copy_areas-Moves held source_root (area ∷ areas) self =
      bind-Moves l r (λ x. held x + set_held self x)
        (λ new_area x. held x + (set_held self x + area_held new_area x)) _
        (lift (MapArea.from_another area)) _
        (lift-Moves l r _ (λ new_area x. held x + (set_held self x + area_held new_area x))
          (MapArea.from_another area)
          (with_range_ends area.map_type area.map_perm area.vpn_range.l area.vpn_range.r)
          (λ new_area e x. omega (
            arith,
            with_range_held area.map_type area.map_perm
                (Address.new area.vpn_range.l area.vpn_range.r) new_area e x,
          )))
        (λ new_area.
          bind-Moves l r _ (λ self' x. held x + set_held self' x) _ (push new_area self) _
            (push-Moves l r small held new_area self)
            (λ self'.
              let all = λ (x : ℕ). held x + set_held self' x in
              bind-Moves l r all (λ _. all) _
                (copy_pages (area.vpn_range.r - area.vpn_range.l) source_root self'.root_ppn
                  area.vpn_range.l)
                _
                (copy_pages-Moves all (area.vpn_range.r - area.vpn_range.l) source_root
                  self'.root_ppn area.vpn_range.l)
                (λ _. copy_areas-Moves held source_root areas self')))

  from_existed_user-Moves :
      (held : ℕ → ℕ) (strampoline : ℕ) (user_space : MemorySet)
      → Moves l r held
          (λ self x. held x + set_held self x)
          (from_existed_user strampoline user_space)
  unfolding from_existed_user
  from_existed_user-Moves held strampoline user_space =
      bind-Moves l r held (λ self x. held x + set_held self x) _ new_bare _
        (new_bare-Moves l r small held)
        (λ self.
          bind-Moves l r (λ x. held x + set_held self x) (λ self' x. held x + set_held self' x) _
            (map_trampoline strampoline self) _
            (map_trampoline-Moves l r small held strampoline self)
            (λ self'. copy_areas-Moves held user_space.root_ppn user_space.areas self'))

  -- A set of frames of its own, which its drop gives back.
  abbrev pub IsFresh : (held : ℕ → ℕ) → MemorySet → Space → Type 0
  IsFresh held self s =
      ((x : ℕ) → 0 < held x → set_held self x ≡ 0)
      × ((x : ℕ) → set_held self x ≤ 1)
      × ((a : StackFrameAllocator) × (drop self s ≡ ok (tt, record s { frames = a }))
          × Balanced l r held (record s { frames = a }))

  pub Balanced-IsFresh :
      (held : ℕ → ℕ) (self : MemorySet) (s : Space)
      → Balanced l r (λ x. held x + set_held self x) s
      → IsFresh held self s
  Balanced-IsFresh held self s w = (
    λ x there. omega (arith, w.split x, within-le l s.frames.current x),
    λ x. omega (arith, w.split x, within-le l s.frames.current x),
    drop_lem l r small self (λ x. held x + count x s.owned) s
        (recount l r s.frames (λ x. held x + set_held self x + count x s.owned)
          (λ x. held x + count x s.owned + set_held self x) (λ x. omega arith) w),
  )

  -- A call for a new set: it panics, or it returns a set of frames of its own.
  abbrev pub Fresh : {A : Type 0} → (held : ℕ → ℕ) → (A → MemorySet) → Result (A × Space) → Type 0
  Fresh {A} held set_of v =
      (v ≡ panic)
      ⊎ ((a : A) × (s : Space) × (v ≡ ok (a, s))
          × Balanced l r (λ x. held x + set_held (set_of a) x) s
          × IsFresh held (set_of a) s)

  pub Outcome-Fresh :
      {A : Type 0} (held : ℕ → ℕ) (set_of : A → MemorySet) (v : Result (A × Space))
      → Outcome l r (λ a x. held x + set_held (set_of a) x) v
      → Fresh held set_of v
  Outcome-Fresh held set_of (ok (a, s)) w =
      inr (a, s, refl, w, Balanced-IsFresh held (set_of a) s w)
  Outcome-Fresh held set_of panic w = inl refl
  Outcome-Fresh held set_of out_of_fuel w = absurd w

  -- When each frame is free or held once, `from_existed_user` panics or returns a set. No frame of
  -- the page table and of the areas of the set was held before, by the set that it copies or by
  -- another, none is there twice, and each frame is free or held once after the call. The drop of the
  -- copy does not panic, and leaves the frames held that were held before.
  pub from_existed_user_lem :
      (strampoline : ℕ) (user_space : MemorySet) (held : ℕ → ℕ) (s : Space)
      → Balanced l r held s
      → Fresh held (λ copy. copy) (from_existed_user strampoline user_space s)
  from_existed_user_lem strampoline user_space held s w =
      let h = from_existed_user-Moves held strampoline user_space s w in
      Outcome-Fresh held (λ copy. copy) (from_existed_user strampoline user_space s) h.outcome
