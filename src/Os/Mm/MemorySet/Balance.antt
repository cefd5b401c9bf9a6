-- ===== src/Os/Mm/MemorySet/Balance.antt =====
-- The frames of an address space, of its page table and its areas, under the calls of the set.
use r_core_tutorial_code.Base.{
  ◌<◌, ◌*◌, ◌==◌, leb→lt, Bool-cases, inl, inr, ℕ, zero, suc, ◌+◌, ◌-◌, ◌/◌, ◌^◌, ◌≤◌, ◌≡◌, refl,
  ap, arith, Bool, true, false, List, [], ◌∷◌, ◌++◌, State, Result, ok, panic, out_of_fuel, pure,
  unwrap, assert, update, if◌then◌else◌, ltb, leb,
}
use r_core_tutorial_code.Base.Count.{count, one}
use r_core_tutorial_code.Os.Mm.Address
use r_core_tutorial_code.Os.Mm.Address.{virt_addr, phys_addr, page_of, page_offset, floor}
use r_core_tutorial_code.Os.Mm.PageTable
use r_core_tutorial_code.Os.Mm.PageTable.{Space, frame_alloc, map_page, ppn_of}
use r_core_tutorial_code.Os.Mm.MapArea
use r_core_tutorial_code.Os.Mm.MapArea.{
  MapArea, MapType, framed, lift, drop_frames, drop_table, frame_dealloc, readable, executable,
  copy_loop, copy_page, is_framed,
}
use r_core_tutorial_code.Os.Mm.MapArea.Frames.{
  extra, Outcome, Moves, bind-Moves, pure-Moves, gets-Moves, assert-Moves, modify-Moves, recount,
  recount-Moves, frame_alloc-Moves, unwrap-Moves, map_page-Moves,
}
use r_core_tutorial_code.Os.Mm.MapArea.Areas.{area_held, map-Moves}
use r_core_tutorial_code.Os.Mm.MemorySet.{
  MemorySet, with_table, after, restore, new_bare, push, push_data, map_trampoline,
}
use r_core_tutorial_code.Os.Task.Pid.{trampoline}

unfoldable pub areas_held : List MapArea → ℕ → ℕ
areas_held [] x = 0
areas_held (area ∷ areas) x = area_held area x + areas_held areas x

unfoldable pub set_held : MemorySet → ℕ → ℕ
unfolding areas_held
set_held self x = count x self.table_frames + areas_held self.areas x

areas_held-append :
    (bs cs : List MapArea) (x : ℕ) → areas_held (bs ++ cs) x ≡ areas_held bs x + areas_held cs x
unfolding areas_held
areas_held-append [] cs x = omega arith
areas_held-append (b ∷ bs) cs x = omega (arith, areas_held-append bs cs x)

page_of_ends : (va : ℕ) → page_of va ≡ out_of_fuel → ⊥
unfolding page_of
page_of_ends va h = elim (Bool-cases (page_offset va == 0)) [
  | inl e ↦ let f : ok (floor va) ≡ out_of_fuel = rw e at h in absurd cc
  | inr e ↦ let f : panic ≡ out_of_fuel = rw e at h in absurd cc
]

module _ (l r : ℕ) where
  -- A change of the page table of a set.
  pub with_table-Moves :
      {A : Type 0} (held before : ℕ → ℕ) (after : A → ℕ → ℕ) (self : MemorySet) (m : State Space A)
      → ((h : ℕ → ℕ) → Moves l r (λ x. h x + before x) (λ a x. h x + after a x) m)
      → Moves l r
          (λ x. held x + (set_held self x + before x))
          (λ (v : A × MemorySet) x. held x + (set_held v.1 x + after v.0 x))
          (with_table self m)
  unfolding with_table set_held
  with_table-Moves {A} held before behind self m inner s w =
      let inside =
        inner rest (record s { owned = self.table_frames })
          (recount l r s.frames (λ x. held x + (set_held self x + before x) + count x s.owned)
            (λ x. rest x + before x + count x self.table_frames) (λ x. omega arith) w) in
      record { outcome = go (m (record s { owned = self.table_frames })) inside.outcome }
    where
      rest : ℕ → ℕ
      rest x = held x + areas_held self.areas x + count x s.owned

      go :
          (res : Result (A × Space))
          → Outcome l r (λ a x. rest x + behind a x) res
          → Outcome l r
              (λ (v : A × MemorySet) x. held x + (set_held v.1 x + behind v.0 x))
              (after res (restore self s.owned))
      go (ok (a, t)) inside =
          recount l r t.frames (λ x. rest x + behind a x + count x t.owned)
            (λ x.
              held x
              + (set_held (record self { table_frames = t.owned }) x + behind a x)
              + count x s.owned)
            (λ x. omega arith) inside
      go panic inside = tt
      go out_of_fuel inside = inside

  pub lift-Moves :
      {A : Type 0} (before : ℕ → ℕ) (after : A → ℕ → ℕ) (res : Result A)
      → (res ≡ out_of_fuel → ⊥)
      → ((a : A) → res ≡ ok a → (x : ℕ) → before x ≡ after a x)
      → Moves l r before after (lift res)
  lift-Moves before behind (ok b) ends same s w = record {
    outcome =
        recount l r s.frames (λ x. before x + count x s.owned) (λ x. behind b x + count x s.owned)
          (λ x. ap (λ n. n + count x s.owned) (same b refl x)) w;
  }
  lift-Moves before behind panic ends same s w = record { outcome = tt }
  lift-Moves before behind out_of_fuel ends same s w = absurd (ends refl)

module _ (l r : ℕ) (small : r ≤ 2 ^ 44) where
  -- A set with one more area.
  appended-Moves :
      (held : ℕ → ℕ) (self : MemorySet) (area : MapArea)
      → Moves l r
          (λ x. held x + (set_held self x + area_held area x))
          (λ self' x. held x + set_held self' x)
          (pure (record self { areas = self.areas ++ area ∷ [] }))
  unfolding set_held areas_held
  appended-Moves held self area =
      let self' : MemorySet = record self { areas = self.areas ++ area ∷ [] } in
      recount-Moves l r (λ x. held x + set_held self' x) _
        (λ (v : MemorySet) x. held x + set_held v x) _ (pure self')
        (λ x. omega (arith, areas_held-append self.areas (area ∷ []) x)) (λ _ x. refl)
        (pure-Moves l r (λ (v : MemorySet) x. held x + set_held v x) self')

  pub push-Moves :
      (held : ℕ → ℕ) (area : MapArea) (self : MemorySet)
      → Moves l r
          (λ x. held x + (set_held self x + area_held area x))
          (λ self' x. held x + set_held self' x)
          (push area self)
  unfolding push
  push-Moves held area self =
      bind-Moves l r _ (λ v x. held x + (set_held v.1 x + area_held v.0 x)) _
        (with_table self (MapArea.map self.root_ppn area)) _
        (with_table-Moves l r held (area_held area) area_held self (MapArea.map self.root_ppn area)
          (λ h. map-Moves l r small h self.root_ppn area))
        (λ v. appended-Moves held v.1 v.0)

  -- A round for each page of the data, and one at least.
  copy_loop-Moves :
      (held : ℕ → ℕ) (fuel root_ppn : ℕ) (source : ℕ → ℕ) (len start vpn : ℕ)
      → 0 < fuel
      → len ≤ start + fuel * 4096
      → Moves l r held (λ _. held) (copy_loop fuel root_ppn source len start vpn)
  unfolding copy_loop
  copy_loop-Moves held zero root_ppn source len start vpn some_fuel enough = absurd (omega arith)
  copy_loop-Moves held (suc fuel) root_ppn source len start vpn some_fuel enough =
      bind-Moves l r held (λ _. held) (λ _. held) _ _
        (gets-Moves l r held (λ s. PageTable.translate s.memory root_ppn vpn))
        (λ found.
          bind-Moves l r held (λ _. held) (λ _. held) (unwrap found) _
            (unwrap-Moves l r small (λ _. held) found)
            (λ pte.
              bind-Moves l r held (λ _. held) (λ _. held) _ _
                (modify-Moves l r held (λ s. update s.memory (ppn_of pte) (
                  copy_page (λ i. source (start + i))
                    (if ltb len (start + 4096) then len - start else 4096)
                    (s.memory (ppn_of pte)))))
                (λ _. tail (leb len (start + 4096)) refl (
                  copy_loop-Moves held fuel root_ppn source len (start + 4096)
                    (Address.step vpn)))))
    where
      tail :
          (t : Bool)
          → leb len (start + 4096) ≡ t
          → (0 < fuel
              → len ≤ start + 4096 + fuel * 4096
              → Moves l r held
                  (λ _. held)
                  (copy_loop fuel root_ppn source len (start + 4096) (Address.step vpn)))
          → Moves l r held
              (λ _. held)
              (if t
                then pure tt
                else copy_loop fuel root_ppn source len (start + 4096) (Address.step vpn))
      tail true e rest = pure-Moves l r (λ _. held) tt
      tail false e rest =
          let more : start + 4096 < len = leb→lt len (start + 4096) e in
          rest (omega arith) (omega arith)

  copy_data-Moves :
      (held : ℕ → ℕ) (root_ppn : ℕ) (source : ℕ → ℕ) (len : ℕ) (self : MapArea)
      → Moves l r held (λ _. held) (MapArea.copy_data root_ppn source len self)
  unfolding MapArea.copy_data
  copy_data-Moves held root_ppn source len self =
      bind-Moves l r held (λ _. held) (λ _. held) (assert (is_framed self.map_type)) _
        (assert-Moves l r held (is_framed self.map_type))
        (λ _.
          copy_loop-Moves held (len / 4096 + 1) root_ppn source len 0 self.vpn_range.l (omega arith)
            (omega arith))

  pub push_data-Moves :
      (held : ℕ → ℕ) (area : MapArea) (source : ℕ → ℕ) (len : ℕ) (self : MemorySet)
      → Moves l r
          (λ x. held x + (set_held self x + area_held area x))
          (λ self' x. held x + set_held self' x)
          (push_data area source len self)
  unfolding push_data
  push_data-Moves held area source len self =
      bind-Moves l r _ (λ v x. held x + (set_held v.1 x + area_held v.0 x)) _
        (with_table self (MapArea.map self.root_ppn area)) _
        (with_table-Moves l r held (area_held area) area_held self (MapArea.map self.root_ppn area)
          (λ h. map-Moves l r small h self.root_ppn area))
        (λ v.
          let all = λ (x : ℕ). held x + (set_held v.1 x + area_held v.0 x) in
          bind-Moves l r all (λ _. all) _ (MapArea.copy_data self.root_ppn source len v.0) _
            (copy_data-Moves all self.root_ppn source len v.0) (λ _. appended-Moves held v.1 v.0))

  pub new_bare-Moves : (held : ℕ → ℕ) → Moves l r held (λ self x. held x + set_held self x) new_bare
  unfolding new_bare set_held areas_held count
  new_bare-Moves held =
      bind-Moves l r held (λ found x. extra found x + held x) _ frame_alloc _
        (frame_alloc-Moves l r small held)
        (λ found.
          bind-Moves l r (λ x. extra found x + held x) (λ p x. one x p + held x) _ (unwrap found) _
            (unwrap-Moves l r small (λ v x. extra v x + held x) found) (λ p. bare p))
    where
      bare :
          (p : ℕ)
          → Moves l r
              (λ x. one x p + held x)
              (λ self x. held x + set_held self x)
              (pure (record { root_ppn = p; table_frames = p ∷ []; areas = [] }))
      bare p =
          let self : MemorySet = record { root_ppn = p; table_frames = p ∷ []; areas = [] } in
          recount-Moves l r (λ x. held x + set_held self x) _
            (λ (v : MemorySet) x. held x + set_held v x) _ (pure self) (λ x. omega arith)
            (λ _ x. refl) (pure-Moves l r (λ (v : MemorySet) x. held x + set_held v x) self)

  pub map_trampoline-Moves :
      (held : ℕ → ℕ) (strampoline : ℕ) (self : MemorySet)
      → Moves l r
          (λ x. held x + set_held self x)
          (λ self' x. held x + set_held self' x)
          (map_trampoline strampoline self)
  unfolding map_trampoline
  map_trampoline-Moves held strampoline self =
      let all = λ (x : ℕ). held x + set_held self x in
      bind-Moves l r all (λ _. all) _ (lift (page_of (virt_addr trampoline))) _
        (lift-Moves l r all (λ _. all) (page_of (virt_addr trampoline))
          (page_of_ends (virt_addr trampoline)) (λ _ _ x. refl))
        (λ vpn.
          bind-Moves l r all (λ _. all) _ (lift (page_of (phys_addr strampoline))) _
            (lift-Moves l r all (λ _. all) (page_of (phys_addr strampoline))
              (page_of_ends (phys_addr strampoline)) (λ _ _ x. refl))
            (λ ppn.
              bind-Moves l r all (λ v x. held x + set_held v.1 x) _
                (with_table self (map_page self.root_ppn vpn ppn (readable + executable))) _
                (recount-Moves l r (λ x. held x + (set_held self x + 0)) _
                  (λ v x. held x + (set_held v.1 x + 0)) _
                  (with_table self (map_page self.root_ppn vpn ppn (readable + executable)))
                  (λ x. omega arith) (λ _ x. omega arith)
                  (with_table-Moves l r held (λ _. 0) (λ _ _. 0) self
                    (map_page self.root_ppn vpn ppn (readable + executable))
                    (λ h.
                      map_page-Moves l r small (λ x. h x + 0) self.root_ppn vpn ppn
                        (readable + executable))))
                (λ v. pure-Moves l r (λ (u : MemorySet) x. held x + set_held u x) v.1)))
