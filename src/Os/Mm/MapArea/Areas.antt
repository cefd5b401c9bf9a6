-- ===== src/Os/Mm/MapArea/Areas.antt =====
-- The frames of an area while its pages are mapped and unmapped.
use r_core_tutorial_code.Base.{
  Bool, true, false, leb, if◌then◌else◌, ℕ, zero, suc, ◌+◌, ◌-◌, ◌^◌, ◌≤◌, ◌≡◌, refl, arith, Option,
  none, some, List, [], ◌∷◌, Result, ok, panic, out_of_fuel, pure, unwrap, ◌==◌, ltb, inl, inr,
  Bool-cases,
}
use mathlib.Core.Path.{subst}
use r_core_tutorial_code.Base.Count.{count, one}
use r_core_tutorial_code.Os.Mm.Address
use r_core_tutorial_code.Os.Mm.Address.{SimpleRange}
use r_core_tutorial_code.Os.Mm.PageTable.{frame_alloc, map_page, unmap}
use r_core_tutorial_code.Os.Mm.MapArea.{
  MapArea, MapType, identical, framed, taken, without, drop_taken, choose_frame, map_one,
  release_frame, unmap_one, map_pages, map, unmap_pages, unmap_area, with_range, inserted,
}
use r_core_tutorial_code.Os.Mm.MapArea.Frames.{
  frames_of, extra, Moves, bind-Moves, pure-Moves, recount-Moves, frame_alloc-Moves, unwrap-Moves,
  frame_dealloc-Moves, map_page-Moves, unmap-Moves,
}

abbrev pub area_held : MapArea → ℕ → ℕ
area_held area x = count x (frames_of area.data_frames)

pub with_range_ends :
    (map_type : MapType) (map_perm start end : ℕ)
    → with_range map_type map_perm (Address.new start end) ≡ out_of_fuel
    → ⊥
unfolding with_range Address.new
with_range_ends map_type map_perm start end h = go (leb start end) h
  where
    go :
        (t : Bool)
        → with_range map_type map_perm (if t then ok (record { l = start; r = end }) else panic)
          ≡ out_of_fuel
        → ⊥
    go true q = absurd cc
    go false q = absurd cc

pub with_range_held :
    (map_type : MapType) (map_perm : ℕ) (range : Result SimpleRange) (area : MapArea)
    → with_range map_type map_perm range ≡ ok area
    → (x : ℕ) → area_held area x ≡ 0
unfolding with_range count
with_range_held map_type map_perm (ok range) area h x =
    let e : (record {
      vpn_range = range;
      data_frames = [];
      map_type = map_type;
      map_perm = map_perm;
    })
        ≡ area =
      cc in
    subst (λ (v : MapArea). area_held v x ≡ 0) e refl
with_range_held map_type map_perm panic area h x = absurd cc
with_range_held map_type map_perm out_of_fuel area h x = absurd cc

inserted_count :
    (vpn ppn : ℕ) (fs : List (ℕ × ℕ)) (x : ℕ)
    → count x (frames_of (inserted vpn ppn fs)) ≡ one x ppn + count x (frames_of fs)
unfolding inserted count
inserted_count vpn ppn [] x = refl
inserted_count vpn ppn ((v, p) ∷ rest) x = elim (Bool-cases (ltb vpn v)) [
  | inl e ↦ rw e refl
  | inr e ↦ let ih = inserted_count vpn ppn rest x in rw e (omega arith)
]

taken_count :
    (vpn : ℕ) (fs : List (ℕ × ℕ)) (x : ℕ)
    → extra (taken vpn fs) x + count x (frames_of (without vpn fs)) ≡ count x (frames_of fs)
unfolding taken without count
taken_count vpn [] x = omega arith
taken_count vpn ((v, ppn) ∷ rest) x = elim (Bool-cases (v == vpn)) [
  | inl e ↦ rw e refl
  | inr e ↦ let ih = taken_count vpn rest x in rw e (omega arith)
]

module _ (l r : ℕ) (small : r ≤ 2 ^ 44) where
  drop_some-Moves :
      (held : ℕ → ℕ) (found : Option ℕ)
      → Moves l r (λ x. extra found x + held x) (λ _. held) (drop_taken found)
  unfolding drop_taken
  drop_some-Moves held none =
      recount-Moves l r held (λ x. extra none x + held x) (λ _. held) (λ _. held) (pure tt)
        (λ x. omega arith) (λ _ x. refl) (pure-Moves l r (λ _. held) tt)
  drop_some-Moves held (some p) = frame_dealloc-Moves l r small p held

  -- The frame of a page that is mapped no more goes back.
  drop_taken-Moves :
      (held : ℕ → ℕ) (vpn : ℕ) (fs : List (ℕ × ℕ))
      → Moves l r
          (λ x. held x + count x (frames_of fs))
          (λ _ x. held x + count x (frames_of (without vpn fs)))
          (drop_taken (taken vpn fs))
  drop_taken-Moves held vpn fs =
      let rest = λ (x : ℕ). held x + count x (frames_of (without vpn fs)) in
      recount-Moves l r (λ x. extra (taken vpn fs) x + rest x)
        (λ x. held x + count x (frames_of fs)) (λ _. rest) (λ _. rest) (drop_taken (taken vpn fs))
        (λ x. omega (arith, taken_count vpn fs x)) (λ _ x. refl)
        (drop_some-Moves rest (taken vpn fs))

  choose_frame-Moves :
      (held : ℕ → ℕ) (map_type : MapType) (vpn : ℕ) (self : MapArea)
      → Moves l r
          (λ x. held x + area_held self x)
          (λ (v : ℕ × MapArea) x. held x + area_held v.1 x)
          (choose_frame map_type vpn self)
  unfolding choose_frame count
  choose_frame-Moves held identical vpn self =
      pure-Moves l r (λ (v : ℕ × MapArea) x. held x + area_held v.1 x) (vpn, self)
  choose_frame-Moves held framed vpn self =
      let all = λ (x : ℕ). held x + area_held self x in
      bind-Moves l r all (λ found x. extra found x + all x)
        (λ (v : ℕ × MapArea) x. held x + area_held v.1 x) frame_alloc _
        (frame_alloc-Moves l r small all)
        (λ found.
          bind-Moves l r (λ x. extra found x + all x) (λ p x. one x p + all x) _ (unwrap found) _
            (unwrap-Moves l r small (λ v x. extra v x + all x) found)
            (λ p.
              bind-Moves l r (λ x. one x p + all x)
                (λ _ x. (one x p + held x) + count x (frames_of (without vpn self.data_frames))) _
                (drop_taken (taken vpn self.data_frames)) _
                (recount-Moves l r (λ x. (one x p + held x) + area_held self x)
                  (λ x. one x p + all x) _ _ _ (λ x. omega arith) (λ _ x. refl)
                  (drop_taken-Moves (λ x. one x p + held x) vpn self.data_frames))
                (λ _. chosen p)))
    where
      chosen :
          (p : ℕ)
          → Moves l r
              (λ x. (one x p + held x) + count x (frames_of (without vpn self.data_frames)))
              (λ (v : ℕ × MapArea) x. held x + area_held v.1 x)
              (pure
                (p, record self { data_frames = inserted vpn p (without vpn self.data_frames) }))
      chosen p =
          let self' : MapArea = record self {
            data_frames = inserted vpn p (without vpn self.data_frames);
          } in
          recount-Moves l r (λ x. held x + area_held self' x) _
            (λ (v : ℕ × MapArea) x. held x + area_held v.1 x) _ (pure (p, self'))
            (λ x. omega (arith, inserted_count vpn p (without vpn self.data_frames) x))
            (λ _ x. refl)
            (pure-Moves l r (λ (v : ℕ × MapArea) x. held x + area_held v.1 x) (p, self'))

  map_one-Moves :
      (held : ℕ → ℕ) (root_ppn vpn : ℕ) (self : MapArea)
      → Moves l r
          (λ x. held x + area_held self x)
          (λ self' x. held x + area_held self' x)
          (map_one root_ppn vpn self)
  unfolding map_one
  map_one-Moves held root_ppn vpn self =
      bind-Moves l r _ (λ v x. held x + area_held v.1 x) _ (choose_frame self.map_type vpn self) _
        (choose_frame-Moves held self.map_type vpn self)
        (λ v.
          bind-Moves l r (λ x. held x + area_held v.1 x) (λ _ x. held x + area_held v.1 x) _
            (map_page root_ppn vpn v.0 self.map_perm) _
            (map_page-Moves l r small (λ x. held x + area_held v.1 x) root_ppn vpn v.0
              self.map_perm)
            (λ _. pure-Moves l r (λ (a : MapArea) x. held x + area_held a x) v.1))

  release_frame-Moves :
      (held : ℕ → ℕ) (map_type : MapType) (vpn : ℕ) (self : MapArea)
      → Moves l r
          (λ x. held x + area_held self x)
          (λ self' x. held x + area_held self' x)
          (release_frame map_type vpn self)
  unfolding release_frame
  release_frame-Moves held identical vpn self =
      pure-Moves l r (λ (a : MapArea) x. held x + area_held a x) self
  release_frame-Moves held framed vpn self =
      bind-Moves l r _ (λ _ x. held x + count x (frames_of (without vpn self.data_frames))) _
        (drop_taken (taken vpn self.data_frames)) _ (drop_taken-Moves held vpn self.data_frames)
        (λ _.
          pure-Moves l r (λ (a : MapArea) x. held x + area_held a x)
            (record self { data_frames = without vpn self.data_frames }))

  unmap_one-Moves :
      (held : ℕ → ℕ) (root_ppn vpn : ℕ) (self : MapArea)
      → Moves l r
          (λ x. held x + area_held self x)
          (λ self' x. held x + area_held self' x)
          (unmap_one root_ppn vpn self)
  unfolding unmap_one
  unmap_one-Moves held root_ppn vpn self =
      bind-Moves l r _ (λ v x. held x + area_held v x) _ (release_frame self.map_type vpn self) _
        (release_frame-Moves held self.map_type vpn self)
        (λ v.
          bind-Moves l r (λ x. held x + area_held v x) (λ _ x. held x + area_held v x) _
            (unmap root_ppn vpn) _
            (unmap-Moves l r small (λ x. held x + area_held v x) root_ppn vpn)
            (λ _. pure-Moves l r (λ (a : MapArea) x. held x + area_held a x) v))

  map_pages-Moves :
      (held : ℕ → ℕ) (n root_ppn vpn : ℕ) (self : MapArea)
      → Moves l r
          (λ x. held x + area_held self x)
          (λ self' x. held x + area_held self' x)
          (map_pages n root_ppn vpn self)
  unfolding map_pages
  map_pages-Moves held zero root_ppn vpn self =
      pure-Moves l r (λ (a : MapArea) x. held x + area_held a x) self
  map_pages-Moves held (suc n) root_ppn vpn self =
      bind-Moves l r _ (λ v x. held x + area_held v x) _ (map_one root_ppn vpn self) _
        (map_one-Moves held root_ppn vpn self)
        (λ v. map_pages-Moves held n root_ppn (Address.step vpn) v)

  pub map-Moves :
      (held : ℕ → ℕ) (root_ppn : ℕ) (self : MapArea)
      → Moves l r
          (λ x. held x + area_held self x)
          (λ self' x. held x + area_held self' x)
          (map root_ppn self)
  unfolding map
  map-Moves held root_ppn self =
      map_pages-Moves held (self.vpn_range.r - self.vpn_range.l) root_ppn self.vpn_range.l self

  unmap_pages-Moves :
      (held : ℕ → ℕ) (n root_ppn vpn : ℕ) (self : MapArea)
      → Moves l r
          (λ x. held x + area_held self x)
          (λ self' x. held x + area_held self' x)
          (unmap_pages n root_ppn vpn self)
  unfolding unmap_pages
  unmap_pages-Moves held zero root_ppn vpn self =
      pure-Moves l r (λ (a : MapArea) x. held x + area_held a x) self
  unmap_pages-Moves held (suc n) root_ppn vpn self =
      bind-Moves l r _ (λ v x. held x + area_held v x) _ (unmap_one root_ppn vpn self) _
        (unmap_one-Moves held root_ppn vpn self)
        (λ v. unmap_pages-Moves held n root_ppn (Address.step vpn) v)

  pub unmap_area-Moves :
      (held : ℕ → ℕ) (root_ppn : ℕ) (self : MapArea)
      → Moves l r
          (λ x. held x + area_held self x)
          (λ self' x. held x + area_held self' x)
          (unmap_area root_ppn self)
  unfolding unmap_area
  unmap_area-Moves held root_ppn self =
      unmap_pages-Moves held (self.vpn_range.r - self.vpn_range.l) root_ppn self.vpn_range.l self
