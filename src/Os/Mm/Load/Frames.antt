-- ===== src/Os/Mm/Load/Frames.antt =====
-- The frames of the address space of an ELF file.
use r_core_tutorial_code.Base.{
  ℕ, ◌+◌, ◌%◌, ◌^◌, ◌≤◌, refl, arith, Bool, true, false, Option, List, [], ◌∷◌, pure, assert,
  unwrap, leb, if◌then◌else◌,
}
use r_core_tutorial_code.Os.Mm.Address
use r_core_tutorial_code.Os.Mm.Address.{virt_addr, address_of, usize_of_virt_addr, floor, ceil}
use r_core_tutorial_code.Os.Mm.PageTable.{Space}
use r_core_tutorial_code.Os.Mm.MapArea
use r_core_tutorial_code.Os.Mm.MapArea.{MapArea, MapType, framed, readable, writable, user, lift}
use r_core_tutorial_code.Os.Mm.MapArea.Frames.{
  Balanced, Moves, bind-Moves, pure-Moves, assert-Moves, unwrap-Moves, recount-Moves,
}
use r_core_tutorial_code.Os.Mm.MapArea.Areas.{area_held, with_range_held, with_range_ends}
use r_core_tutorial_code.Os.Mm.MemorySet.{
  MemorySet, new_bare, map_trampoline, push, push_data, trap_context, user_stack_size,
}
use r_core_tutorial_code.Os.Mm.MemorySet.Balance.{
  set_held, lift-Moves, push-Moves, push_data-Moves, new_bare-Moves, map_trampoline-Moves,
}
use r_core_tutorial_code.Os.Mm.MemorySet.Copies.{Fresh, Outcome-Fresh}
use r_core_tutorial_code.Os.Mm.Load.{
  ProgramHeader, ElfFile, permission_of, load_header, load_segment, load_headers, push_new,
  push_stack, from_elf,
}
use r_core_tutorial_code.Os.Task.Pid.{trampoline}

module _ (l r : ℕ) (small : r ≤ 2 ^ 44) where
  -- A new area has no frame yet.
  new-Moves :
      (held : ℕ → ℕ) (start_va end_va : ℕ) (map_type : MapType) (permission : ℕ)
      → Moves l r held
          (λ area x. held x + area_held area x)
          (lift (MapArea.new start_va end_va map_type permission))
  unfolding MapArea.new
  new-Moves held start_va end_va map_type permission =
      lift-Moves l r held (λ area x. held x + area_held area x)
        (MapArea.new start_va end_va map_type permission)
        (with_range_ends map_type permission (floor start_va) (ceil end_va))
        (λ area e x. omega (
          arith,
          with_range_held map_type permission (Address.new (floor start_va) (ceil end_va)) area e x,
        ))

  push_new-Moves :
      (held : ℕ → ℕ) (start_va end_va : ℕ) (map_type : MapType) (permission : ℕ) (self : MemorySet)
      → Moves l r
          (λ x. held x + set_held self x)
          (λ self' x. held x + set_held self' x)
          (push_new start_va end_va map_type permission self)
  unfolding push_new
  push_new-Moves held start_va end_va map_type permission self =
      let all = λ (x : ℕ). held x + set_held self x in
      bind-Moves l r all (λ area x. all x + area_held area x) _
        (lift (MapArea.new start_va end_va map_type permission)) _
        (new-Moves all start_va end_va map_type permission)
        (λ area.
          recount-Moves l r (λ x. held x + (set_held self x + area_held area x)) _
            (λ (v : MemorySet) x. held x + set_held v x) _ (push area self) (λ x. omega arith)
            (λ _ x. refl) (push-Moves l r small held area self))

  load_segment-Moves :
      (held : ℕ → ℕ) (elf : ElfFile) (ph : ProgramHeader) (self : MemorySet)
      → Moves l r
          (λ x. held x + set_held self x)
          (λ (v : ℕ × MemorySet) x. held x + set_held v.1 x)
          (load_segment elf ph self)
  unfolding load_segment
  load_segment-Moves held elf ph self =
      let all = λ (x : ℕ). held x + set_held self x in
      let start_va = virt_addr ph.virtual_addr in
      let end_va = virt_addr ((ph.virtual_addr + ph.mem_size) % 2 ^ 64) in
      bind-Moves l r all (λ area x. all x + area_held area x) _
        (lift (MapArea.new start_va end_va framed (permission_of ph))) _
        (new-Moves all start_va end_va framed (permission_of ph))
        (λ area.
          bind-Moves l r (λ x. all x + area_held area x) (λ _ x. all x + area_held area x) _
            (assert (leb (ph.offset + ph.file_size) elf.input_len)) _
            (assert-Moves l r (λ x. all x + area_held area x)
              (leb (ph.offset + ph.file_size) elf.input_len))
            (λ _.
              bind-Moves l r (λ x. all x + area_held area x) (λ v x. held x + set_held v x) _
                (push_data area (λ i. elf.input (ph.offset + i)) ph.file_size self) _
                (recount-Moves l r (λ x. held x + (set_held self x + area_held area x)) _
                  (λ (v : MemorySet) x. held x + set_held v x) _
                  (push_data area (λ i. elf.input (ph.offset + i)) ph.file_size self)
                  (λ x. omega arith) (λ _ x. refl)
                  (push_data-Moves l r small held area (λ i. elf.input (ph.offset + i)) ph.file_size
                    self))
                (λ v.
                  pure-Moves l r (λ (u : ℕ × MemorySet) x. held x + set_held u.1 x)
                    (area.vpn_range.r, v))))

  load_header-Moves :
      (held : ℕ → ℕ) (elf : ElfFile) (ph : ProgramHeader) (max_end_vpn : ℕ) (self : MemorySet)
      → Moves l r
          (λ x. held x + set_held self x)
          (λ (v : ℕ × MemorySet) x. held x + set_held v.1 x)
          (load_header elf ph max_end_vpn self)
  unfolding load_header
  load_header-Moves held elf ph max_end_vpn self = branch ph.is_load
    where
      branch :
          (t : Bool)
          → Moves l r
              (λ x. held x + set_held self x)
              (λ (v : ℕ × MemorySet) x. held x + set_held v.1 x)
              (if t then load_segment elf ph self else pure (max_end_vpn, self))
      branch true = load_segment-Moves held elf ph self
      branch false =
          pure-Moves l r (λ (u : ℕ × MemorySet) x. held x + set_held u.1 x) (max_end_vpn, self)

  load_headers-Moves :
      (held : ℕ → ℕ) (elf : ElfFile) (phs : List ProgramHeader) (max_end_vpn : ℕ) (self : MemorySet)
      → Moves l r
          (λ x. held x + set_held self x)
          (λ (v : ℕ × MemorySet) x. held x + set_held v.1 x)
          (load_headers elf phs max_end_vpn self)
  unfolding load_headers
  load_headers-Moves held elf [] max_end_vpn self =
      pure-Moves l r (λ (u : ℕ × MemorySet) x. held x + set_held u.1 x) (max_end_vpn, self)
  load_headers-Moves held elf (ph ∷ phs) max_end_vpn self =
      bind-Moves l r _ (λ (v : ℕ × MemorySet) x. held x + set_held v.1 x) _
        (load_header elf ph max_end_vpn self) _ (load_header-Moves held elf ph max_end_vpn self)
        (λ v. load_headers-Moves held elf phs v.0 v.1)

  push_stack-Moves :
      (held : ℕ → ℕ) (entry_point max_end_vpn : ℕ) (self : MemorySet)
      → Moves l r
          (λ x. held x + set_held self x)
          (λ (v : MemorySet × ℕ × ℕ) x. held x + set_held v.0 x)
          (push_stack entry_point max_end_vpn self)
  unfolding push_stack
  push_stack-Moves held entry_point max_end_vpn self =
      let bottom = (usize_of_virt_addr (address_of max_end_vpn) + 4096) % 2 ^ 64 in
      let top = (bottom + user_stack_size) % 2 ^ 64 in
      bind-Moves l r _ (λ v x. held x + set_held v x) _
        (push_new (virt_addr bottom) (virt_addr top) framed (readable + writable + user) self) _
        (push_new-Moves held (virt_addr bottom) (virt_addr top) framed (readable + writable + user)
          self)
        (λ v.
          bind-Moves l r _ (λ u x. held x + set_held u x) _
            (push_new (virt_addr trap_context) (virt_addr trampoline) framed (readable + writable)
              v)
            _
            (push_new-Moves held (virt_addr trap_context) (virt_addr trampoline) framed
              (readable + writable) v)
            (λ u.
              pure-Moves l r (λ (w : MemorySet × ℕ × ℕ) x. held x + set_held w.0 x)
                (u, top, entry_point)))

  from_elf-Moves :
      (held : ℕ → ℕ) (strampoline : ℕ) (parsed : Option ElfFile)
      → Moves l r held
          (λ (v : MemorySet × ℕ × ℕ) x. held x + set_held v.0 x)
          (from_elf strampoline parsed)
  unfolding from_elf
  from_elf-Moves held strampoline parsed =
      bind-Moves l r held (λ self x. held x + set_held self x) _ new_bare _
        (new_bare-Moves l r small held)
        (λ bare.
          bind-Moves l r _ (λ self x. held x + set_held self x) _ (map_trampoline strampoline bare)
            _ (map_trampoline-Moves l r small held strampoline bare)
            (λ self.
              let all = λ (x : ℕ). held x + set_held self x in
              bind-Moves l r all (λ _. all) _ (unwrap parsed) _
                (unwrap-Moves l r small (λ _. all) parsed)
                (λ elf.
                  bind-Moves l r all (λ _. all) _ (assert elf.has_magic) _
                    (assert-Moves l r all elf.has_magic)
                    (λ _.
                      bind-Moves l r all (λ (v : ℕ × MemorySet) x. held x + set_held v.1 x) _
                        (load_headers elf elf.program_headers 0 self) _
                        (load_headers-Moves held elf elf.program_headers 0 self)
                        (λ v. push_stack-Moves held elf.entry_point v.0 v.1)))))

  -- When each frame is free or held once, `from_elf` panics or returns a set. No frame of the page
  -- table and of the areas of the set was held before, none is there twice, and each frame is free or
  -- held once after the call. The drop of the set does not panic, and leaves the frames held that were
  -- held before.
  pub from_elf_lem :
      (strampoline : ℕ) (parsed : Option ElfFile) (held : ℕ → ℕ) (s : Space)
      → Balanced l r held s
      → Fresh l r small held (λ v. v.0) (from_elf strampoline parsed s)
  from_elf_lem strampoline parsed held s w =
      let h = from_elf-Moves held strampoline parsed s w in
      Outcome-Fresh l r small held (λ (v : MemorySet × ℕ × ℕ). v.0) (from_elf strampoline parsed s)
        h.outcome
