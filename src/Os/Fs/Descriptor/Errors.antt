-- ===== src/Os/Fs/Descriptor/Errors.antt =====
-- The descriptors that `sys_open` gives and `sys_close` takes back, and the calls that fail.
use r_core_tutorial_code.Base.{
  update_ne, ℕ, zero, suc, ◌+◌, ◌<◌, ◌≡◌, ◌≢◌, refl, ap, sym, ◌∙◌, arith, false, Option, none, some,
  List, [], ◌∷◌, ◌++◌, ok, ◌==◌, leb, if◌then◌else◌, get_elem?, set, length, lt→leb, Bool-cases,
  inl, inr, ◌⊎◌, update, update_at, get_elem?-set_self, get_elem?-set_ne, length-set,
  get_elem?-length, get_elem?-append_last, get_elem?-append_ne, get_elem?-at_length, ==→ne, ==→eq,
}
use r_core_tutorial_code.Os.Mm.PageTable.{Memory}
use r_core_tutorial_code.Os.Fs.OsInode
use r_core_tutorial_code.Os.Fs.OsInode.{from_bits}
use r_core_tutorial_code.Os.Fs.File.{os_inode, Files}
use r_core_tutorial_code.Os.Fs.Descriptor.{Table, entry, sys_read, read_file, sys_close, install}
use r_core_tutorial_code.Os.Task.Control.{TaskControlBlock, alloc_fd, free_fd}
use r_core_tutorial_code.Os.Task.Kernel.{minus_one}

module _ {F : Type 0} where
  -- A descriptor of an open file.
  abbrev pub IsUsed : List (Option F) → ℕ → Type 0
  IsUsed fds j = (f : F) × (get_elem? fds j ≡ some (some f))

  free_fd-some :
      (fds : List (Option F)) (i : ℕ)
      → free_fd fds ≡ some i
      → (get_elem? fds i ≡ some none) × ((j : ℕ) → j < i → IsUsed fds j)
  unfolding free_fd
  free_fd-some [] i h = absurd cc
  free_fd-some (none ∷ fds) i h =
      let e : 0 ≡ i = cc in (ap (get_elem? (none ∷ fds)) (sym e), λ j lt. absurd (omega arith))
  free_fd-some (some f ∷ fds) i h = go (free_fd-some fds) (free_fd fds) refl h
    where
      go :
          ((i : ℕ)
            → free_fd fds ≡ some i
            → (get_elem? fds i ≡ some none) × ((j : ℕ) → j < i → IsUsed fds j))
          → (o : Option ℕ) → free_fd fds ≡ o
          → (let v : Option ℕ = elim o [ none ↦ none | some fd ↦ some (suc fd) ] in v) ≡ some i
          → (get_elem? (some f ∷ fds) i ≡ some none) × ((j : ℕ) → j < i → IsUsed (some f ∷ fds) j)
      go ih none e q = absurd cc
      go ih (some k) e q =
          let (free, below) = ih k e in
          let place : suc k ≡ i = cc in
          (ap (get_elem? (some f ∷ fds)) (sym place) ∙ free, used k below place)
        where
          used :
              (k : ℕ)
              → ((j : ℕ) → j < k → IsUsed fds j)
              → suc k ≡ i
              → (j : ℕ) → j < i
              → IsUsed (some f ∷ fds) j
          used k below place zero lt = (f, refl)
          used k below place (suc j) lt = below j (omega arith)

  free_fd-none :
      (fds : List (Option F)) → free_fd fds ≡ none → (j : ℕ) → j < length fds → IsUsed fds j
  unfolding free_fd
  free_fd-none [] h j lt = absurd (omega arith)
  free_fd-none (none ∷ fds) h j lt = absurd cc
  free_fd-none (some f ∷ fds) h zero lt = (f, refl)
  free_fd-none (some f ∷ fds) h (suc j) lt = free_fd-none fds (go (free_fd fds) h) j (omega arith)
    where
      go :
          (o : Option ℕ)
          → (let v : Option ℕ = elim o [ none ↦ none | some fd ↦ some (suc fd) ] in v) ≡ none
          → o ≡ none
      go none q = refl
      go (some k) q = absurd cc

  -- `alloc_fd` gives the least descriptor without an open file, which is in the table then, and leaves
  -- the other entries.
  pub alloc_fd_lem :
      {M : Type 0} (t : TaskControlBlock M F)
      → let fd = (alloc_fd t).0 in
        let fds = (alloc_fd t).1.fd_table in
        (get_elem? fds fd ≡ some none)
        × ((get_elem? t.fd_table fd ≡ some none) ⊎ (get_elem? t.fd_table fd ≡ none))
        × ((j : ℕ) → j < fd → IsUsed t.fd_table j)
        × ((j : ℕ) → j ≢ fd → get_elem? fds j ≡ get_elem? t.fd_table j)
  unfolding alloc_fd
  alloc_fd_lem {M} t = go (free_fd t.fd_table) refl
    where
      go :
          (o : Option ℕ)
          → free_fd t.fd_table ≡ o
          → let r : ℕ × TaskControlBlock M F = elim o [
            | some fd ↦ (fd, t)
            | none ↦ (length t.fd_table, record t { fd_table = t.fd_table ++ none ∷ [] })
          ] in
            (get_elem? r.1.fd_table r.0 ≡ some none)
            × ((get_elem? t.fd_table r.0 ≡ some none) ⊎ (get_elem? t.fd_table r.0 ≡ none))
            × ((j : ℕ) → j < r.0 → IsUsed t.fd_table j)
            × ((j : ℕ) → j ≢ r.0 → get_elem? r.1.fd_table j ≡ get_elem? t.fd_table j)
      go none e = (
        get_elem?-append_last t.fd_table none,
        inr (get_elem?-at_length t.fd_table),
        free_fd-none t.fd_table e,
        λ j ne. get_elem?-append_ne t.fd_table none j ne,
      )
      go (some fd) e =
          let (free, below) = free_fd-some t.fd_table fd e in (free, inl free, below, λ j ne. refl)

read_free :
    (m : Memory) (token fd buf size : ℕ) (fds : Table) (s : Files)
    → entry (get_elem? fds fd) ≡ none
    → sys_read m token fds fd buf size s ≡ ok (minus_one, s)
unfolding sys_read read_file
read_free m token fd buf size fds s h = elim (Bool-cases (leb (length fds) fd)) [
  | inl out ↦ rw (out, if◌then◌else◌) refl
  | inr inside ↦ rw (inside, if◌then◌else◌, h, read_file) refl
]

module _ {M : Type 0} where
  -- The table after `sys_close` of an open descriptor.
  close_lem :
      (t : TaskControlBlock M ℕ) (fd id : ℕ)
      → get_elem? t.fd_table fd ≡ some (some id)
      → sys_close t fd ≡ (0, record t { fd_table = set t.fd_table fd none })
  unfolding sys_close
  close_lem t fd id h =
      let inside : leb (length t.fd_table) fd ≡ false =
        lt→leb _ _ (get_elem?-length t.fd_table fd (some id) h) in
      rw (inside, if◌then◌else◌, h) refl

  -- A descriptor with no open file.
  close_free :
      (t : TaskControlBlock M ℕ) (fd : ℕ)
      → entry (get_elem? t.fd_table fd) ≡ none
      → sys_close t fd ≡ (minus_one, t)
  unfolding sys_close
  close_free t fd h = elim (Bool-cases (leb (length t.fd_table) fd)) [
    | inl out ↦ rw (out, if◌then◌else◌) refl
    | inr inside ↦ rw (inside, if◌then◌else◌, h) refl
  ]

  was_free :
      (t : TaskControlBlock M ℕ) (fd : ℕ)
      → (get_elem? t.fd_table fd ≡ some none) ⊎ (get_elem? t.fd_table fd ≡ none)
      → entry (get_elem? t.fd_table fd) ≡ none
  was_free t fd (inl h) = ap entry h
  was_free t fd (inr h) = ap entry h

  -- `alloc_fd` changes the table only.
  alloc_fd_rest :
      (t : TaskControlBlock M ℕ) (l : Table)
      → record (alloc_fd t).1 { fd_table = l } ≡ record t { fd_table = l }
  unfolding alloc_fd
  alloc_fd_rest t l = go (free_fd t.fd_table)
    where
      go :
          (o : Option ℕ)
          → let r : ℕ × TaskControlBlock M ℕ = elim o [
            | some fd ↦ (fd, t)
            | none ↦ (length t.fd_table, record t { fd_table = t.fd_table ++ none ∷ [] })
          ] in
            record r.1 { fd_table = l } ≡ record t { fd_table = l }
      go none = refl
      go (some fd) = refl

  as_before :
      (t : TaskControlBlock M ℕ) (fd id : ℕ) (fds : Table)
      → (get_elem? t.fd_table fd ≡ some none) ⊎ (get_elem? t.fd_table fd ≡ none)
      → ((j : ℕ) → j ≢ fd → get_elem? fds j ≡ get_elem? t.fd_table j)
      → (j : ℕ) → entry (get_elem? (set (set fds fd (some id)) fd none) fd) ≡ none
      → entry (get_elem? (set (set fds fd (some id)) fd none) j) ≡ entry (get_elem? t.fd_table j)
  as_before t fd id fds before others j gone = elim (Bool-cases (j == fd)) [
    | inl e ↦
        let same = ==→eq _ _ e in
        ap (λ i. entry (get_elem? (set (set fds fd (some id)) fd none) i)) same
        ∙ gone
        ∙ sym (ap (λ i. entry (get_elem? t.fd_table i)) same ∙ was_free t fd before)
    | inr e ↦
        let ne = ==→ne _ _ e in
        ap entry (
          get_elem?-set_ne (set fds fd (some id)) fd none j ne
          ∙ get_elem?-set_ne fds fd (some id) j ne
          ∙ others j ne)
  ]

  -- A found file gets the least descriptor that is free, which leads to it with offset and access as
  -- they are. The other descriptors, the other open files, and what else the process and the files
  -- have stay as they were. `sys_close` of the descriptor returns 0 and leaves each descriptor open or
  -- not as it was before, and the rest of the process; after that `sys_close` and `sys_read` of it
  -- return -1 and change nothing.
  pub sys_close-install :
      (t : TaskControlBlock M ℕ) (file : OsInode.OsInode) (s : Files)
      → let fd = (alloc_fd t).0 in
        (t' : TaskControlBlock M ℕ) × (t'' : TaskControlBlock M ℕ) × (s' : Files) × (install t
            (some file)
            s
          ≡ ok ((fd, t'), s'))
        × (get_elem? t'.fd_table fd ≡ some (some s.count))
        × (s'.files s.count ≡ os_inode file)
        × (entry (get_elem? t.fd_table fd) ≡ none)
        × ((j : ℕ) → j < fd → IsUsed t.fd_table j)
        × ((j : ℕ) → j ≢ fd → get_elem? t'.fd_table j ≡ get_elem? t.fd_table j)
        × ((id : ℕ) → id ≢ s.count → s'.files id ≡ s.files id)
        × (s' ≡ record s { files = s'.files; count = s.count + 1 })
        × (t' ≡ record t { fd_table = t'.fd_table })
        × (sys_close t' fd ≡ (0, t''))
        × ((j : ℕ) → entry (get_elem? t''.fd_table j) ≡ entry (get_elem? t.fd_table j))
        × (t'' ≡ record t { fd_table = t''.fd_table })
        × (sys_close t'' fd ≡ (minus_one, t''))
        × ((m : Memory) (token buf size : ℕ) (u : Files)
            → sys_read m token t''.fd_table fd buf size u ≡ ok (minus_one, u))
  unfolding install
  sys_close-install t file s =
      let fd = (alloc_fd t).0 in
      let fds = (alloc_fd t).1.fd_table in
      let (free, before, below, others) = alloc_fd_lem t in
      let inside = get_elem?-length fds fd none free in
      let full = set fds fd (some s.count) in
      let emptied = set full fd none in
      let with_fds =
        λ (l : Table). let u : TaskControlBlock M ℕ = record (alloc_fd t).1 { fd_table = l } in u in
      let there = get_elem?-set_self fds fd (some s.count) inside in
      let gone : entry (get_elem? emptied fd) ≡ none =
        ap entry
          (get_elem?-set_self full fd none (omega (arith, length-set {0} fds fd (some s.count)))) in
      (
        with_fds full,
        with_fds emptied,
        record s { files = update s.files s.count (os_inode file); count = s.count + 1 },
        refl,
        there,
        update_at s.files s.count (os_inode file) s.count refl,
        was_free t fd before,
        below,
        λ j ne. get_elem?-set_ne fds fd (some s.count) j ne ∙ others j ne,
        λ id ne. update_ne s.files s.count (os_inode file) id ne,
        refl,
        alloc_fd_rest t full,
        close_lem (with_fds full) fd s.count there,
        λ j. as_before t fd s.count fds before others j gone,
        alloc_fd_rest t emptied,
        close_free (with_fds emptied) fd gone,
        λ m token buf size u. read_free m token fd buf size emptied u gone,
      )
