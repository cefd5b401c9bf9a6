-- ===== src/EasyFs/Layout/Data/Write.antt =====
-- `write_at` replaces the data of the file, as far as it goes, and nothing else.
use r_core_tutorial_code.Base.{
  ℕ, zero, suc, ◌+◌, ◌*◌, ◌-◌, ◌/◌, ◌%◌, ◌^◌, ◌<◌, ◌≤◌, ◌≡◌, min, pure, ltb, ◌==◌, if◌then◌else◌,
  update, Result, ok, ◌≢◌, arith, refl, ◌∙◌, ap, Bool-cases, inl, inr, ==→eq, ==→ne, eq→==, ne→==,
  le→leb, ◌⊎◌, true, false, ltb→lt, ltb→le, update_at, update_ne,
}
use r_core_tutorial_code.EasyFs.Block.{block_sz, Block, Disk, u32}
use r_core_tutorial_code.EasyFs.Layout.Inode.{DiskInode}
use r_core_tutorial_code.EasyFs.Layout.Data.{
  Buffer, copy, end_current_block, write_loop, write_at, IsMapped, byte_of, end_of, copy_inside,
  copy_outside, end_current_block_bounds, end_current_block_next, end_current_block_self, read_at,
}
use r_core_tutorial_code.EasyFs.Layout.Data.Read.{read_at_lem}

-- No data block holds two parts of the file.
abbrev pub IsInjective : DiskInode → (ℕ → ℕ) → Type 0
IsInjective n ids =
    (j k : ℕ) → j * block_sz < n.size → k * block_sz < n.size → ids j ≡ ids k → j ≡ k

-- The blocks that hold no data of the file are the same on both disks.
abbrev pub SameOutside : DiskInode → (ℕ → ℕ) → Disk → Disk → Type 0
SameOutside n ids d e = (a : ℕ) → ((k : ℕ) → k * block_sz < n.size → a ≢ ids k) → e a ≡ d a

-- The index is read in the same way after a change of the data.
pub IsMapped-SameOutside :
    (n : DiskInode) (ids : ℕ → ℕ) (d e : Disk)
    → IsMapped n ids d
    → SameOutside n ids d e
    → IsMapped n ids e
IsMapped-SameOutside n ids d e mapped same f same' = mapped f (λ a out. same' a out ∙ same a out)

module _ (n : DiskInode) (ids : ℕ → ℕ) (injective : IsInjective n ids)
    (small : n.size < 2 ^ 32) where
  -- The disk after a round.
  written : (start end done : ℕ) → Buffer → Disk → Disk
  written start end done buf d =
      update d (ids (start / 512))
        (copy buf done (d (ids (start / 512))) (start % 512) (end_current_block start end - start))

  write_round :
      (fuel start end done : ℕ) (buf : Buffer) (d : Disk)
      → IsMapped n ids d
      → start < n.size
      → let next = end_current_block start end in
        write_loop (suc fuel) n start end (start / 512) done buf d
        ≡ (if next == end
              then pure (done + (next - start))
              else write_loop fuel n next end (start / 512 + 1) (done + (next - start)) buf)
            (written start end done buf d)
  unfolding write_loop written
  write_round fuel start end done buf d mapped lt =
      let e : u32 (start / 512) ≡ start / 512 = omega arith in
      rw (e, mapped d (λ a _. refl) (start / 512) (omega arith))

  written_outside :
      (start end done : ℕ) (buf : Buffer) (d : Disk)
      → start < n.size
      → SameOutside n ids d (written start end done buf d)
  unfolding written
  written_outside start end done buf d lt a out =
      update_ne d _ _ a (out (start / 512) (omega arith))

  written_inside :
      (start end done : ℕ) (buf : Buffer) (d : Disk) (p : ℕ)
      → start < end
      → p < end_current_block start end - start
      → byte_of ids (written start end done buf d) (start + p) ≡ buf (done + p)
  unfolding written
  written_inside start end done buf d p s_lt lt =
      let bounds = end_current_block_bounds start end s_lt in
      let q : (start + p) / 512 ≡ start / 512 = omega arith in
      let r : (start + p) % 512 ≡ start % 512 + p = omega arith in
      rw (q, r)
        (ap (λ (b : Block). b (start % 512 + p))
            (update_at d (ids (start / 512)) _ (ids (start / 512)) refl)
          ∙ copy_inside buf done (d (ids (start / 512))) (start % 512) _ p lt)

  written_rest :
      (start end done : ℕ) (buf : Buffer) (d : Disk) (p : ℕ)
      → start < n.size
      → p < n.size
      → (p < start) ⊎ (end_current_block start end ≤ p)
      → byte_of ids (written start end done buf d) p ≡ byte_of ids d p
  unfolding written
  written_rest start end done buf d p lt p_lt h = elim (Bool-cases (p / 512 == start / 512)) [
    | inl x ↦
        let q : p / 512 ≡ start / 512 = ==→eq _ _ x in
        rw q (
          ap (λ (b : Block). b (p % 512))
            (update_at d (ids (start / 512)) _ (ids (start / 512)) refl)
          ∙ copy_outside buf done (d (ids (start / 512))) (start % 512)
              (end_current_block start end - start) (p % 512) (omega arith))
    | inr x ↦
        ap (λ (b : Block). b (p % 512))
          (update_ne d (ids (start / 512)) _ (ids (p / 512))
            (λ e. ==→ne _ _ x (injective (p / 512) (start / 512) (omega arith) (omega arith) e)))
  ]

  -- What a write of the bytes from `start` to `end` promises, from the buffer behind `done`.
  abbrev Writes : (start end done : ℕ) → Buffer → Disk → Result (ℕ × Disk) → Type 0
  Writes start end done buf d res =
      (e : Disk) × (res ≡ ok (done + (end - start), e))
      × SameOutside n ids d e
      × ((p : ℕ) → p < end - start → byte_of ids e (start + p) ≡ buf (done + p))
      × ((p : ℕ) → p < n.size → (p < start) ⊎ (end ≤ p) → byte_of ids e p ≡ byte_of ids d p)

  write_last :
      (fuel start end done : ℕ) (buf : Buffer) (d : Disk)
      → IsMapped n ids d
      → start < n.size
      → start ≤ end
      → end_current_block start end ≡ end
      → Writes start end done buf d (write_loop (suc fuel) n start end (start / 512) done buf d)
  write_last fuel start end done buf d mapped lt le e =
      let next = end_current_block start end in
      let t : (next == end) ≡ true = eq→== _ _ e in
      let size : next - start ≡ end - start = ap (λ (x : ℕ). x - start) e in
      (
        written start end done buf d,
        write_round fuel start end done buf d mapped lt ∙ rw (t, size),
        written_outside start end done buf d lt,
        λ p p_lt. written_inside start end done buf d p (omega arith) (omega arith),
        λ p p_lt h. written_rest start end done buf d p lt p_lt (omega arith),
      )

  write_more :
      (fuel start end done : ℕ) (buf : Buffer) (d : Disk)
      → IsMapped n ids d
      → start < end
      → end ≤ n.size
      → end_current_block start end ≢ end
      → let next = end_current_block start end in
        Writes next end (done + (next - start)) buf (written start end done buf d) (
          write_loop fuel n next end
            (next / 512)
            (done + (next - start))
            buf
            (written start end done buf d))
        → Writes start end done buf d (write_loop (suc fuel) n start end (start / 512) done buf d)
  write_more fuel start end done buf d mapped lt le ne (e, res, frame, inside, rest) =
      let next = end_current_block start end in
      let t : (next == end) ≡ false = ne→== _ _ ne in
      let block = end_current_block_next start end lt ne in
      let bounds = end_current_block_bounds start end lt in
      let size : done + (next - start) + (end - next) ≡ done + (end - start) = omega arith in
      (
        e,
        write_round fuel start end done buf d mapped (omega arith) ∙ rw (t, block) (res ∙ rw size),
        λ a out. frame a out ∙ written_outside start end done buf d (omega arith) a out,
        λ p p_lt. elim (Bool-cases (ltb p (next - start))) [
          | inl x ↦
              rest (start + p) (omega arith) (omega (arith, ltb→lt _ _ x))
              ∙ written_inside start end done buf d p lt (ltb→lt _ _ x)
          | inr x ↦
              let q : done + (next - start) + (p - (next - start)) ≡ done + p =
                omega (arith, ltb→le _ _ x) in
              let r : next + (p - (next - start)) ≡ start + p = omega (arith, ltb→le _ _ x) in
              rw (q, r) at (inside (p - (next - start)) (omega (arith, ltb→le _ _ x)))
        ],
        λ p p_lt h.
            rest p p_lt (omega arith)
            ∙ written_rest start end done buf d p (omega arith) p_lt (omega arith),
      )

  write_loop_lem :
      (fuel start end done : ℕ) (buf : Buffer) (d : Disk)
      → IsMapped n ids d
      → start < end
      → end ≤ n.size
      → end - start ≤ fuel
      → Writes start end done buf d (write_loop fuel n start end (start / 512) done buf d)
  write_loop_lem zero start end done buf d mapped lt le f = absurd (omega arith)
  write_loop_lem (suc fuel) start end done buf d mapped lt le f =
      let next = end_current_block start end in
      let bounds = end_current_block_bounds start end lt in
      elim (Bool-cases (next == end)) [
        | inl last ↦
            write_last fuel start end done buf d mapped (omega arith) (omega arith) (==→eq _ _ last)
        | inr more ↦ write_more fuel start end done buf d mapped lt le (==→ne _ _ more) (
            write_loop_lem fuel next end (done + (next - start)) buf (written start end done buf d)
              (IsMapped-SameOutside n ids d _ mapped
                (written_outside start end done buf d (omega arith)))
              (omega (arith, ==→ne _ _ more)) le (omega arith))
      ]

  -- For an inode of a `u32` size whose index leads to the distinct data blocks `ids`, outside of
  -- which the index lies, and an offset within the file with `offset + len` a `usize`: `write_at`
  -- terminates without a panic; the first `min(len, size - offset)` bytes of the buffer replace
  -- the file's from `offset` on, the other bytes of the file stay, and so do all other blocks.
  pub write_at_lem :
      (offset len : ℕ) (buf : Buffer) (d : Disk)
      → IsMapped n ids d
      → offset < n.size
      → offset + len < 2 ^ 64
      → let size = min len (n.size - offset) in
        (e : Disk) × (write_at n offset len buf d ≡ ok (size, e))
        × SameOutside n ids d e
        × ((p : ℕ) → p < size → byte_of ids e (offset + p) ≡ buf p)
        × ((p : ℕ)
            → p < n.size
            → (p < offset) ⊎ (offset + size ≤ p)
            → byte_of ids e p ≡ byte_of ids d p)
  unfolding write_at end_of
  write_at_lem offset len buf d mapped lt fits =
      let end = end_of n offset len in
      let size : 0 + (end - offset) ≡ min len (n.size - offset) = omega arith in
      let (e, res, frame, inside, rest) = loop in
      (
        e,
        rw (le→leb offset end (omega arith)) (res ∙ rw size),
        frame,
        λ p p_lt. let z : 0 + p ≡ p = omega arith in rw z at (inside p (omega arith)),
        λ p p_lt h. rest p p_lt (omega arith),
      )
    where
      loop :
          let end = end_of n offset len in
          Writes offset end 0 buf d
            (write_loop (end - offset + 1) n offset end (offset / 512) 0 buf d)
      loop =
          let end = end_of n offset len in
          let f : end - offset + 1 ≡ suc (end - offset) = omega arith in
          elim (Bool-cases (offset == end)) [
            | inl none_left ↦ rw f (
                write_last (end - offset) offset end 0 buf d mapped lt (omega arith)
                  (end_current_block_self offset end (==→eq _ _ none_left)))
            | inr some_left ↦
                write_loop_lem (end - offset + 1) offset end 0 buf d mapped
                  (omega (arith, ==→ne _ _ some_left)) (omega arith) (omega arith)
          ]

  -- For an inode as in `write_at_lem`: `len` bytes that `write_at` writes inside of the file, from
  -- an offset within it, are read back by `read_at` on the disk that the write has left, which
  -- itself stays.
  pub read_at-write_at :
      (offset len : ℕ) (buf into : Buffer) (d : Disk)
      → IsMapped n ids d
      → offset < n.size
      → offset + len ≤ n.size
      → (e : Disk) × (out : Buffer) × (write_at n offset len buf d ≡ ok (len, e))
        × (read_at n offset len into e ≡ ok ((len, out), e))
        × ((p : ℕ) → p < len → out p ≡ buf p)
  read_at-write_at offset len buf into d mapped lt fits =
      let (e, wrote, frame, inside, rest) = write_at_lem offset len buf d mapped lt (omega arith) in
      let (out, got, bytes, _) =
        read_at_lem n ids e (IsMapped-SameOutside n ids d e mapped frame) small offset len into
          (omega arith) in
      let size : min len (n.size - offset) ≡ len = omega arith in
      (
        e,
        out,
        rw size at wrote,
        rw size at got,
        λ p p_lt. bytes p (omega arith) ∙ inside p (omega arith),
      )
