-- ===== src/EasyFs/Layout/Data/Read.antt =====
-- `read_at` copies the data of the file, as far as it goes.
use r_core_tutorial_code.Base.{
  ℕ, zero, suc, ◌+◌, ◌-◌, ◌/◌, ◌%◌, ◌^◌, ◌<◌, ◌≤◌, ◌≡◌, min, pure, leb, ltb, ◌==◌, if◌then◌else◌,
  Result, ok, ◌≢◌, arith, refl, ◌∙◌, ap, Bool-cases, inl, inr, ==→eq, ==→ne, eq→==, ne→==, ◌⊎◌,
  true, false, ltb→lt, ltb→le, leb→le, leb→lt,
}
use r_core_tutorial_code.EasyFs.Block.{Disk, u32}
use r_core_tutorial_code.EasyFs.Layout.Inode.{DiskInode}
use r_core_tutorial_code.EasyFs.Layout.Data.{
  Buffer, copy, end_current_block, read_loop, read_at, IsMapped, byte_of, end_of, copy_inside,
  copy_outside, end_current_block_bounds, end_current_block_next,
}

module _ (n : DiskInode) (ids : ℕ → ℕ) (d : Disk) (mapped : IsMapped n ids d)
    (small : n.size < 2 ^ 32) where
  -- One round of the loop, before its test.
  read_round :
      (fuel start end done : ℕ) (buf : Buffer)
      → start < end
      → end ≤ n.size
      → let next = end_current_block start end in
        let buf' = copy (d (ids (start / 512))) (start % 512) buf done (next - start) in
        read_loop (suc fuel) n start end (start / 512) done buf d
        ≡ (if next == end
              then pure (done + (next - start), buf')
              else read_loop fuel n next end (start / 512 + 1) (done + (next - start)) buf')
            d
  unfolding read_loop
  read_round fuel start end done buf lt le =
      let e : u32 (start / 512) ≡ start / 512 = omega arith in
      rw (e, mapped d (λ a _. refl) (start / 512) (omega arith))

  -- The bytes that a round copies are those of the file.
  round_bytes :
      (start end done : ℕ) (buf : Buffer) (p : ℕ)
      → p < end_current_block start end - start
      → copy
          (d (ids (start / 512)))
          (start % 512)
          buf
          done
          (end_current_block start end - start)
          (done + p)
        ≡ byte_of ids d (start + p)
  unfolding end_current_block
  round_bytes start end done buf p lt =
      let q : (start + p) / 512 ≡ start / 512 = omega arith in
      let r : (start + p) % 512 ≡ start % 512 + p = omega arith in
      copy_inside (d (ids (start / 512))) (start % 512) buf done _ p lt ∙ rw (q, r)

  -- What the loop promises: the bytes of the buffer behind `done` are the file's from `start` on.
  abbrev Reads : (start end done : ℕ) → Buffer → Result ((ℕ × Buffer) × Disk) → Type 0
  Reads start end done buf res =
      (out : Buffer) × (res ≡ ok ((done + (end - start), out), d))
      × ((p : ℕ) → p < end - start → out (done + p) ≡ byte_of ids d (start + p))
      × ((p : ℕ) → (p < done) ⊎ (done + (end - start) ≤ p) → out p ≡ buf p)

  read_last :
      (fuel start end done : ℕ) (buf : Buffer)
      → start < end
      → end ≤ n.size
      → end_current_block start end ≡ end
      → Reads start end done buf (read_loop (suc fuel) n start end (start / 512) done buf d)
  read_last fuel start end done buf lt le e =
      let next = end_current_block start end in
      let t : (next == end) ≡ true = eq→== _ _ e in
      let size : next - start ≡ end - start = ap (λ (x : ℕ). x - start) e in
      let out =
        copy (d (ids (start / 512))) (start % 512) buf done (end_current_block start end - start) in
      (
        out,
        read_round fuel start end done buf lt le ∙ rw (t, size),
        λ p p_lt. round_bytes start end done buf p (omega arith),
        λ p h. copy_outside _ (start % 512) buf done (next - start) p (omega arith),
      )

  read_more :
      (fuel start end done : ℕ) (buf : Buffer)
      → start < end
      → end ≤ n.size
      → end_current_block start end ≢ end
      → let next = end_current_block start end in
        Reads next end
          (done + (next - start))
          (copy (d (ids (start / 512))) (start % 512) buf done (next - start))
          (read_loop fuel n next end
            (next / 512)
            (done + (next - start))
            (copy (d (ids (start / 512))) (start % 512) buf done (next - start))
            d)
        → Reads start end done buf (read_loop (suc fuel) n start end (start / 512) done buf d)
  read_more fuel start end done buf lt le ne (out, res, inside, outside) =
      let next = end_current_block start end in
      let t : (next == end) ≡ false = ne→== _ _ ne in
      let block = end_current_block_next start end lt ne in
      let bounds = end_current_block_bounds start end lt in
      let size : done + (next - start) + (end - next) ≡ done + (end - start) = omega arith in
      (
        out,
        read_round fuel start end done buf lt le ∙ rw (t, block) (res ∙ rw size),
        λ p p_lt. elim (Bool-cases (ltb p (next - start))) [
          | inl x ↦
              outside (done + p) (omega (arith, ltb→lt _ _ x))
              ∙ round_bytes start end done buf p (ltb→lt _ _ x)
          | inr x ↦
              let q : done + (next - start) + (p - (next - start)) ≡ done + p =
                omega (arith, ltb→le _ _ x) in
              let r : next + (p - (next - start)) ≡ start + p = omega (arith, ltb→le _ _ x) in
              rw (q, r) at (inside (p - (next - start)) (omega (arith, ltb→le _ _ x)))
        ],
        λ p h.
            outside p (omega arith)
            ∙ copy_outside _ (start % 512) buf done (next - start) p (omega arith),
      )

  read_loop_lem :
      (fuel start end done : ℕ) (buf : Buffer)
      → start < end
      → end ≤ n.size
      → end - start ≤ fuel
      → Reads start end done buf (read_loop fuel n start end (start / 512) done buf d)
  read_loop_lem zero start end done buf lt le f = absurd (omega arith)
  read_loop_lem (suc fuel) start end done buf lt le f =
      let next = end_current_block start end in
      let bounds = end_current_block_bounds start end lt in
      elim (Bool-cases (next == end)) [
        | inl last ↦ read_last fuel start end done buf lt le (==→eq _ _ last)
        | inr more ↦ read_more fuel start end done buf lt le (==→ne _ _ more) (
            read_loop_lem fuel next end (done + (next - start))
              (copy (d (ids (start / 512))) (start % 512) buf done (next - start))
              (omega (arith, ==→ne _ _ more)) le (omega arith))
      ]

  -- For an inode of a `u32` size whose index leads to the data blocks `ids`, outside of which the
  -- index lies, and a buffer whose end `offset + len` is a `usize`: `read_at` terminates without a
  -- panic and leaves the disk; it reads `min(len, size - offset)` bytes, the file's from `offset`
  -- on, to the front of the buffer, and leaves the buffer's rest.
  pub read_at_lem :
      (offset len : ℕ) (buf : Buffer)
      → offset + len < 2 ^ 64
      → (out : Buffer) × (read_at n offset len buf d ≡ ok ((min len (n.size - offset), out), d))
        × ((p : ℕ) → p < min len (n.size - offset) → out p ≡ byte_of ids d (offset + p))
        × ((p : ℕ) → min len (n.size - offset) ≤ p → out p ≡ buf p)
  unfolding read_at end_of
  read_at_lem offset len buf fits = elim (Bool-cases (leb (end_of n offset len) offset)) [
    | inl none_left ↦
        let z : min len (n.size - offset) ≡ 0 = omega (arith, leb→le _ _ none_left) in
        (buf, rw (none_left, z), λ p lt. absurd (omega arith), λ p le. refl)
    | inr some_left ↦
        let end = end_of n offset len in
        let lt : offset < end = leb→lt _ _ some_left in
        let (out, res, inside, outside) =
          read_loop_lem (end - offset) offset end 0 buf lt (omega arith) (omega arith) in
        let size : 0 + (end - offset) ≡ min len (n.size - offset) = omega arith in
        (
          out,
          rw some_left (res ∙ rw size),
          λ p p_lt. let z : 0 + p ≡ p = omega arith in rw z at (inside p (omega arith)),
          λ p le. outside p (omega arith),
        )
  ]
