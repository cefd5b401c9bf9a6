-- ===== src/Os/Fs/OsInode/ReadAll.antt =====
-- `read_all` gives the contents of a file from the offset on, on top of the file system.
use r_core_tutorial_code.Base.{
  ℕ, zero, suc, ◌+◌, ◌-◌, ◌^◌, ◌<◌, ◌≤◌, ◌≡◌, refl, ap, sym, ◌∙◌, arith, Bool, true, false, List,
  [], ◌++◌, Result, ok, min, ◌==◌, leb, tabulate, tabulate-ext, tabulate_add, le→leb, Bool-cases,
  inl, inr, ==→eq, ==→ne,
}
use mathlib.Core.List.{append-nil, append_assoc}
use r_core_tutorial_code.EasyFs.Block.{Disk}
use r_core_tutorial_code.EasyFs.Layout.Inode as OnDisk
use r_core_tutorial_code.EasyFs.Layout.Data.{Buffer, IsMapped, byte_of}
use r_core_tutorial_code.EasyFs.Layout.Data.Read.{read_at_lem}
use r_core_tutorial_code.EasyFs.Vfs
use r_core_tutorial_code.Os.Fs.OsInode.{OsInode, read_all_loop, read_all}

module _ (inode : Vfs.Inode) (ids : ℕ → ℕ) (d : Disk) where
  -- The inode in its block.
  abbrev pub on_disk : OnDisk.DiskInode
  on_disk = OnDisk.decode (d inode.block_id) inode.block_offset

  module _ (placed : inode.block_offset + 128 ≤ 512) (mapped : IsMapped on_disk ids d)
      (small : on_disk.size < 2 ^ 32) where
    read_lem :
        (offset : ℕ) (buffer : Buffer)
        → offset ≤ on_disk.size
        → (out : Buffer) × (Vfs.read_at inode offset 512 buffer d
            ≡ ok ((min 512 (on_disk.size - offset), out), d))
          × (tabulate (min 512 (on_disk.size - offset)) 0 out
              ≡ tabulate (min 512 (on_disk.size - offset)) offset (byte_of ids d))
    unfolding Vfs.read_at Vfs.read_disk_inode
    read_lem offset buffer le =
        let fits : leb (inode.block_offset + 128) 512 ≡ true = le→leb _ _ placed in
        let (out, res, inside, _) =
          read_at_lem on_disk ids d mapped small offset 512 buffer (omega arith) in
        (
          out,
          rw fits res,
          tabulate-ext (min 512 (on_disk.size - offset)) 0 offset out (byte_of ids d)
              (λ i lt. let e : 0 + i ≡ i = omega arith in ap out e ∙ inside i lt),
        )

    module _ (readable writable : Bool) where
      -- The open file at an offset.
      abbrev pub at : ℕ → OsInode
      at offset = record {
        readable = readable;
        writable = writable;
        offset = offset;
        inode = inode;
      }

      read_last :
          (fuel offset : ℕ) (buffer out : Buffer) (v : List ℕ) (len : ℕ)
          → Vfs.read_at inode offset 512 buffer d ≡ ok ((len, out), d)
          → (len == 0) ≡ true
          → read_all_loop (suc fuel) (at offset) buffer v d ≡ ok ((v, at offset), d)
      unfolding read_all_loop
      read_last fuel offset buffer out v len res none_left = rw (res, none_left) refl

      read_more :
          (fuel offset : ℕ) (buffer out : Buffer) (v : List ℕ) (len : ℕ)
          → Vfs.read_at inode offset 512 buffer d ≡ ok ((len, out), d)
          → (len == 0) ≡ false
          → read_all_loop (suc fuel) (at offset) buffer v d
            ≡ read_all_loop fuel (at (offset + len)) out (v ++ tabulate len 0 out) d
      unfolding read_all_loop
      read_more fuel offset buffer out v len res some_left = rw (res, some_left) refl

      read_all_loop_lem :
          (fuel offset : ℕ) (buffer : Buffer) (v : List ℕ)
          → offset ≤ on_disk.size
          → on_disk.size - offset < fuel
          → read_all_loop fuel (at offset) buffer v d
            ≡ ok
                ((v ++ tabulate (on_disk.size - offset) offset (byte_of ids d), at on_disk.size), d)
      read_all_loop_lem zero offset buffer v le enough = absurd (omega arith)
      read_all_loop_lem (suc fuel) offset buffer v le enough =
          let (out, res, bytes) = read_lem offset buffer le in
          let len = min 512 (on_disk.size - offset) in
          elim (Bool-cases (len == 0)) [
            | inl none_left ↦
                let z = ==→eq _ _ none_left in
                let over : on_disk.size - offset ≡ 0 = omega arith in
                let at_end : offset ≡ on_disk.size = omega arith in
                read_last fuel offset buffer out v len res none_left ∙ finished v offset over at_end
            | inr some_left ↦
                let ne = ==→ne _ _ some_left in
                let sum : len + (on_disk.size - (offset + len)) ≡ on_disk.size - offset =
                  omega arith in
                read_more fuel offset buffer out v len res some_left
                ∙ read_all_loop_lem fuel (offset + len) out (v ++ tabulate len 0 out) (omega arith)
                    (omega arith)
                ∙ ap (λ l. ok ((l, at on_disk.size), d))
                    (append_assoc v (tabulate len 0 out) _
                      ∙ ap (λ l. v ++ l)
                          (ap
                              (λ l.
                                l
                                ++ tabulate (on_disk.size - (offset + len)) (offset + len)
                                    (byte_of ids d))
                              bytes
                            ∙ tabulate_add len (on_disk.size - (offset + len)) offset
                                (byte_of ids d)
                            ∙ ap (λ n. tabulate n offset (byte_of ids d)) sum))
          ]
        where
          finished :
              (v : List ℕ) (offset : ℕ)
              → on_disk.size - offset ≡ 0
              → offset ≡ on_disk.size
              → ◌≡◌ {A = Result ((List ℕ × OsInode) × Disk)} (ok ((v, at offset), d)) (
                  ok (
                    (v ++ tabulate (on_disk.size - offset) offset (byte_of ids d), at on_disk.size),
                    d,
                  ))
          finished v offset over at_end =
              ap (λ o. ok ((v, at o), d)) at_end
              ∙ ap (λ l. ok ((l, at on_disk.size), d))
                  (sym (append-nil v) ∙ ap (λ n. v ++ tabulate n offset (byte_of ids d)) (sym over))

      -- For an open file whose inode lies in its block, has a `u32` size and an index that leads to
      -- the data blocks `ids`, outside of which the index lies, with an offset in the file:
      -- `read_all` ends, panics nowhere and leaves the disk; its result is the bytes of the file
      -- from the offset to the end, in their order, and the offset is the size then. A round reads at
      -- least a byte but the last one, so more rounds than there are bytes left are enough.
      pub read_all_lem :
          (fuel offset : ℕ)
          → offset ≤ on_disk.size
          → on_disk.size - offset < fuel
          → read_all fuel (at offset) d
            ≡ ok ((tabulate (on_disk.size - offset) offset (byte_of ids d), at on_disk.size), d)
      unfolding read_all
      read_all_lem fuel offset le enough = read_all_loop_lem fuel offset (λ _. 0) [] le enough
