-- ===== src/EasyFs/Layout/Data/Keeps.antt =====
-- Reading the data of an inode leaves the disk.
use r_core_tutorial_code.Base.{
  ℕ, zero, suc, ◌+◌, ◌-◌, ◌/◌, ◌%◌, ltb, leb, ◌==◌, if◌then◌else◌, gets, pure, ◌>>=◌, Bool-cases,
  inl, inr,
}
use r_core_tutorial_code.Base.Keeps.{
  Keeps, pure-Keeps, gets-Keeps, assert-Keeps, bind-Keeps, then-Keeps, if-Keeps,
}
use r_core_tutorial_code.EasyFs.Block.{Block, Disk, block_sz, u32}
use r_core_tutorial_code.EasyFs.Layout.Inode.{DiskInode}
use r_core_tutorial_code.EasyFs.Layout.Index.{entry, get_block_id}
use r_core_tutorial_code.EasyFs.Layout.Data.{
  Buffer, copy, end_current_block, end_of, read_loop, read_at,
}

entry-Keeps : (block_id i : ℕ) → Keeps (entry block_id i)
unfolding entry
entry-Keeps block_id i = then-Keeps _ _ (assert-Keeps _) (gets-Keeps _)

get_block_id-Keeps : (n : DiskInode) (inner_id : ℕ) → Keeps (get_block_id n inner_id)
unfolding get_block_id
get_block_id-Keeps n k d x e h = elim (Bool-cases (ltb k 27)) [
  | inl t ↦ pure-Keeps (n.direct k) d x e (rw t at h)
  | inr t ↦ elim (Bool-cases (ltb k 155)) [
    | inl u ↦ entry-Keeps n.indirect1 (k - 27) d x e (rw (t, u) at h)
    | inr u ↦ elim (Bool-cases (ltb k 16539)) [
      | inl v ↦
          bind-Keeps (entry n.indirect2 ((k - 155) / 128)) (λ b. entry b ((k - 155) % 128))
            (entry-Keeps _ _) (λ b. entry-Keeps b _) d x e (rw (t, u, v) at h)
      | inr v ↦
          let q = k - 16539 in
          bind-Keeps (entry n.indirect3 (q / 16384))
            (λ b. entry b (q % 16384 / 128) >>= (λ c. entry c (q % 16384 % 128))) (entry-Keeps _ _)
            (λ b.
              bind-Keeps (entry b (q % 16384 / 128)) (λ c. entry c (q % 16384 % 128))
                (entry-Keeps b _) (λ c. entry-Keeps c _))
            d x e (rw (t, u, v) at h)
    ]
  ]
]

read_loop-Keeps :
    (fuel : ℕ) (n : DiskInode) (start end start_block read_size : ℕ) (buf : Buffer)
    → Keeps (read_loop fuel n start end start_block read_size buf)
unfolding read_loop
read_loop-Keeps zero n start end start_block read_size buf = λ d x e h. absurd cc
read_loop-Keeps (suc fuel) n start end start_block read_size buf =
    let next = end_current_block start end in
    let size = next - start in
    let copied = λ (b : Block). copy b (start % block_sz) buf read_size size in
    let more =
      λ (b : Block). read_loop fuel n next end (start_block + 1) (read_size + size) (copied b) in
    let k =
      λ (b : Block). if next == end then pure {S = Disk} (read_size + size, copied b) else more b in
    bind-Keeps (get_block_id n (u32 start_block)) (λ id. gets (λ d. d id) >>= k)
      (get_block_id-Keeps n (u32 start_block))
      (λ id. bind-Keeps (gets (λ d. d id)) k (gets-Keeps (λ d. d id)) (λ b.
        if-Keeps (next == end) (pure (read_size + size, copied b)) (more b) (pure-Keeps _)
          (read_loop-Keeps fuel n next end (start_block + 1) (read_size + size) (copied b))))

pub read_at-Keeps :
    (n : DiskInode) (offset len : ℕ) (buf : Buffer) → Keeps (read_at n offset len buf)
unfolding read_at
read_at-Keeps n offset len buf =
    let end = end_of n offset len in
    let run = read_loop (end - offset) n offset end (offset / block_sz) 0 buf in
    if-Keeps (leb end offset) (pure (0, buf)) run (pure-Keeps _)
      (read_loop-Keeps (end - offset) n offset end (offset / block_sz) 0 buf)
