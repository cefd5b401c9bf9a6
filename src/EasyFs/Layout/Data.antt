-- ===== src/EasyFs/Layout/Data.antt =====
-- The data of a disk inode: `read_at` and `write_at`. `usize` has 64 bits.
pub mod Read
pub mod Write
pub mod Keeps
use r_core_tutorial_code.Base.{
  ℕ, zero, suc, ◌+◌, ◌*◌, ◌-◌, ◌/◌, ◌%◌, ◌^◌, ◌<◌, ◌≤◌, ◌≡◌, min, State, assert, gets, modify, pure,
  ◌>>=◌, ◌>>◌, leb, ltb, ◌==◌, ◌&&◌, if◌then◌else◌, update, Result, out_of_fuel, ok, ◌≢◌, ◌⊎◌,
  le→leb, lt→ltb, arith,
}
use r_core_tutorial_code.EasyFs.Block.{block_sz, Block, Disk, u32}
use r_core_tutorial_code.EasyFs.Layout.Inode.{DiskInode}
use r_core_tutorial_code.EasyFs.Layout.Index.{get_block_id}

-- A buffer of the caller: its bytes by offset.
abbrev pub Buffer : Type 0
Buffer = ℕ → ℕ

abbrev pub usize : ℕ → ℕ
usize n = n % 2 ^ 64

-- `dst[to..to + n].copy_from_slice(&src[from..from + n])`
unfoldable pub copy : (src : ℕ → ℕ) (from : ℕ) (dst : ℕ → ℕ) (to n : ℕ) → ℕ → ℕ
copy src from dst to n p = if leb to p && ltb p (to + n) then src (from + (p - to)) else dst p

-- `(offset + buf.len()).min(self.size as usize)`
unfoldable pub end_of : DiskInode → ℕ → ℕ → ℕ
end_of n offset len = min (usize (offset + len)) n.size

-- `((start / BLOCK_SZ + 1) * BLOCK_SZ).min(end)`
unfoldable pub end_current_block : ℕ → ℕ → ℕ
end_current_block start end = min ((start / block_sz + 1) * block_sz) end

-- The loop of `read_at`; the result is the size read and the buffer.
unfoldable pub read_loop :
    ℕ → DiskInode → (start end start_block read_size : ℕ) → Buffer → State Disk (ℕ × Buffer)
unfolding get_block_id copy end_current_block
read_loop zero n start end start_block read_size buf = λ _. out_of_fuel
read_loop (suc fuel) n start end start_block read_size buf = do
  let next = end_current_block start end
  let block_read_size = next - start
  id ← get_block_id n (u32 start_block)
  data_block ← gets (λ d. d id)
  let buf' = copy data_block (start % block_sz) buf read_size block_read_size
  if next == end
      then pure (read_size + block_read_size, buf')
      else read_loop fuel n next end (start_block + 1) (read_size + block_read_size) buf'

-- `DiskInode::read_at`, on a buffer of `len` bytes.
unfoldable pub read_at : DiskInode → (offset len : ℕ) → Buffer → State Disk (ℕ × Buffer)
unfolding read_loop end_of
read_at n offset len buf =
    let end = end_of n offset len in
    if leb end offset
    then pure (0, buf)
    else read_loop (end - offset) n offset end (offset / block_sz) 0 buf

-- The loop of `write_at`; the result is the size written.
unfoldable pub write_loop :
    ℕ → DiskInode → (start end start_block write_size : ℕ) → Buffer → State Disk ℕ
unfolding get_block_id copy end_current_block
write_loop zero n start end start_block write_size buf = λ _. out_of_fuel
write_loop (suc fuel) n start end start_block write_size buf = do
  let next = end_current_block start end
  let block_write_size = next - start
  id ← get_block_id n (u32 start_block)
  modify (λ d. update d id (copy buf write_size (d id) (start % block_sz) block_write_size))
  if next == end
      then pure (write_size + block_write_size)
      else write_loop fuel n next end (start_block + 1) (write_size + block_write_size) buf

-- `DiskInode::write_at`, from a buffer of `len` bytes.
unfoldable pub write_at : DiskInode → (offset len : ℕ) → Buffer → State Disk ℕ
unfolding write_loop end_of
write_at n offset len buf = do
  let end = end_of n offset len
  assert (leb offset end)
  write_loop (end - offset + 1) n offset end (offset / block_sz) 0 buf

-- The data blocks of an inode are `ids`, on this disk and on each that differs from it in data
-- blocks only: the index lies outside of the data.
abbrev pub IsMapped : DiskInode → (ℕ → ℕ) → Disk → Type 0
IsMapped n ids d =
    (e : Disk)
    → ((a : ℕ) → ((k : ℕ) → k * block_sz < n.size → a ≢ ids k) → e a ≡ d a)
    → (k : ℕ) → k * block_sz < n.size
    → get_block_id n k e ≡ ok (ids k, e)

-- Byte `p` of the data.
abbrev pub byte_of : (ℕ → ℕ) → Disk → ℕ → ℕ
byte_of ids d p = d (ids (p / block_sz)) (p % block_sz)

-- What `copy` writes, and what it leaves.
pub copy_inside :
    (src : ℕ → ℕ) (from : ℕ) (dst : ℕ → ℕ) (to n p : ℕ)
    → p < n
    → copy src from dst to n (to + p) ≡ src (from + p)
unfolding copy
copy_inside src from dst to n p h =
    let e : to + p - to ≡ p = omega arith in
    rw (le→leb to (to + p) (omega arith), lt→ltb (to + p) (to + n) (omega arith), e)

pub copy_outside :
    (src : ℕ → ℕ) (from : ℕ) (dst : ℕ → ℕ) (to n p : ℕ)
    → (p < to) ⊎ (to + n ≤ p)
    → copy src from dst to n p ≡ dst p
unfolding copy
copy_outside src from dst to n p h = ground arith

-- The end of a round: behind its start, within its block, and at the next block unless at the end.
pub end_current_block_bounds :
    (start end : ℕ)
    → start < end
    → (start < end_current_block start end)
      × (end_current_block start end ≤ end)
      × (start % 512 + (end_current_block start end - start) ≤ 512)
unfolding end_current_block
end_current_block_bounds start end lt = omega arith

pub end_current_block_next :
    (start end : ℕ)
    → start < end
    → end_current_block start end ≢ end
    → start / 512 + 1 ≡ end_current_block start end / 512
unfolding end_current_block
end_current_block_next start end lt ne = omega arith

pub end_current_block_self : (start end : ℕ) → start ≡ end → end_current_block start end ≡ end
unfolding end_current_block
end_current_block_self start end e = omega arith
