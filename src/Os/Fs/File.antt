-- ===== src/Os/Fs/File.antt =====
-- os/src/fs/mod.rs and stdio.rs: the kinds of open files. A number stands for the shared pointer to an
-- open file: processes that share it share its offset.
use r_core_tutorial_code.Base.{
  ℕ, zero, suc, ◌-◌, ◌%◌, Bool, true, false, List, [], ◌∷◌, ◌++◌, State, Result, ok, panic,
  out_of_fuel, assert, gets, modify, pure, ◌>>=◌, ◌>>◌, ◌==◌, if◌then◌else◌, tabulate, update,
}
use r_core_tutorial_code.EasyFs.Block.{Disk}
use r_core_tutorial_code.EasyFs.Efs.{EasyFileSystem}
use r_core_tutorial_code.EasyFs.Layout.DirEntry.{from_utf8}
use r_core_tutorial_code.Os.Mm.UserBuffer.{Slice, buffer_length}
use r_core_tutorial_code.Os.Fs.OsInode
use r_core_tutorial_code.Os.Fs.OsInode.{Pages, load_slice, store_slice}

pub data OpenFile : Type 0 where
  stdin : OpenFile
  stdout : OpenFile
  os_inode : OsInode.OsInode → OpenFile

-- The disk, the pages of the process, the open files by their number and how many there are, the
-- results of `console_getchar` that are still to come, and what was printed.
pub record Files : Type 0 where
  pub disk : Disk
  pub pages : Pages
  pub files : ℕ → OpenFile
  pub count : ℕ
  pub input : List ℕ
  pub output : List ℕ

-- `File::readable` and `File::writable`
unfoldable pub readable : OpenFile → Bool
readable stdin = true
readable stdout = false
readable (os_inode file) = file.readable

unfoldable pub writable : OpenFile → Bool
writable stdin = false
writable stdout = true
writable (os_inode file) = file.writable

-- A call on the disk.
unfoldable pub with_disk : {A : Type 0} → Files → Result (A × Disk) → Result (A × Files)
with_disk s (ok (a, d)) = ok (a, record s { disk = d })
with_disk s panic = panic
with_disk s out_of_fuel = out_of_fuel

unfoldable pub on_disk : {A : Type 0} → State Disk A → State Files A
unfolding with_disk
on_disk m s = with_disk s (m s.disk)

-- The loop of `Stdin::read`: a character that is not there yet, 0, suspends the process.
unfoldable pub wait_char : List ℕ → Result (ℕ × List ℕ)
wait_char [] = out_of_fuel
wait_char (zero ∷ input) = wait_char input
wait_char (suc c ∷ input) = ok (suc c, input)

unfoldable pub get_char : State Files ℕ
unfolding wait_char
get_char s = elim (wait_char s.input) [
  | ok (c, input) ↦ ok (c, record s { input = input })
  | panic ↦ panic
  | out_of_fuel ↦ out_of_fuel
]

-- The byte goes to the front of the first slice, whose index is checked.
unfoldable pub store_char : List Slice → ℕ → State Files (Unit {0})
store_char [] c = λ s. panic
store_char (b ∷ bs) c = modify (λ s. record s {
  pages = λ ppn. if ppn == b.ppn then update (s.pages ppn) b.from (c % 256) else s.pages ppn;
})

unfoldable pub read_stdin : List Slice → State Files ℕ
unfolding get_char store_char
read_stdin buffers = do
  assert (buffer_length buffers == 1)
  c ← get_char
  store_char buffers c
  pure 1

-- `Stdout::write` prints slice by slice.
unfoldable pub print_slices : List Slice → State Files (Unit {0})
unfolding from_utf8 load_slice
print_slices [] = pure tt
print_slices (b ∷ bs) = do
  pages ← gets (λ (s : Files). s.pages)
  text ← λ s. elim (from_utf8 (tabulate (b.to - b.from) 0 (load_slice pages b))) [
    | ok text ↦ ok (text, s)
    | panic ↦ panic
    | out_of_fuel ↦ out_of_fuel
  ]
  modify (λ s. record s { output = s.output ++ text })
  print_slices bs

unfoldable pub write_stdout : List Slice → State Files ℕ
unfolding print_slices
write_stdout buffers = do print_slices buffers; pure (buffer_length buffers)

-- `File::read` and `File::write` of the open file with a number.
unfoldable pub read : ℕ → List Slice → OpenFile → State Files ℕ
unfolding on_disk read_stdin
read id buffers stdin = read_stdin buffers
read id buffers stdout = λ s. panic
read id buffers (os_inode file) = do
  pages ← gets (λ (s : Files). s.pages)
  (size, file', pages') ← on_disk (OsInode.read buffers file pages)
  modify (λ s. record s { pages = pages'; files = update s.files id (os_inode file') })
  pure size

unfoldable pub write : EasyFileSystem → ℕ → List Slice → OpenFile → State Files ℕ
unfolding on_disk write_stdout
write fs id buffers stdin = λ s. panic
write fs id buffers stdout = write_stdout buffers
write fs id buffers (os_inode file) = do
  pages ← gets (λ (s : Files). s.pages)
  (size, file') ← on_disk (OsInode.write fs buffers file pages)
  modify (λ s. record s { files = update s.files id (os_inode file') })
  pure size
