-- ===== src/Os/Task/Machine.antt =====
-- os/src/task and os/src/syscall/process.rs: what the processes use, out of the memory sets and the
-- files. `parse` is the parser of ELF files, `strampoline` and the other addresses are those of the
-- linked kernel, and a path of a system call has less than `text_size` bytes.
use r_core_tutorial_code.Base.{
  ℕ, ◌+◌, ◌-◌, ◌*◌, ◌/◌, ◌%◌, ◌^◌, ◌≡◌, refl, ◌&&◌, Option, none, some, List, State, Result, ok,
  panic, out_of_fuel, pure, gets, modify, unwrap, ◌>>=◌, leb, ltb, if◌then◌else◌, update, tabulate,
  get_elem?, ◌==◌, [], ◌∷◌, length, suc, ◌<◌, ap, sym, ◌∙◌, arith, update_at, lt→ltb,
}
use r_core_tutorial_code.EasyFs.Block.{Disk}
use r_core_tutorial_code.EasyFs.Efs.{EasyFileSystem}
use r_core_tutorial_code.EasyFs.Layout.Inode as OnDisk
use r_core_tutorial_code.Os.Mm.Address.{virt_addr}
use r_core_tutorial_code.Os.Mm.PageTable.{Space, Memory, ppn_of, translate_va, from_token}
use r_core_tutorial_code.Os.Mm.UserBuffer
use r_core_tutorial_code.Os.Mm.MapArea.{readable, writable, word_of, byte_in}
use r_core_tutorial_code.Os.Mm.MemorySet
use r_core_tutorial_code.Os.Mm.MemorySet.{MemorySet}
use r_core_tutorial_code.Os.Mm.Load
use r_core_tutorial_code.Os.Mm.Load.{ElfFile}
use r_core_tutorial_code.Os.Fs.OsInode
use r_core_tutorial_code.Os.Fs.OsInode.{OsInode}
use r_core_tutorial_code.Os.Task.Kernel.{Resources}
use r_core_tutorial_code.Os.Trap.{TrapContext}

pub record World : Type 0 where
  pub space : Space
  pub kernel_space : MemorySet
  pub disk : Disk

-- Calls on the memory, on the kernel's address space and on the disk.
unfoldable pub space_result : {A : Type 0} → World → Result (A × Space) → Result (A × World)
space_result w (ok (a, s)) = ok (a, record w { space = s })
space_result w panic = panic
space_result w out_of_fuel = out_of_fuel

abbrev pub on_space : {A : Type 0} → State Space A → State World A
on_space m w = space_result w (m w.space)

unfoldable pub on_kernel_space : (MemorySet → State Space MemorySet) → State World (Unit {0})
on_kernel_space f = do
  self ← gets (λ (w : World). w.kernel_space)
  self' ← on_space (f self)
  modify (λ w. record w { kernel_space = self' })

unfoldable pub disk_result : {A : Type 0} → World → Result (A × Disk) → Result (A × World)
disk_result w (ok (a, d)) = ok (a, record w { disk = d })
disk_result w panic = panic
disk_result w out_of_fuel = out_of_fuel

abbrev pub on_disk : {A : Type 0} → State Disk A → State World A
on_disk m w = disk_result w (m w.disk)

unfoldable pub of_result : {A : Type 0} → Result A → State World A
of_result (ok a) w = ok (a, w)
of_result panic w = panic
of_result out_of_fuel w = out_of_fuel

-- A register in a list of 32.
abbrev register : Option ℕ → ℕ
register none = 0
register (some v) = v

-- The trap context at the front of a frame: 37 words.
unfoldable pub get_trap_cx : ℕ → Memory → TrapContext
get_trap_cx ppn m = record {
  x = tabulate 32 0 (m ppn);
  sstatus = m ppn 32;
  sepc = m ppn 33;
  kernel_satp = m ppn 34;
  kernel_sp = m ppn 35;
  trap_handler = m ppn 36;
}

unfoldable pub set_trap_cx : ℕ → TrapContext → Memory → Memory
set_trap_cx ppn cx m = update m ppn (λ i.
    if ltb i 32
    then register (get_elem? cx.x i)
    else if i == 32
    then cx.sstatus
    else if i == 33
    then cx.sepc
    else if i == 34
    then cx.kernel_satp
    else if i == 35
    then cx.kernel_sp
    else if i == 36
    then cx.trap_handler
    else m ppn i)

registers :
    (xs : List ℕ) (a : ℕ) (f : ℕ → ℕ)
    → ((i : ℕ) → i < length xs → f (a + i) ≡ register (get_elem? xs i))
    → tabulate (length xs) a f ≡ xs
registers [] a f h = refl
registers (x ∷ xs) a f h =
    let first : f (a + 0) ≡ x = h 0 (omega arith) in
    let here : a + 0 ≡ a = omega arith in
    let rest = registers xs (a + 1) f (λ i lt.
      let shift : (a + 1) + i ≡ a + suc i = omega arith in ap f shift ∙ h (suc i) (omega arith)) in
    rw (rest, sym (ap f here), first) refl

-- A trap context of 32 registers that is written to a frame is read back.
pub get_trap_cx-set_trap_cx :
    (ppn : ℕ) (cx : TrapContext) (m : Memory)
    → length cx.x ≡ 32
    → get_trap_cx ppn (set_trap_cx ppn cx m) ≡ cx
unfolding get_trap_cx set_trap_cx
get_trap_cx-set_trap_cx ppn cx m size =
    let words = λ (i : ℕ).
      if ltb i 32
      then register (get_elem? cx.x i)
      else if i == 32
      then cx.sstatus
      else if i == 33
      then cx.sepc
      else if i == 34
      then cx.kernel_satp
      else if i == 35
      then cx.kernel_sp
      else if i == 36
      then cx.trap_handler
      else m ppn i in
    let read = λ (f : ℕ → ℕ).
      let v : TrapContext = record {
        x = tabulate 32 0 f;
        sstatus = f 32;
        sepc = f 33;
        kernel_satp = f 34;
        kernel_sp = f 35;
        trap_handler = f 36;
      } in
      v in
    let all : tabulate 32 0 words ≡ cx.x =
      ap (λ n. tabulate n 0 words) (sym size)
      ∙ registers cx.x 0 words (λ i lt.
        let start : 0 + i ≡ i = omega arith in
        ap words start ∙ rw (lt→ltb i 32 (omega arith)) refl) in
    ap read (update_at m ppn words ppn refl) ∙ ap (λ x. record cx { x = x }) all

-- The write of an `i32` at a physical address, in little endian order.
unfoldable pub store_word : (pa value : ℕ) → Memory → Memory
unfolding word_of byte_in
store_word pa value m ppn = word_of (λ i.
    let a = ppn * 4096 + i in
    if leb pa a && ltb a (pa + 4) then value / 2 ^ (8 * (a - pa)) % 2 ^ 8 else byte_in (m ppn) i)

unfoldable pub write_translated : (token ptr value : ℕ) → State Space (Unit {0})
unfolding store_word
write_translated token ptr value = do
  found ← gets (λ (s : Space). translate_va s.memory (from_token token) (virt_addr ptr))
  pa ← unwrap found
  modify (λ s. record s { memory = store_word pa value s.memory })

-- More rounds than the file has bytes.
unfoldable pub read_opened : Option OsInode → State Disk (Option (List ℕ))
read_opened none = pure none
read_opened (some file) = do
  size ← gets (λ (d : Disk).
      let n = OnDisk.decode (d file.inode.block_id) file.inode.block_offset in n.size)
  (contents, _) ← OsInode.read_all (size + 1) file
  pure (some contents)

unfoldable pub read_file : EasyFileSystem → List ℕ → State Disk (Option (List ℕ))
unfolding read_opened
read_file fs name = do opened ← OsInode.open_file fs name 0; read_opened opened

module _ (fs : EasyFileSystem) (parse : List ℕ → Option ElfFile)
    (strampoline text_size trap_return trap_handler user_sstatus : ℕ) where
  -- The numbers 0 and 1 stand for the standard input and output.
  abbrev pub machine : Resources
  machine = record {
    World = World;
    MemorySet = MemorySet;
    File = ℕ;
    from_existed_user = λ m. on_space (MemorySet.from_existed_user strampoline m);
    from_elf = λ contents. on_space (Load.from_elf strampoline (parse contents));
    translate = λ m vpn w. elim (MemorySet.translate w.space.memory m vpn) [
      | none ↦ none
      | some pte ↦ some (ppn_of pte)
    ];
    token = MemorySet.token;
    recycle_data_pages = λ m. on_space (MemorySet.recycle_data_pages m);
    drop_memory = λ m. on_space (MemorySet.drop m);
    kernel_token = λ w. MemorySet.token w.kernel_space;
    insert_framed_area = λ start_va end_va.
        on_kernel_space (MemorySet.insert_framed_area start_va end_va (readable + writable));
    remove_area_with_start_vpn = λ vpn. on_kernel_space (MemorySet.remove_area_with_start_vpn vpn);
    get_trap_cx = λ ppn w. get_trap_cx ppn w.space.memory;
    set_trap_cx = λ ppn cx w. record w {
      space = record w.space { memory = set_trap_cx ppn cx w.space.memory };
    };
    write_translated = λ token ptr value. on_space (write_translated token ptr value);
    translated_str =
        λ token ptr w. of_result (UserBuffer.translated_str w.space.memory text_size token ptr) w;
    read_file = λ name. on_disk (read_file fs name);
    stdin = 0;
    stdout = 1;
    trap_return = trap_return;
    trap_handler = trap_handler;
    user_sstatus = user_sstatus;
  }
