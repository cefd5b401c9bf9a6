-- ===== src/Os/Task/Calls.antt =====
-- What the system calls on processes do to the table when they return.
use r_core_tutorial_code.Base.{
  ℕ, ◌≡◌, refl, ap, ◌∙◌, Option, none, some, List, [], ◌∷◌, ◌++◌, ok, and_then, unwrap, pure, ◌>>◌,
}
use r_core_tutorial_code.Base.Keeps.{and_then-ok}
use r_core_tutorial_code.Os.Task.Pid
use r_core_tutorial_code.Os.Task.Control.{get_task, change_task}
use r_core_tutorial_code.Os.Task.Table.{Table, add_task}
use r_core_tutorial_code.Os.Task.Kernel.{
  Resources, Kernel, Task, Run, change_table, borrow, borrow_mut, current_task, minus_one,
}
use r_core_tutorial_code.Os.Task.Process.{fork, exec, modify_trap_cx, push_ready}
use r_core_tutorial_code.Os.Task.Wait.{sys_fork, sys_exec}
use r_core_tutorial_code.Os.Task.Consistent.{AreAlike, change_alike, AreAlike-refl, AreAlike-trans}
use r_core_tutorial_code.Os.Task.Transitions.{forked}
use r_core_tutorial_code.Os.Task.Effects.{
  after_lift, after_frame, borrow-ok, pure-ok, pure_value, fork-ok, IsChild, lift-ok,
}

module _ (r : Resources) where
  after_borrow :
      {B : Type 0} (p : ℕ) (rest : Task r → Run r B) (k : Kernel r) (b : B) (k' : Kernel r)
      → and_then (borrow r p k) rest ≡ ok (b, k')
      → (t : Task r) × (get_task p k.table.tasks ≡ some t) × (rest t k ≡ ok (b, k'))
  after_borrow p rest k b k' h =
      let (t, k1, e1, h1) = and_then-ok (borrow r p k) rest b k' h in
      let (g, same) = borrow-ok r p k t k1 e1 in (t, g, ap (rest t) same ∙ h1)

  pub after_current :
      {B : Type 0} (p : ℕ) (rest : ℕ → Run r B) (k : Kernel r) (b : B) (k' : Kernel r)
      → k.table.current ≡ some p
      → and_then (current_task r k) rest ≡ ok (b, k')
      → rest p k ≡ ok (b, k')
  unfolding current_task
  after_current {B} p rest k b k' c h = found k.table.current c h
    where
      found :
          (o : Option ℕ)
          → o ≡ some p
          → and_then (unwrap o k) rest ≡ ok (b, k')
          → rest p k ≡ ok (b, k')
      found none e h = absurd cc
      found (some q) e h = let same : p ≡ q = cc in ap (λ n. rest n k) same ∙ h

  pub sys_fork-ok :
      (k : Kernel r) (p : ℕ) (t : Task r) (pid : ℕ) (k' : Kernel r)
      → k.table.current ≡ some p
      → get_task p k.table.tasks ≡ some t
      → sys_fork r k ≡ ok (pid, k')
      → (child : Task r) × IsChild r t (Pid.alloc k.table.pids).0 child
        × (child.pid ≡ pid)
        × (forked p child k.table ≡ k'.table)
  unfolding sys_fork push_ready change_table modify_trap_cx add_task
  sys_fork-ok k p t pid k' c g h =
      let h1 = after_current p _ k pid k' c h in
      let (new_pid, k1, e1, h2) = and_then-ok (fork r p k) _ pid k' h1 in
      let (child, is_child, named, table) = fork-ok r k p t new_pid k1 g e1 in
      let (u, _, h3) = after_borrow new_pid _ k1 pid k' h2 in
      let (_, w, h4) = after_lift r _ _ k1 pid k' h3 in
      let same : new_pid ≡ pid = pure_value r _ _ _ _ h4 in
      let queued = λ (s : Table r.MemorySet r.File) (n : ℕ).
        let v : Table r.MemorySet r.File = record s { ready_queue = s.ready_queue ++ n ∷ [] } in
        v in
      (
        child,
        is_child,
        named ∙ same,
        ap
              (queued (record k.table {
                pids = (Pid.alloc k.table.pids).1;
                tasks =
                    change_task p (λ t. record t { children = t.children ++ child.pid ∷ [] })
                      (child ∷ k.table.tasks);
              }))
              named
            ∙ ap (λ s. queued s new_pid) table
            ∙ pure-ok r _ _ _ _ h4,
      )

  -- `exec` changes the address space and the frame of the trap context.
  exec-ok :
      (k : Kernel r) (p : ℕ) (bytes : List ℕ) (k' : Kernel r)
      → exec r p bytes k ≡ ok (tt, k')
      → (m : r.MemorySet) × (ppn : ℕ) × (record k.table {
        tasks =
            change_task p
              (λ t. record t { trap_cx_ppn = ppn })
              (change_task p (λ t. record t { memory_set = m }) k.table.tasks);
      }
          ≡ k'.table)
  unfolding exec borrow_mut change_table modify_trap_cx
  exec-ok k p bytes k' h =
      let ((m, sp, entry), w, h1) = after_lift r (r.from_elf bytes) _ k tt k' h in
      let (ppn, h2) = after_frame r m _ _ tt k' h1 in
      let (old, _, h3) = after_borrow p _ _ tt k' h2 in
      let (_, w1, h4) = after_lift r (r.drop_memory old.memory_set) _ _ tt k' h3 in
      let (_, _, h5) = lift-ok r _ _ tt k' h4 in (m, ppn, ap (λ (x : Kernel r). x.table) h5)

  pub sys_exec-ok :
      (k : Kernel r) (p path res : ℕ) (k' : Kernel r)
      → k.table.current ≡ some p
      → sys_exec r path k ≡ ok (res, k')
      → (ts : List (Task r)) × AreAlike k.table.tasks ts
        × (record k.table { tasks = ts } ≡ k'.table)
  unfolding sys_exec
  sys_exec-ok k p path res k' c h =
      let h1 = after_current p _ k res k' c h in
      let (inner, _, h2) = after_borrow p _ k res k' h1 in
      let (name, _, h3) = after_lift r _ _ k res k' h2 in
      let (app, w, h4) = after_lift r _ _ _ res k' h3 in go app w h4
    where
      go :
          (app : Option (List ℕ)) (w : r.World)
          → (let run : Run r ℕ = elim app [
            | none ↦ pure minus_one
            | some all_data ↦ do exec r p all_data; pure 0
          ] in
              run (record { world = w; table = k.table }))
            ≡ ok (res, k')
          → (ts : List (Task r)) × AreAlike k.table.tasks ts
            × (record k.table { tasks = ts } ≡ k'.table)
      go none w e = (k.table.tasks, AreAlike-refl _, pure-ok r _ _ _ _ e)
      go (some bytes) w e =
          let (_, k1, e1, e2) =
            and_then-ok (exec r p bytes (record { world = w; table = k.table })) _ res k' e in
          let (m, ppn, same) = exec-ok (record { world = w; table = k.table }) p bytes k1 e1 in
          (
            _,
            AreAlike-trans _ _ _
                (change_alike p (λ t. record t { memory_set = m }) k.table.tasks (λ _. refl)
                  (λ _. refl) (λ _. refl))
                (change_alike p (λ t. record t { trap_cx_ppn = ppn }) _ (λ _. refl) (λ _. refl)
                  (λ _. refl)),
            same ∙ pure-ok r _ _ _ _ e2,
          )
