-- ===== src/Os/Task/Waiting.antt =====
-- `waitpid` removes a child that has ended, where the calls of the rest of the kernel return.
use r_core_tutorial_code.Base.{
  ℕ, ◌≡◌, refl, ap, ◌∙◌, true, false, not, Option, none, some, ok, panic, out_of_fuel, Result,
  State, and_then, ◌>>=◌, pure, unwrap, ◌==◌, get_elem?, eq→==, assert,
}
use r_core_tutorial_code.Base.Keeps.{and_then-ok}
use r_core_tutorial_code.Os.Task.Pid
use r_core_tutorial_code.Os.Task.Pid.KernelStack.{stack_page, page_of_stack}
use r_core_tutorial_code.Os.Task.Control.{is_zombie, get_task, change_task, free_task}
use r_core_tutorial_code.Os.Task.Table.{strong_count}
use r_core_tutorial_code.Os.Task.Kernel.{
  Resources, Kernel, Task, lift, on_world, change_table, borrow, borrow_mut, current_task,
  kernel_stack_drop, minus_one, minus_two,
}
use r_core_tutorial_code.Os.Task.Process.{any_child, find_zombie}
use r_core_tutorial_code.Os.Task.Wait.{pid_dealloc, with_pids, drop_task, reap, sys_waitpid}
use r_core_tutorial_code.Os.Task.Consistent.{IsConsistent}
use r_core_tutorial_code.Os.Task.Effects.{after_lift, pure-ok}
use r_core_tutorial_code.Os.Task.Reaping.{
  reaped, remove_child, child_unshared, child_dealloc, child_there,
}

-- A result, and what follows when a call returns.
abbrev pub after : {W B : Type 0} → Result (Unit {0} × W) → (W → Result B) → Result B
after (ok (u, w)) k = k w
after panic k = panic
after out_of_fuel k = out_of_fuel

after-pure :
    {W S B : Type 0} (v : Result (Unit {0} × W)) (g : W → Result (Unit {0} × S)) (b : B)
    → and_then (after v g) (λ _. pure b) ≡ after v (λ w. and_then (g w) (λ _. pure b))
after-pure (ok (u, w)) g b = refl
after-pure panic g b = refl
after-pure out_of_fuel g b = refl

after_same :
    {W B : Type 0} (v : Result (Unit {0} × W)) (g h : W → Result B)
    → ((w : W) → g w ≡ h w)
    → after v g ≡ after v h
after_same (ok (u, w)) g h same = same w
after_same panic g h same = refl
after_same out_of_fuel g h same = refl

module _ (r : Resources) where
  -- A call of the rest of the kernel, and the steps behind it.
  lift-after :
      {B : Type 0} (m : State r.World (Unit {0})) (k : Kernel r) (f : Unit {0} → State (Kernel r) B)
      (g : r.World → Result (B × Kernel r))
      → ((w : r.World) → f tt (record { world = w; table = k.table }) ≡ g w)
      → (lift r m >>= f) k ≡ after (m k.world) g
  unfolding lift on_world
  lift-after {B} m k f g h = go (m k.world)
    where
      go : (v : Result (Unit {0} × r.World)) → and_then (on_world r k.table v) f ≡ after v g
      go (ok (u, w)) = h w
      go panic = refl
      go out_of_fuel = refl

  pub lift_lem :
      {A : Type 0} (m : State r.World A) (k : Kernel r) (a : A) (w : r.World)
      → m k.world ≡ ok (a, w)
      → lift r m k ≡ ok (a, record { world = w; table = k.table })
  unfolding lift on_world
  lift_lem m k a w h = ap (on_world r k.table) h

  pub current_task_lem :
      (k : Kernel r) (p : ℕ) → k.table.current ≡ some p → current_task r k ≡ ok (p, k)
  unfolding current_task
  current_task_lem k p c =
      ap (λ (o : Option ℕ). let res : Result (ℕ × Kernel r) = unwrap o k in res) c

  pub borrow_lem :
      (p : ℕ) (k : Kernel r) (t : Task r)
      → get_task p k.table.tasks ≡ some t
      → borrow r p k ≡ ok (t, k)
  unfolding borrow
  borrow_lem p k t g =
      ap (λ (o : Option (Task r)). let res : Result (Task r × Kernel r) = unwrap o k in res) g

  pid_dealloc_lem :
      (pid : ℕ) (k : Kernel r) (pids : Pid.PidAllocator)
      → Pid.dealloc k.table.pids pid ≡ ok pids
      → pid_dealloc r pid k ≡ ok (tt, record k { table = record k.table { pids = pids } })
  unfolding pid_dealloc with_pids
  pid_dealloc_lem pid k pids h =
      ap
        (λ (x : Result Pid.PidAllocator).
          let res : Result (Unit {0} × Kernel r) = with_pids r x k in res)
        h

  -- The drop of a process: its two calls, and its block.
  drop_task-after :
      (c : ℕ) (z : Task r) (pids : Pid.PidAllocator) (k : Kernel r)
      → get_task c k.table.tasks ≡ some z
      → Pid.dealloc k.table.pids c ≡ ok pids
      → drop_task r c k
        ≡ after (r.remove_area_with_start_vpn (stack_page c) k.world) (λ w.
          after (r.drop_memory z.memory_set w) (λ w'. ok (
            tt,
            record {
              world = w';
              table = record k.table { pids = pids; tasks = free_task c k.table.tasks };
            },
          )))
  unfolding drop_task kernel_stack_drop change_table
  drop_task-after c z pids k there freed =
      let dealt : Kernel r = record k { table = record k.table { pids = pids } } in
      rw (borrow_lem c k z there, pid_dealloc_lem c k pids freed, page_of_stack c)
        (lift-after (r.remove_area_with_start_vpn (stack_page c)) dealt _ _ (λ w.
          lift-after (r.drop_memory z.memory_set) (record dealt { world = w }) _ _ (λ w'. refl)))

  module _ (k : Kernel r) (p idx c ptr : ℕ) (t z : Task r) (consistent : IsConsistent k.table)
      (parent : get_task p k.table.tasks ≡ some t) (running : is_zombie t ≡ false)
      (listed : get_elem? t.children idx ≡ some c) (child : get_task c k.table.tasks ≡ some z)
      (over : is_zombie z ≡ true) where
    pub reap_lem :
        reap r p t ptr idx k
        ≡ after (r.write_translated (r.token t.memory_set) ptr z.exit_code k.world) (λ w1.
          after (r.remove_area_with_start_vpn (stack_page c) w1) (λ w2.
            after
              (r.drop_memory z.memory_set w2)
              (λ w. ok (c, record { world = w; table = reaped p idx c k.table }))))
    unfolding reap borrow_mut change_table
    reap_lem =
        let s = k.table in
        let listless = record s { tasks = change_task p (remove_child idx) s.tasks } in
        let there = child_there s p idx c t z consistent parent running listed child over in
        let alone : (strong_count c listless == 0) ≡ true =
          eq→== _ _ (child_unshared s p idx c t z consistent parent running listed child over) in
        let freed = child_dealloc s p idx c t z consistent parent running listed child over in
        let at = λ (w : r.World). let x : Kernel r = record { world = w; table = listless } in x in
        rw (listed, unwrap, alone, assert, borrow_lem c (at k.world) z there)
          (lift-after (r.write_translated (r.token t.memory_set) ptr z.exit_code) (at k.world) _ _
            (λ w1.
              ap (λ (v : Result (Unit {0} × Kernel r)). and_then v (λ _. pure c))
                (drop_task-after c z _ (at w1) there freed)
              ∙ after-pure (r.remove_area_with_start_vpn (stack_page c) w1) _ c
              ∙ after_same (r.remove_area_with_start_vpn (stack_page c) w1) _ _
                  (λ w2. after-pure (r.drop_memory z.memory_set w2) _ c)))

  drop_task-ok :
      (c : ℕ) (z : Task r) (pids : Pid.PidAllocator) (k : Kernel r) (k' : Kernel r)
      → get_task c k.table.tasks ≡ some z
      → Pid.dealloc k.table.pids c ≡ ok pids
      → drop_task r c k ≡ ok (tt, k')
      → record k.table { pids = pids; tasks = free_task c k.table.tasks } ≡ k'.table
  unfolding drop_task kernel_stack_drop change_table
  drop_task-ok c z pids k k' there freed h =
      let dealt = record k { table = record k.table { pids = pids } } in
      let h1 = rw (borrow_lem c k z there, pid_dealloc_lem c k pids freed, page_of_stack c) at h in
      let (_, w1, h2) =
        after_lift r (r.remove_area_with_start_vpn (stack_page c)) _ dealt tt k' h1 in
      let (_, w2, h3) = after_lift r (r.drop_memory z.memory_set) _ _ tt k' h2 in
      pure-ok r _ _ _ _ h3

  pub reap-ok :
      (k : Kernel r) (p idx c ptr : ℕ) (t z : Task r)
      → IsConsistent k.table
      → get_task p k.table.tasks ≡ some t
      → is_zombie t ≡ false
      → get_elem? t.children idx ≡ some c
      → get_task c k.table.tasks ≡ some z
      → is_zombie z ≡ true
      → (res : ℕ) (k' : Kernel r) → reap r p t ptr idx k ≡ ok (res, k')
      → reaped p idx c k.table ≡ k'.table
  unfolding reap borrow_mut change_table
  reap-ok k p idx c ptr t z consistent parent running listed child over res k' h =
      let s = k.table in
      let listless = record s { tasks = change_task p (remove_child idx) s.tasks } in
      let there = child_there s p idx c t z consistent parent running listed child over in
      let alone : (strong_count c listless == 0) ≡ true =
        eq→== _ _ (child_unshared s p idx c t z consistent parent running listed child over) in
      let freed = child_dealloc s p idx c t z consistent parent running listed child over in
      let at = λ (w : r.World). let x : Kernel r = record { world = w; table = listless } in x in
      let h1 = rw (listed, unwrap, alone, assert, borrow_lem c (at k.world) z there) at h in
      let (_, w1, h2) =
        after_lift r (r.write_translated (r.token t.memory_set) ptr z.exit_code) _ (at k.world) res
          k' h1 in
      let (_, k1, e1, h3) = and_then-ok (drop_task r c (at w1)) _ res k' h2 in
      drop_task-ok c z _ (at w1) k1 there freed e1 ∙ pure-ok r _ _ _ _ h3

  -- The three ends of `waitpid`, by its searches.
  module _ (k : Kernel r) (p pid ptr : ℕ) (t : Task r) (current : k.table.current ≡ some p)
      (parent : get_task p k.table.tasks ≡ some t) where
    pub waitpid_no_child :
        any_child pid t.children ≡ false → sys_waitpid r pid ptr k ≡ ok (minus_one, k)
    unfolding sys_waitpid
    waitpid_no_child none_meant =
        rw (current_task_lem k p current, borrow_lem p k t parent, none_meant) refl

    pub waitpid_running :
        any_child pid t.children ≡ true
        → find_zombie pid k.table.tasks t.children ≡ none
        → sys_waitpid r pid ptr k ≡ ok (minus_two, k)
    unfolding sys_waitpid
    waitpid_running meant none_over =
        rw (current_task_lem k p current, borrow_lem p k t parent, meant, not, none_over) refl

    pub waitpid_reap :
        (idx : ℕ)
        → any_child pid t.children ≡ true
        → find_zombie pid k.table.tasks t.children ≡ some idx
        → sys_waitpid r pid ptr k ≡ reap r p t ptr idx k
    unfolding sys_waitpid
    waitpid_reap idx meant found =
        rw (current_task_lem k p current, borrow_lem p k t parent, meant, not, found) refl
