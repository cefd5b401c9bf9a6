-- ===== src/Os/Task/Effects.antt =====
-- What the operations on processes do to the table when they return.
use r_core_tutorial_code.Base.{
  ℕ, ◌≡◌, ◌≢◌, refl, ap, ◌∙◌, false, Option, none, some, List, [], ◌∷◌, ◌++◌, if◌then◌else◌, ◌==◌,
  ok, panic, out_of_fuel, Result, State, and_then, unwrap, pure, ◌>>=◌, ◌>>◌, gets, ne→==,
}
use r_core_tutorial_code.Base.Keeps.{and_then-ok}
use r_core_tutorial_code.Os.Mm.Address
use r_core_tutorial_code.Os.Task.Pid
use r_core_tutorial_code.Os.Task.Control.{TaskStatus, is_zombie, get_task, change_task}
use r_core_tutorial_code.Os.Task.Table.{add_task, fetch_task, take_current_task}
use r_core_tutorial_code.Os.Task.Kernel.{
  Resources, Kernel, Task, Run, Exit, lift, on_world, on_table, change_table, borrow, borrow_mut,
  trap_cx_frame, trap_context, of_result, pid_alloc, kernel_stack_new,
}
use r_core_tutorial_code.Os.Task.Process.{
  run_tasks, suspend_current_and_run_next, move_children, end_task, exit_current_and_run_next,
  insert_task, modify_trap_cx, fork, child_of, push_ready,
}
use r_core_tutorial_code.Os.Task.Ending.{moved}
use r_core_tutorial_code.Os.Task.Zombies.{exited, end_block, set_memory}
use r_core_tutorial_code.Os.Task.Totals.{get-change_self}

module _ (r : Resources) where
  pub lift-ok :
      {A : Type 0} (m : State r.World A) (k : Kernel r) (a : A) (k' : Kernel r)
      → lift r m k ≡ ok (a, k')
      → (w : r.World) × (m k.world ≡ ok (a, w)) × (record { world = w; table = k.table } ≡ k')
  unfolding lift on_world
  lift-ok {A} m k a k' h = go (m k.world) refl h
    where
      go :
          (x : Result (A × r.World))
          → m k.world ≡ x
          → on_world r k.table x ≡ ok (a, k')
          → (w : r.World) × (m k.world ≡ ok (a, w)) × (record { world = w; table = k.table } ≡ k')
      go (ok (b, w)) e q = (w, cc, cc)
      go panic e q = absurd cc
      go out_of_fuel e q = absurd cc

  -- What follows a call that returned.
  pub after_lift :
      {A B : Type 0} (m : State r.World A) (rest : A → Run r B) (k : Kernel r) (b : B)
      (k' : Kernel r)
      → and_then (lift r m k) rest ≡ ok (b, k')
      → (a : A) × (w : r.World) × (rest a (record { world = w; table = k.table }) ≡ ok (b, k'))
  after_lift m rest k b k' h =
      let (a, k1, e1, h1) = and_then-ok (lift r m k) rest b k' h in
      let (w, _, same) = lift-ok m k a k1 e1 in (a, w, ap (rest a) same ∙ h1)

  -- What follows the frame of the trap context, which leaves the state.
  pub after_frame :
      {B : Type 0} (m : r.MemorySet) (rest : ℕ → Run r B) (k : Kernel r) (b : B) (k' : Kernel r)
      → and_then (trap_cx_frame r m k) rest ≡ ok (b, k')
      → (ppn : ℕ) × (rest ppn k ≡ ok (b, k'))
  unfolding trap_cx_frame
  after_frame {B} m rest k b k' h = go (Address.page_of (Address.virt_addr trap_context)) h
    where
      found :
          (o : Option ℕ)
          → and_then (unwrap o k) rest ≡ ok (b, k')
          → (ppn : ℕ) × (rest ppn k ≡ ok (b, k'))
      found none h = absurd cc
      found (some ppn) h = (ppn, h)

      go :
          (x : Result ℕ)
          → and_then
              (and_then
                (of_result r x k)
                (λ vpn. gets (λ (k : Kernel r). r.translate m vpn k.world) >>= unwrap))
              rest
            ≡ ok (b, k')
          → (ppn : ℕ) × (rest ppn k ≡ ok (b, k'))
      go (ok vpn) h = found (r.translate m vpn k.world) h
      go panic h = absurd cc
      go out_of_fuel h = absurd cc

  -- What follows a new kernel stack.
  pub after_stack :
      {B : Type 0} (pid : ℕ) (rest : ℕ → Run r B) (k : Kernel r) (b : B) (k' : Kernel r)
      → and_then (kernel_stack_new r pid k) rest ≡ ok (b, k')
      → (w : r.World) × (rest
            (Pid.kernel_stack_position pid).1
            (record { world = w; table = k.table })
          ≡ ok (b, k'))
  unfolding kernel_stack_new
  after_stack pid rest k b k' h =
      let (a, k1, e1, h1) = and_then-ok (kernel_stack_new r pid k) rest b k' h in
      let position = Pid.kernel_stack_position pid in
      let (_, w, e) =
        after_lift
          (r.insert_framed_area (Address.virt_addr position.0) (Address.virt_addr position.1))
          (λ _. pure position.1) k a k1 e1 in
      let stack : position.1 ≡ a = cc in
      let state : record { world = w; table = k.table } ≡ k1 = cc in (w, cc)

  pub pure-ok :
      {A : Type 0} (a b : A) (k k' : Kernel r)
      → ◌≡◌ {A = Result (A × Kernel r)} (ok (a, k)) (ok (b, k'))
      → k.table ≡ k'.table
  pure-ok a b k k' h = let e : k ≡ k' = cc in ap (λ (x : Kernel r). x.table) e

  pub pure_value :
      {A : Type 0} (a b : A) (k k' : Kernel r)
      → ◌≡◌ {A = Result (A × Kernel r)} (ok (a, k)) (ok (b, k'))
      → a ≡ b
  pure_value a b k k' h = cc

  unwrap-ok :
      {A : Type 0} (o : Option A) (k : Kernel r) (a : A) (k' : Kernel r)
      → unwrap o k ≡ ok (a, k')
      → (o ≡ some a) × (k ≡ k')
  unwrap-ok none k a k' h = absurd cc
  unwrap-ok (some b) k a k' h = (cc, cc)

  pub borrow-ok :
      (p : ℕ) (k : Kernel r) (t : Task r) (k' : Kernel r)
      → borrow r p k ≡ ok (t, k')
      → (get_task p k.table.tasks ≡ some t) × (k ≡ k')
  unfolding borrow
  borrow-ok p k t k' h = unwrap-ok (get_task p k.table.tasks) k t k' h

  -- A round of the scheduler.
  pub run_tasks-some :
      (k : Kernel r) (p : ℕ) (ps : List ℕ)
      → k.table.ready_queue ≡ p ∷ ps
      → run_tasks r k
        ≡ ok (
          some p,
          record k {
            table = record k.table {
              tasks =
                  change_task p (λ t. record t { task_status = TaskStatus.running }) k.table.tasks;
              ready_queue = ps;
              current = some p;
            };
          },
        )
  unfolding run_tasks on_table fetch_task borrow_mut change_table
  run_tasks-some k p ps h = rw h refl

  pub run_tasks-none : (k : Kernel r) → k.table.ready_queue ≡ [] → run_tasks r k ≡ ok (none, k)
  unfolding run_tasks on_table fetch_task
  run_tasks-none k h = rw (fetch_task, h) refl

  pub suspend_some :
      (k : Kernel r) (p : ℕ)
      → k.table.current ≡ some p
      → suspend_current_and_run_next r k
        ≡ ok (
          tt,
          record k {
            table = record k.table {
              tasks =
                  change_task p (λ t. record t { task_status = TaskStatus.ready }) k.table.tasks;
              ready_queue = k.table.ready_queue ++ p ∷ [];
              current = none;
            };
          },
        )
  unfolding suspend_current_and_run_next on_table take_current_task borrow_mut change_table
      push_ready add_task
  suspend_some k p h = rw (h, unwrap) refl

  pub move_children_lem :
      (cs : List ℕ) (k : Kernel r)
      → move_children r cs k
        ≡ ok (tt, record k { table = record k.table { tasks = moved cs k.table.tasks } })
  unfolding move_children borrow_mut change_table moved
  move_children_lem [] k = refl
  move_children_lem (c ∷ cs) k = move_children_lem cs _

  -- The end of the process that runs, where it is not the first.
  pub exit-ok :
      (k : Kernel r) (p code : ℕ) (t : Task r) (e : Exit) (k' : Kernel r)
      → k.table.current ≡ some p
      → p ≢ 0
      → get_task p k.table.tasks ≡ some t
      → exit_current_and_run_next r code k ≡ ok (e, k')
      → (m : r.MemorySet) × (record k.table {
        tasks = exited p code m t.children k.table.tasks;
        current = none;
      }
          ≡ k'.table)
  unfolding exit_current_and_run_next end_task on_table take_current_task borrow_mut change_table
      borrow
  exit-ok k p code t e k' c ne g h =
      let other = ne→== p 0 ne in
      let here = get-change_self p (end_block code) k.table.tasks t g (λ _. refl) in
      let h1 = rw (c, unwrap, other, if◌then◌else◌, here, move_children_lem t.children _) at h in
      let (m, w, h2) =
        after_lift (r.recycle_data_pages t.memory_set)
          (λ m. borrow_mut r p (set_memory m) >> pure Exit.scheduled) _ e k' h1 in
      (m, pure-ok _ _ _ _ h2)

  -- The end of the first process.
  pub exit_first :
      (k : Kernel r) (p code : ℕ)
      → k.table.current ≡ some p
      → p ≡ 0
      → exit_current_and_run_next r code k
        ≡ ok (
          (if code == 0 then Exit.exit_success else Exit.exit_failure),
          record k { table = record k.table { current = none } },
        )
  unfolding exit_current_and_run_next on_table take_current_task
  exit_first k p code c root =
      let at : k.table.current ≡ some 0 = c ∙ ap some root in rw (at, unwrap) refl

  -- What a child is like.
  pub record IsChild (t : Task r) (pid : ℕ) (child : Task r) : Type 0 where
    pub new_pid : child.pid ≡ pid
    pub no_children : child.children ≡ []
    pub awake : is_zombie child ≡ false
    pub same_files : child.fd_table ≡ t.fd_table
    pub of_parent : child.parent ≡ some t.pid

  pub fork-ok :
      (k : Kernel r) (p : ℕ) (t : Task r) (pid : ℕ) (k' : Kernel r)
      → get_task p k.table.tasks ≡ some t
      → fork r p k ≡ ok (pid, k')
      → (child : Task r) × IsChild t (Pid.alloc k.table.pids).0 child
        × (child.pid ≡ pid)
        × (record k.table {
          pids = (Pid.alloc k.table.pids).1;
          tasks =
              change_task p
                (λ t. record t { children = t.children ++ child.pid ∷ [] })
                (child ∷ k.table.tasks);
        }
            ≡ k'.table)
  unfolding fork borrow pid_alloc on_table insert_task change_table borrow_mut modify_trap_cx
  fork-ok k p t pid k' g h =
      let h1 = rw g at h in
      let (m, w, h2) = after_lift (r.from_existed_user t.memory_set) _ k pid k' h1 in
      let (ppn, h3) = after_frame m _ _ pid k' h2 in
      let (w', h4) = after_stack _ _ _ pid k' h3 in
      let (_, w2, h5) = after_lift _ _ _ pid k' h4 in
      let new_pid = (Pid.alloc k.table.pids).0 in
      (
        child_of r t new_pid m ppn (Pid.kernel_stack_position new_pid).1,
        record {
          new_pid = refl;
          no_children = refl;
          awake = refl;
          same_files = refl;
          of_parent = refl;
        },
        pure_value _ _ _ _ h5,
        pure-ok _ _ _ _ h5,
      )
