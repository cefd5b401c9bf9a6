-- ===== src/Os/Task/Fork.antt =====
-- os/src/syscall/process.rs: `sys_fork`.
use r_core_tutorial_code.Base.{
  ℕ, ◌+◌, ◌-◌, ◌^◌, ◌<◌, ◌≡◌, ◌≢◌, refl, ap, arith, ◌∙◌, true, false, none, some, [], ◌∷◌, ◌++◌,
  ◌==◌, ok, if◌then◌else◌, set, length, length-set, eq→==,
}
use r_core_tutorial_code.Os.Mm.Address
use r_core_tutorial_code.Os.Task.Pid
use r_core_tutorial_code.Os.Task.Pid.Uniqueness.{alloc_step}
use r_core_tutorial_code.Os.Task.Control.{is_zombie, get_task, change_task, total}
use r_core_tutorial_code.Os.Task.Table.{Table, add_task}
use r_core_tutorial_code.Os.Task.Kernel.{
  Resources, Kernel, Task, borrow_mut, change_table, on_table, lift, trap_cx_frame, trap_context,
  of_result, pid_alloc, kernel_stack_new,
}
use r_core_tutorial_code.Os.Task.Process.{fork, child_of, insert_task, modify_trap_cx, push_ready}
use r_core_tutorial_code.Os.Task.Wait.{sys_fork}
use r_core_tutorial_code.Os.Task.Totals.{
  lives, get_tail, get-change_self, get-change_ne, get_of_none,
}
use r_core_tutorial_code.Os.Task.Transitions.{lives_of_get}
use r_core_tutorial_code.Os.Task.Waiting.{lift_lem, borrow_lem, current_task_lem}
use r_core_tutorial_code.Os.Task.Lifecycle.{Reachable}
use r_core_tutorial_code.Os.Task.Preservation.{Reachable-IsConsistent}
use r_core_tutorial_code.Os.Trap.{TrapContext}

-- The page of the trap context.
abbrev pub trap_context_page : ℕ
trap_context_page = 2 ^ 27 - 2

page_of-trap_context : Address.page_of (Address.virt_addr trap_context) ≡ ok trap_context_page
unfolding Address.page_of Address.virt_addr Address.page_offset Address.floor
page_of-trap_context = refl

module _ (r : Resources) where
  trap_cx_frame_lem :
      (m : r.MemorySet) (k : Kernel r) (ppn : ℕ)
      → r.translate m trap_context_page k.world ≡ some ppn
      → trap_cx_frame r m k ≡ ok (ppn, k)
  unfolding trap_cx_frame of_result
  trap_cx_frame_lem m k ppn h = rw (page_of-trap_context, of_result, h) refl

  kernel_stack_new_lem :
      (pid : ℕ) (k : Kernel r) (w : r.World)
      → (let s = Pid.kernel_stack_position pid in
          r.insert_framed_area (Address.virt_addr s.0) (Address.virt_addr s.1) k.world)
        ≡ ok (tt, w)
      → kernel_stack_new r pid k
        ≡ ok ((Pid.kernel_stack_position pid).1, record { world = w; table = k.table })
  unfolding kernel_stack_new
  kernel_stack_new_lem pid k w h =
      let s = Pid.kernel_stack_position pid in
      rw
        (lift_lem r (r.insert_framed_area (Address.virt_addr s.0) (Address.virt_addr s.1)) k tt w h)
        refl

  module _ (k : Kernel r) (p : ℕ) (t : Task r) (m : r.MemorySet) (w1 w2 : r.World) (ppn : ℕ)
      (current : k.table.current ≡ some p) (parent : get_task p k.table.tasks ≡ some t)
      (copied : r.from_existed_user t.memory_set k.world ≡ ok (m, w1))
      (mapped : r.translate m trap_context_page w1 ≡ some ppn)
      (stacked : (let s = Pid.kernel_stack_position (Pid.alloc k.table.pids).0 in
          r.insert_framed_area (Address.virt_addr s.0) (Address.virt_addr s.1) w1)
        ≡ ok (tt, w2)) where
    -- The id and the kernel stack of the child, its trap contexts, and its block.
    abbrev pub child_pid : ℕ
    child_pid = (Pid.alloc k.table.pids).0

    abbrev pub child_top : ℕ
    child_top = (Pid.kernel_stack_position child_pid).1

    abbrev pub child : Task r
    child = child_of r t child_pid m ppn child_top

    fork_world : r.World
    fork_world = r.set_trap_cx ppn (record (r.get_trap_cx ppn w2) { kernel_sp = child_top }) w2

    fork_table : Table r.MemorySet r.File
    fork_table = record k.table {
      pids = (Pid.alloc k.table.pids).1;
      tasks =
          change_task p (λ t. record t { children = t.children ++ child_pid ∷ [] })
            (child ∷ k.table.tasks);
    }

    fork_run : fork r p k ≡ ok (child_pid, record { world = fork_world; table = fork_table })
    unfolding fork pid_alloc on_table insert_task change_table borrow_mut modify_trap_cx lift
        fork_world fork_table
    fork_run =
        let k1 : Kernel r = record { world = w1; table = k.table } in
        let k2 : Kernel r = record {
          world = w1;
          table = record k.table { pids = (Pid.alloc k.table.pids).1 };
        } in
        rw
          (
            borrow_lem r p k t parent,
            lift_lem r (r.from_existed_user t.memory_set) k m w1 copied,
            trap_cx_frame_lem m k1 ppn mapped,
            kernel_stack_new_lem child_pid k2 w2 stacked,
          )
          refl

    module _ (run : Reachable r k) (small : k.table.pids.current + 1 < 2 ^ 64)
        (registers : (w : r.World) → length (r.get_trap_cx ppn w).x ≡ 32)
        (written : (cx : TrapContext) (w : r.World)
          → length cx.x ≡ 32
          → r.get_trap_cx ppn (r.set_trap_cx ppn cx w) ≡ cx) where
      fresh : total (lives child_pid) k.table.tasks ≡ 0
      fresh =
          (alloc_step k.table.pids (λ x. total (lives x) k.table.tasks)
            (let c = Reachable-IsConsistent r k run in c.ids) small).0

      child_ne_parent : child_pid ≢ p
      child_ne_parent h = omega (
        arith,
        fresh,
        lives_of_get p k.table.tasks t parent,
        ap (λ n. total (lives n) k.table.tasks) h,
      )

      child_there : get_task child_pid fork_table.tasks ≡ some child
      unfolding fork_table get_task
      child_there =
          let self : (child_pid == child_pid) ≡ true = eq→== _ _ refl in
          get-change_ne p (λ (u : Task r). record u { children = u.children ++ child_pid ∷ [] })
            child_pid (child ∷ k.table.tasks) child_ne_parent (λ _. refl)
          ∙ rw (self, if◌then◌else◌) refl

      parent_there :
          get_task p fork_table.tasks ≡ some (record t { children = t.children ++ child_pid ∷ [] })
      unfolding fork_table
      parent_there =
          get-change_self p (λ (u : Task r). record u { children = u.children ++ child_pid ∷ [] })
            (child ∷ k.table.tasks) t (get_tail p child k.table.tasks child_ne_parent ∙ parent)
            (λ _. refl)

      -- In each state that the steps lead to from the first process on, where a process runs and the
      -- counter of the ids is below its bound, the copy of the address space and the area of the
      -- kernel stack can be made, the page of the trap context is mapped in the copy, a context in it
      -- has 32 registers, and one of 32 registers that is written there can be read back: `fork`
      -- returns the id of a child, no process had it before, the child is the last in the queue and
      -- in the list of children, it has the open files of its parent, no children, and the trap
      -- context that was copied with 0 in register 10 and with the end of its kernel stack.
      pub sys_fork_lem :
          (k' : Kernel r) × (sys_fork r k ≡ ok (child_pid, k'))
          × (get_task child_pid k.table.tasks ≡ none)
          × (get_task child_pid k'.table.tasks ≡ some child)
          × (is_zombie child ≡ false)
          × (child.fd_table ≡ t.fd_table)
          × (child.children ≡ [])
          × (get_task p k'.table.tasks
              ≡ some (record t { children = t.children ++ child_pid ∷ [] }))
          × (k'.table.ready_queue ≡ k.table.ready_queue ++ child_pid ∷ [])
          × (k'.table.current ≡ some p)
          × (r.get_trap_cx ppn k'.world ≡ record (r.get_trap_cx ppn w2) {
            x = set (r.get_trap_cx ppn w2).x 10 0;
            kernel_sp = child_top;
          })
      unfolding sys_fork push_ready change_table add_task modify_trap_cx lift fork_world fork_table
      sys_fork_lem =
          let forked : Kernel r = record { world = fork_world; table = fork_table } in
          let cx = r.get_trap_cx ppn fork_world in
          let after : Kernel r = record {
            world = r.set_trap_cx ppn (record cx { x = set cx.x 10 0 }) fork_world;
            table = add_task child_pid fork_table;
          } in
          (
            after,
            rw
                (
                  current_task_lem r k p current,
                  fork_run,
                  borrow_lem r child_pid forked child child_there,
                )
                refl,
            get_of_none child_pid k.table.tasks fresh,
            child_there,
            refl,
            refl,
            refl,
            parent_there,
            refl,
            current,
            written (record cx { x = set cx.x 10 0 }) fork_world
                  (length-set {0} cx.x 10 0 ∙ registers fork_world)
                ∙ ap (λ (cx : TrapContext). record cx { x = set cx.x 10 0 })
                    (written (record (r.get_trap_cx ppn w2) { kernel_sp = child_top }) w2
                      (registers w2)),
          )
