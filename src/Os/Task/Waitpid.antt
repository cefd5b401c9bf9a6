-- ===== src/Os/Task/Waitpid.antt =====
-- os/src/syscall/process.rs: every end of `sys_waitpid`.
use r_core_tutorial_code.Base.{
  ℕ, ◌<◌, ◌≡◌, ap, sym, ◌∙◌, true, false, none, some, [], ◌⊎◌, inl, inr, ok, Option-cases,
  Bool-cases, get_elem?,
}
use r_core_tutorial_code.Base.Count.{count}
use r_core_tutorial_code.Os.Task.Pid.KernelStack.{stack_page}
use r_core_tutorial_code.Os.Task.Control.{is_zombie, get_task}
use r_core_tutorial_code.Os.Task.Kernel.{Resources, Kernel, Task, minus_one, minus_two}
use r_core_tutorial_code.Os.Task.Process.{means, any_child, find_zombie}
use r_core_tutorial_code.Os.Task.Wait.{sys_waitpid}
use r_core_tutorial_code.Os.Task.Reaping.{reaped, child_alone, child_gone}
use r_core_tutorial_code.Os.Task.Search.{
  any_child-false, any_child-true, find_zombie-some, find_zombie-none, has_ended-true,
  has_ended-false,
}
use r_core_tutorial_code.Os.Task.Waiting.{
  after, waitpid_no_child, waitpid_running, waitpid_reap, reap_lem,
}
use r_core_tutorial_code.Os.Task.Lifecycle.{Reachable}
use r_core_tutorial_code.Os.Task.Preservation.{running_block, Reachable-IsConsistent}

module _ (r : Resources) where
  -- In each state that the steps lead to from the first process on, where a process runs, no
  -- assertion in `waitpid` fails. Where the argument means no child of the process, the result is
  -- -1; where it means one and each one that it means has not ended, the result is -2; the state
  -- stays. Otherwise `waitpid` takes a child from the list that the argument means, that has ended and
  -- has no children. It writes the exit code of the child, removes its kernel stack and then its
  -- address space, and panics when one of these three calls does. When they return, so does
  -- `waitpid`, with the id of the child; the block of the child is gone then, its id can be given out
  -- again, and the rest of the table is as before but for the list of children.
  pub sys_waitpid_lem :
      (k : Kernel r) (p pid ptr : ℕ) (t : Task r)
      → Reachable r k
      → k.table.current ≡ some p
      → get_task p k.table.tasks ≡ some t
      → (((c : ℕ) → 0 < count c t.children → means pid c ≡ false)
          × (sys_waitpid r pid ptr k ≡ ok (minus_one, k)))
        ⊎ (((c : ℕ) × (0 < count c t.children) × (means pid c ≡ true))
            × ((c : ℕ) (z : Task r)
                → 0 < count c t.children
                → means pid c ≡ true
                → get_task c k.table.tasks ≡ some z
                → is_zombie z ≡ false)
            × (sys_waitpid r pid ptr k ≡ ok (minus_two, k)))
        ⊎ ((c : ℕ) × (idx : ℕ) × (z : Task r) × (get_elem? t.children idx ≡ some c)
            × (means pid c ≡ true)
            × (get_task c k.table.tasks ≡ some z)
            × (is_zombie z ≡ true)
            × (z.children ≡ [])
            × (sys_waitpid r pid ptr k
                ≡ after (r.write_translated (r.token t.memory_set) ptr z.exit_code k.world) (λ w1.
                  after (r.remove_area_with_start_vpn (stack_page c) w1) (λ w2.
                    after
                      (r.drop_memory z.memory_set w2)
                      (λ w. ok (c, record { world = w; table = reaped p idx c k.table })))))
            × (get_task c (reaped p idx c k.table).tasks ≡ none)
            × (count c (reaped p idx c k.table).pids.recycled ≡ 1))
  sys_waitpid_lem k p pid ptr t run current parent =
      let s = Reachable-IsConsistent r k run in
      let (t', g, same, z') = running_block r k p s current in
      let eq : some t' ≡ some t = sym g ∙ parent in
      let te : t' ≡ t = cc in
      let awake : is_zombie t ≡ false = ap is_zombie (sym te) ∙ z' in
      elim (Bool-cases (any_child pid t.children)) [
        | inr none_meant ↦ inl (
          any_child-false pid t.children none_meant,
          waitpid_no_child r k p pid ptr t current parent none_meant,
        )
        | inl meant ↦ elim (Option-cases (find_zombie pid k.table.tasks t.children)) [
          | inl running ↦ inr (
              inl (
                any_child-true pid t.children meant,
                λ c z there m child.
                    has_ended-false k.table.tasks c z
                      (find_zombie-none k.table.tasks pid t.children running c there m) child,
                waitpid_running r k p pid ptr t current parent meant running,
              ))
          | inr (idx, found) ↦
              let (c, listed, m, over) = find_zombie-some k.table.tasks pid t.children idx found in
              let (z, child, ended) = has_ended-true k.table.tasks c over in
              let (gone, freed) =
                child_gone k.table p idx c t z s parent awake listed child ended in
              inr (
                inr (
                  c,
                  idx,
                  z,
                  listed,
                  m,
                  child,
                  ended,
                  child_alone k.table p idx c t z s parent awake listed child ended,
                  waitpid_reap r k p pid ptr t current parent idx meant found
                      ∙ reap_lem r k p idx c ptr t z s parent awake listed child ended,
                  gone,
                  freed,
                ))
        ]
      ]
