-- ===== src/Os/Task/Reaping.antt =====
-- `waitpid`: a child that has ended has no reference but that of its parent, and its removal keeps
-- the invariant.
use r_core_tutorial_code.Base.{
  ℕ, ◌+◌, ◌≡◌, ◌≢◌, refl, ap, sym, arith, ◌∙◌, true, false, none, some, List, [], ◌∷◌,
  if◌then◌else◌, ok, get_elem?,
}
use r_core_tutorial_code.Base.Count.{count, one, one_self, one_ne, count_nothing}
use r_core_tutorial_code.Os.Task.Pid
use r_core_tutorial_code.Os.Task.Pid.Uniqueness.{drop_step, below-le}
use r_core_tutorial_code.Os.Task.Control.{
  TaskControlBlock, is_zombie, get_task, change_task, free_task, total,
}
use r_core_tutorial_code.Os.Task.Totals.{
  lives, runs, kids, lost, total-change, total-free, get-change_ne, get_pid, get_of_none,
  runs-le-lives,
}
use r_core_tutorial_code.Os.Task.Table.{Table, strong_count}
use r_core_tutorial_code.Os.Task.Consistent.{IsConsistent, unique}
use r_core_tutorial_code.Os.Task.Zombies.{count-remove_at}
use r_core_tutorial_code.Os.Task.Process.{remove_at}

module _ {M F : Type 0} where
  abbrev pub remove_child : ℕ → TaskControlBlock M F → TaskControlBlock M F
  remove_child idx t = record t { children = remove_at t.children idx }

  -- The table without the child `c` at the place `idx` of the children of `p`.
  abbrev pub reaped : ℕ → ℕ → ℕ → Table M F → Table M F
  reaped p idx c s = record s {
    pids = record s.pids { recycled = c ∷ s.pids.recycled };
    tasks = free_task c (change_task p (remove_child idx) s.tasks);
  }

  module _ (s : Table M F) (p idx c : ℕ) (t z : TaskControlBlock M F) (consistent : IsConsistent s)
      (parent : get_task p s.tasks ≡ some t) (running : is_zombie t ≡ false)
      (listed : get_elem? t.children idx ≡ some c) (child : get_task c s.tasks ≡ some z)
      (over : is_zombie z ≡ true) where
    -- The table once the child is off the list.
    listless : List (TaskControlBlock M F)
    listless = change_task p (remove_child idx) s.tasks

    listless_totals :
        (x : ℕ)
        → (total (lives x) listless ≡ total (lives x) s.tasks)
          × (total (runs x) listless ≡ total (runs x) s.tasks)
          × (total (kids x) listless + one x c ≡ total (kids x) s.tasks)
          × (total (lost x) listless ≡ total (lost x) s.tasks)
    unfolding listless
    listless_totals x =
        let by =
          λ (m : TaskControlBlock M F → ℕ). total-change m p (remove_child idx) s.tasks t parent in
        let left : lost x (remove_child idx t) ≡ lost x t = rw (running, if◌then◌else◌) refl in
        (
          omega (arith, by (lives x)),
          omega (arith, by (runs x)),
          omega (arith, by (kids x), count-remove_at c x t.children idx listed),
          omega (arith, by (lost x), left),
        )

    child_ne_parent : c ≢ p
    child_ne_parent h =
        let e : some z ≡ some t = sym child ∙ ap (λ n. get_task n s.tasks) h ∙ parent in
        let q : z ≡ t = cc in
        let f : true ≡ false = sym over ∙ ap is_zombie q ∙ running in absurd cc

    pub child_there : get_task c (change_task p (remove_child idx) s.tasks) ≡ some z
    unfolding listless
    child_there = get-change_ne p (remove_child idx) c s.tasks child_ne_parent (λ _. refl) ∙ child

    child_pid : one c z.pid ≡ 1
    child_pid = rw (get_pid c s.tasks z child) (one_self c)

    child_sums :
        (total (lives c) s.tasks ≡ 1)
        × (total (runs c) s.tasks ≡ 0)
        × (total (kids c) s.tasks ≡ 1)
        × (c ≢ 0)
    child_sums =
        let one_at_most = unique s c consistent in
        let ts = s.tasks in
        let root = consistent.root in
        let self = child_pid in
        let stopped : runs c z ≡ 0 = rw (over, if◌then◌else◌) refl in
        let lives_one : total (lives c) ts ≡ 1 = omega (arith, total-free (lives c) c ts z child) in
        let runs_none : total (runs c) ts ≡ 0 = omega (
          arith,
          total-free (lives c) c ts z child,
          total-free (runs c) c ts z child,
          runs-le-lives c (free_task c ts),
        ) in
        let ne : c ≢ 0 = λ h. omega (arith, listless_totals 0, one_self 0, ap (one 0) h) in
        (lives_one, runs_none, consistent.kept c ne ∙ lives_one, ne)

    -- No child of the child is left.
    pub child_alone : z.children ≡ []
    child_alone = count_nothing z.children λ x.
        let all : lost x z ≡ count x z.children = rw (over, if◌then◌else◌) refl in
        omega (arith, consistent.ended x, total-free (lost x) c s.tasks z child)

    -- The assertion in `waitpid`.
    pub child_unshared :
        strong_count c (record s { tasks = change_task p (remove_child idx) s.tasks }) ≡ 0
    unfolding strong_count listless
    child_unshared =
        let (_, stopped, listed_once, ne) = child_sums in
        omega (arith, consistent.queued c, listless_totals c, one_self c, one_ne c 0 ne)

    -- The id of the child is given back.
    pub child_dealloc : Pid.dealloc s.pids c ≡ ok (record s.pids { recycled = c ∷ s.pids.recycled })
    child_dealloc =
        let (there, _, _, _) = child_sums in
        let pid = get_pid c s.tasks z child in
        (drop_step s.pids (λ x. total (lives x) s.tasks)
          (λ x. total (lives x) (free_task c s.tasks)) c consistent.ids (omega arith)
          (λ x. omega (arith, total-free (lives x) c s.tasks z child, ap (one x) pid))).0

    pub reap-IsConsistent : IsConsistent (reaped p idx c s)
    unfolding listless count
    reap-IsConsistent =
        let us = free_task c listless in
        let (there, _, _, ne) = child_sums in
        let pid = get_pid c s.tasks z child in
        let by = λ (m : TaskControlBlock M F → ℕ). total-free m c listless z child_there in
        let same = λ (x : ℕ). ap (one x) pid in
        let first = consistent.first in
        let root = consistent.root in
        let stopped = λ (x : ℕ). let h : runs x z ≡ 0 = rw (over, if◌then◌else◌) refl in h in
        let kid_lost =
          λ (x : ℕ). let h : lost x z ≡ count x z.children = rw (over, if◌then◌else◌) refl in h in
        let kid_kids = λ (x : ℕ). let h : kids x z ≡ count x [] = ap (count x) child_alone in h in
        record {
          ids =
              (drop_step s.pids (λ x. total (lives x) s.tasks) (λ x. total (lives x) us) c
                consistent.ids (omega arith)
                (λ x. omega (arith, by (lives x), listless_totals x, same x))).1;
          kept = λ x n. omega (
            arith,
            consistent.kept x n,
            by (lives x),
            by (kids x),
            listless_totals x,
            same x,
            kid_kids x,
          );
          root = omega (arith, by (kids 0), listless_totals 0);
          queued =
              λ x. omega (arith, consistent.queued x, by (runs x), listless_totals x, stopped x);
          ended = λ x. omega (arith, consistent.ended x, by (lost x), listless_totals x);
          first = omega (arith, by (runs 0), listless_totals 0, stopped 0);
        }

    -- The block is gone, and its id is free, once.
    pub child_gone :
        (get_task c (reaped p idx c s).tasks ≡ none)
        × (count c (reaped p idx c s).pids.recycled ≡ 1)
    unfolding listless count
    child_gone =
        let (there, _, _, _) = child_sums in
        let none_left : total (lives c) (free_task c listless) ≡ 0 =
          omega
            (arith, listless_totals c, child_pid, total-free (lives c) c listless z child_there) in
        (
          get_of_none c (free_task c listless) none_left,
          omega (arith, consistent.ids c, one_self c, below-le s.pids.current c),
        )
