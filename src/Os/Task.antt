-- ===== src/Os/Task.antt =====
-- os/src/task: processes.
pub mod Pid
pub mod Control
pub mod Table
pub mod Kernel
pub mod Process
pub mod Wait
pub mod Totals
pub mod Consistent
pub mod Transitions
pub mod Ending
pub mod Zombies
pub mod Reaping
pub mod Effects
pub mod Calls
pub mod Search
pub mod Waiting
pub mod Lifecycle
pub mod Preservation
pub mod Fairness
pub mod Waitpid
pub mod RoundRobin
pub mod Exit
pub mod Fork
pub mod Machine
