-- ===== src/Tests.antt =====
-- Concrete inputs for the theorems.
pub mod Files
pub mod Disks
pub mod Allocation
pub mod Directory
pub mod Kernel
pub mod Processes
pub mod Calls
pub mod Memory
