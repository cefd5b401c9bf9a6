-- ===== src/Os.antt =====
-- The kernel, os/src.
pub mod Mm
pub mod Fs
pub mod Task
pub mod Trap
