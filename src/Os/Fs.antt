-- ===== src/Os/Fs.antt =====
-- Open files, os/src/fs, and the system calls on them, os/src/syscall/fs.rs.
pub mod OsInode
pub mod File
pub mod Descriptor
