-- ===== src/EasyFs/Layout.antt =====
-- easy-fs/src/layout.rs: the structures on the disk, and the operations of a disk inode.
pub mod SuperBlock
pub mod Inode
pub mod Index
pub mod Size
pub mod Data
pub mod Grow
pub mod Shrink
pub mod DirEntry
