-- ===== src/EasyFs.antt =====
-- The file system of easy-fs.
pub mod Block
pub mod Bitmap
pub mod BlockCache
pub mod Layout
pub mod Efs
pub mod Vfs
