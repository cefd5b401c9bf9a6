-- ===== src/Os/Mm.antt =====
-- Memory management, os/src/mm.
pub mod Address
pub mod FrameAllocator
pub mod PageTable
pub mod UserBuffer
pub mod MapArea
pub mod MemorySet
pub mod Load
