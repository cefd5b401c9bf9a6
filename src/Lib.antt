-- ===== src/Lib.antt =====
-- The file system easy-fs and the kernel os of the rCore tutorial.
--
-- easy-fs, from the device upwards:
--   * easy-fs/src/block_dev.rs, block_cache.rs: EasyFs/BlockCache.antt. The device is a parameter, a
--     record with its operations and the law that a block that is written is read back. The cache is
--     the queue of `BlockCacheManager`; an `Arc` is its reference count. `view` is what the users of
--     the cache see, and all parts above work on it as on an array of blocks (`Disk`).
--   * easy-fs/src/bitmap.rs: EasyFs/Bitmap.antt.
--   * easy-fs/src/layout.rs: EasyFs/Layout/SuperBlock.antt, Inode.antt (`DiskInode` and its bytes),
--     Index.antt (`get_block_id`), Size.antt (`total_blocks`, `blocks_num_needed`), Data.antt
--     (`read_at`, `write_at`), Grow.antt (`increase_size`, `build_tree`), Shrink.antt (`clear_size`,
--     `collect_tree_blocks`), DirEntry.antt.
--   * easy-fs/src/efs.rs: EasyFs/Efs.antt. `open` is `open_fs`.
--   * easy-fs/src/vfs.rs: EasyFs/Vfs.antt.
-- os, memory:
--   * os/src/mm/address.rs: Os/Mm/Address.antt; os/src/mm/frame_allocator.rs:
--     Os/Mm/FrameAllocator.antt; os/src/mm/page_table.rs: Os/Mm/PageTable.antt (physical memory is
--     the entries of its frames; `map` is `map_page`) and Os/Mm/UserBuffer.antt (buffers of a
--     process; a slice is a frame with two ends).
--   * os/src/mm/memory_set.rs: Os/Mm/MapArea.antt, Os/Mm/MemorySet.antt and Os/Mm/Load.antt
--     (`from_elf`, `new_kernel`). A `FrameTracker` is the number of its frame; a set or an area that
--     is dropped gives its frames back one by one. What the ELF parser finds and the symbols of the
--     linker are parameters.
-- os, processes:
--   * os/src/task: Os/Task/Control.antt (task.rs, context.rs), Pid.antt (pid.rs), Table.antt
--     (manager.rs, processor.rs), Kernel.antt (the state of all and what the processes need),
--     Process.antt (task.rs, mod.rs, processor.rs). An `Arc` of a task is the id of its process, and
--     `strong_count` counts the places that hold it. What a process does with memory and files is the
--     record `Resources`, which Machine.antt fills with the memory sets and the open files.
--     Lifecycle.antt has the steps of the machine and the states that they reach.
--   * os/src/syscall/process.rs: Os/Task/Wait.antt; os/src/trap/context.rs: Os/Trap.antt.
-- os, files:
--   * os/src/fs/inode.rs: Os/Fs/OsInode.antt, on top of EasyFs/Vfs.antt; os/src/fs/stdio.rs:
--     Os/Fs/File.antt; os/src/syscall/fs.rs: Os/Fs/Descriptor.antt. An open file that several
--     processes share is its number in a table.
-- Base.antt has the tests, lists, monad and counting lemmas that these share; Tests has the theorems
-- at concrete inputs.
--
-- Conventions. Numbers are natural numbers; a `u32` or `usize` that may wrap around keeps its
-- remainder. A panic (a failed assertion, an index out of bounds, `unwrap` of `None`) is the result
-- `panic`. A block is a function from offsets to bytes; structs that lie in a block are read and
-- written through their bytes. The loops of `read_at` and `write_at` run on fuel, the number of
-- bytes left (and one more for a write), which is enough since a round moves at least one byte; the
-- theorems on them give a result `ok`, never the lack of fuel. The iteration over a range of pages has
-- one round more as its fuel than there are pages. Other loops are by their count.
--
-- Fuel of os: the loop of `translated_byte_buffer` and the iteration over a buffer have one round
-- more than there are bytes, `copy_data` one more than there are full pages; `read_all` and
-- `translated_str` take their fuel as an argument, and more rounds than there are bytes left, or the
-- length of the text, are enough (Machine.antt gives `read_all` the size of the file and one more).
-- A read of standard input waits as long as no character comes.
--
-- Not modelled: locks (a cached block that a closure holds is not locked a second time) and cells (a
-- second borrow of an `UPSafeCell` panics), the debug output, and, in os, the registers, the switch of
-- tasks and the assembly, the dispatch of system calls and traps, the timer, the drivers, the firmware and
-- the heap.

pub mod Base
pub mod EasyFs
pub mod Os
pub mod Tests
