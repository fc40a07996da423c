-- ===== src/Lib.antt =====
-- SarOS, a kernel for x86_64 in Rust: a verification library for its core.
--
-- The kernel boots through Limine, hands the memory map to the physical memory manager, and runs
-- processes and a shell on top of a scheduler, address spaces, a virtual file system and a few
-- drivers. The interrupt of the keyboard fills a ring buffer and wakes sleepers; the timer interrupt
-- ticks the scheduler; the page fault handler reads the areas of the current process; system calls
-- change the areas, the run queue and files; the file system calls one table of inode operations for
-- files in memory and for FAT32 partitions.
--
-- Which file is about which code:
--   Base        tests on numbers, lists and bytes, `Result` with its bind, bits of words
--   Keyboard    src/drivers/keyboard.rs: `KbBuffer`, modifiers, `process_scancode`
--   Pmm         src/mm/pmm.rs: `BuddyAllocator` (`alloc`, `free`, `add_region`), `init`
--   Heap        src/mm/heap.rs: slabs, caches, `alloc` and `dealloc`, over Pmm
--   VmSpace     src/mm/vmm.rs: `VmSpace`, `VmaEntry`, `handle_page_fault`; src/proc/fork.rs:
--               `clone_vmspace`; src/syscall.rs: `sys_mmap`, `sys_munmap`, `sys_brk`
--   Paging      src/mm/vmm.rs: `PageTable`, `AddressSpace`, `handle_page_fault` with its handlers; the
--               frames come from Pmm and the areas from VmSpace; src/proc/fork.rs:
--               `clone_address_space` and what it calls
--   Program     src/proc/exec.rs: `read_user_string`; src/proc/stack.rs: `build_user_stack`; over the
--               translation of Paging; src/proc/elf.rs: `is_valid_elf`, and `load_elf` up to its first
--               pass over the program headers
--   Scheduler   src/proc.rs: `RunQueue`, `schedule`, `tick`, sleep and wake up; src/proc/fork.rs:
--               `sys_waitpid` and its helpers; src/syscall.rs: `SYS_EXIT`
--   Fs.Vfs      src/fs/vfs.rs: inodes, `Stat`, directory entries, error numbers
--   Fs.RamFs    src/fs/ramfs.rs: directories, files and links in memory
--   Fs.Walk     src/fs/path.rs: resolution of paths
--   Fs.Mount    src/fs/mount.rs: `VfsContext`; src/fs/vfs.rs: `File`
--   Locks       src/sync/spinlock.rs: `SpinLock` and `RwSpinLock` as steps of threads
--   Fat32       src/fs/fat32.rs and src/fs/mbr.rs: the reader of FAT32 partitions
--
-- Page tables are words by frame and index. Their invariant `IsTree` names a function from frames to
-- places, so that two walks share a table only where they look up the same range of the same owner;
-- the upper half of every space belongs to the root of the kernel.
--
-- State is passed explicitly: an operation on `&mut self` takes the state and gives the new one, and
-- one on a shared inode takes the store of all inodes. Free lists, which the kernel threads through
-- the free blocks, are sequences of addresses; an `Arc` is the address of a node. In the other
-- components locks are left out: each operation runs while it holds the lock of its component. Where
-- the code gives the lock back in the middle, as `tick`, `sleep_current` and `SYS_EXIT` do, the sections
-- are definitions of their own, and Scheduler.Step lets interrupts come in between; there is one
-- processor. The link that `push` writes into the first word of a free block is not among the words of
-- the page tables: no table stands in a free frame, and a frame is cleared when it is given out.
--
-- Numbers are natural numbers. Where a sum of addresses can pass 2 ^ 64 it is written with `add64`,
-- which wraps as a release build does; the build script makes a debug build, which stops there, and the
-- theorems assume that such sums do not pass 2 ^ 64. Offsets in files and counters of inodes and
-- pages stay below that because of what memory can hold, and their sums are not wrapped.
--
-- Fuel: `find_order` and `split` count the orders, at most 13; `merge` the orders up to MAX_ORDER;
-- `add_blocks` the pages of the region, of which each round takes one or more; `resolve_inner` the 41
-- levels of links, past which the code answers error 40; `readdir_loop` the entries and one turn more;
-- `read_loop` the bytes and one turn more; `chain_from` the 1,000,001 clusters that the code allows;
-- `write_chunks` the bytes that are left; the loops over tables the entries of a table;
-- `order_from` 64 orders, of which a size below 2 ^ 64 needs no more.
--
-- Not modelled: `map_large` and `map_range`, which nothing calls, the registers and buffers of the
-- processor, the part of `load_elf` that maps and
-- fills the pages of segments, the system calls that move bytes of a process, the shell; and port I/O, descriptor tables, the
-- screen and assembly, which are no computations on data. A drive is a function from sectors to bytes.
pub mod Base
pub mod Keyboard
pub mod Pmm
pub mod VmSpace
pub mod Paging
pub mod Program
pub mod Scheduler
pub mod Fs
pub mod Fat32
pub mod Locks
pub mod Heap
