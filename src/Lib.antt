-- ===== src/Lib.antt =====
-- Garn OS: memory management, the kernel heap, files and file systems, the buffers and partitions of
-- drives, processes, the scheduler, lists, byte and string routines, number printing, the calendar and
-- the keyboard buffer of the kernel.
--
-- A process asks for memory with `sys_mmap`; the call searches the page tables of the process for free
-- pages, takes a frame from the physical memory manager for each, and enters it in the tables. Tables
-- that are missing on the way are frames of the same manager. `sys_munmap` walks the other way.
--
-- A path is followed from the root file system over the mounted ones, each of which looks up names and
-- reads files by its own operations: the ramdisk from memory, FAT from a partition of a drive, whose
-- tables are read through the buffer cache.
--
--   Prelude           names of the libraries, Boolean tests, lists, bits of a byte, and `Run`, the
--                     result of code that may stop in `panic`, and `Exec`, that of code that follows
--                     pointers; `Words` has 64-bit arithmetic, `Distinct` lists without repetition
--   Memmap            kernel/mem/memmap/memmap.c: the boot loader's memory map, a list of entries.
--   Pmm               kernel/mem/pmm/pmm.c: the bitmap of frames. `Pmm` holds the static variables
--                     `bitmap`, `bitmapSize`, `freePages`, `usedPages`, `usablePages`; `visit`,
--                     `scan_byte` and `scan_bytes` are the body and the two loops of `pmm_find_free`,
--                     `retry` what follows the first pass; each other function has its name in C. `Boot` is
--                     `pmm_init`: `find_bitmap`, `clear_entries` and `take_bitmap` are its loops.
--   Paging            kernel/arch/x86_64/mm.c, and from kernel/mem/vmm/paging.c `vmm_map` and
--                     `vmm_map_range`. `Tables` gives the entries of the table in a frame, since the
--                     code reaches a table at its frame plus the bootloader's offset; `next_table` is
--                     the step that `arch_mm_map` repeats for three levels.
--   Vaspace           kernel/mem/vmm/vaspace.c: `sys_mmap` and `sys_munmap`. `find_area` is the search
--                     of `sys_mmap`, `finish_mmap` and `back_area` what it does on success.
--   Kheap             kernel/mem/kheap/kheap.c: the block headers of the kernel heap, on pages of `Pmm`.
--                     `kmalloc_loop` is the search of `kmalloc`; `join_next` and `join_prev` are the two
--                     tests of `kmfree`, which do the same work, `absorb`.
--   Time              kernel/sys/time.c: the clock, calendar dates and seconds since 1970. The years are
--                     bounded so that no `int` of the calendar overflows.
--   Input             kernel/sys/term/input.c: the keyboard state and the ring of typed characters.
--   Memutil           kernel/mem/memutil/memutil.c: `memcpy`, `memset`, `memmove`, `memcmp`, `strlen`,
--                     `strcmp`, `strncmp` and `strncat`, on a memory that gives the byte at each
--                     address; `append_up` is the second loop of `strncat`.
--   Kvprintf          kernel/klibc/kstdio/kvprintf.c: the walk over the format (`format_from`), the
--                     `switch` (`convert`), and the loops that write numbers, `decimal_size`,
--                     `write_signed`, `write_decimal` and `write_hex`.
--   LinkedList        kernel/ds/list.c: lists on a heap of nodes. `remove_loop` and `unlink` are the loop
--                     and the `if` that `list_remove` and `list_remove_index` share.
--   Sched             kernel/process/sched/sched.c: the thread list, a `LinkedList`, and the choice of
--                     the next thread; `switch_thread` is a round from `checkready` on.
--   Processes         kernel/process/process.c: the list of processes, `sys_fork`, `sys_exit`, `sys_waitpid`
--                     and `process_free`. `find_child` is a pass of `sys_waitpid`, `copy_files` and
--                     `drop_files` are the loops over the descriptors.
--   Files             kernel/sys/fal/vnode.c: `Path` for `vnode_get_absolute_path`, `Vnodes` for vnodes
--                     and lookup over the operations of a file system (`Driver`), `Descriptors` for
--                     the descriptor table and the system calls on it. `find_and_open` is `sys_open`
--                     from its label on.
--   Mounts            kernel/sys/fal/vfs.c: the list of mounted file systems. `mount_system`,
--                     `mount_root` and `mount_over` are the three ways of `vfs_mount`.
--   Initrd            kernel/sys/fal/initrd/initrd.c: the ramdisk. `find_header` is the walk of
--                     `initrd_lookup`, `open_header` what it does with a file.
--   Bcache            kernel/sys/dal/stor/bcache.c: the list of buffers. `find_buf` is each loop of
--                     `bcache_get`, `load_buf` the body of the second one.
--   Partitions        kernel/sys/dal/stor/part/gpt.c: `scan_table` and `scan_block` are the loops of
--                     `gpt_initialise_drive`, `add_entry` what it does with a used entry. `behind` gives
--                     the bytes behind the data of a buffer, in which an entry that is cut too short
--                     is read.
--   Fat               modules/fat/fat.c and modules/fat/file.c: the chain of clusters and `fat_read`, whose
--                     three loops are `read_clusters`, `read_sectors` and `copy_sector`.
--   Tests             runs on small states, and each theorem at one of them.
--
-- Locks are held over whole functions of Pmm and Paging, so a call is one step of the state. The loops
-- of the code are structural recursion: on the list of bytes, or on the number of rounds left, which
-- the caller computes from the bound of the loop (`rounds`), so no fuel can run out. The
-- exceptions are the second pass of `pmm_find_free`, which the code enters at most once after a failed
-- first pass, `strlen`, which takes a bound and succeeds with any bound above the length, and
-- `decimal_size`, where 20 rounds are enough since 2 ^ 64 < 10 ^ 20. Loops over nodes take fuel above the
-- length of the list, and that over a path fuel above `PATH_MAX`; without fuel the outcome is `spent`,
-- which no result is. `kmalloc` calls itself once after it got pages, so two rounds are enough;
-- `sys_waitpid` takes as many passes as its fuel says, between which other processes run. An access to
-- memory that was given back, and a name written past its buffer, is a `fault`.
-- Addresses are natural numbers; where the code wraps at 64, 51 or 32 bits the definitions take the
-- remainder, and elsewhere the theorems' conditions bound them.
--
-- Not modelled: the contents of frames other than page tables (the frames that `pmm_free` fills with
-- 0xff are a log, `fills`); new, cloned, cleared and destroyed address spaces; the first process and
-- `sys_execve`; the directories of FAT; devices, drivers and the list of drives; the hardware (the
-- `read` and `write` of a drive are parameters); the copy of the uACPI library.
pub mod Prelude
pub mod Memmap
pub mod Pmm
pub mod Paging
pub mod Vaspace
pub mod Time
pub mod Input
pub mod Kvprintf
pub mod Memutil
pub mod Kheap
pub mod LinkedList
pub mod Sched
pub mod Processes
pub mod Bcache
pub mod Partitions
pub mod Fat
pub mod Initrd
pub mod Files
pub mod Mounts
mod Tests
