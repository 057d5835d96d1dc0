-- ===== src/Lib.antt =====
-- A model of the Pintos kernel of this repository (pintos/src), with what makes its core correct.
--
-- Thread (pintos/src/threads/thread.c) is the run queue and the scheduler: `Kernel` holds the static
-- variables, the thread pages and the semaphores by address, and each function with interrupts off is
-- one function to Option, `none` being a failed ASSERT. Synch (pintos/src/threads/synch.c) is the
-- semaphores on that state. System runs the threads together: a `Step` is a stretch of code of the
-- current thread with interrupts off, so a `Reach` is a schedule. `sema_down` is a loop that sleeps;
-- one round of it is a step, and `Pc` says which thread is in it. System/Invariant has the
-- invariant on the lists, System/Moved and System/Wakeups what a wakeup promises. Lock is the locks of
-- synch.c: acquire and release each in two parts, between which a thread can be preempted. Condition is
-- its condition variables; between two signals of a broadcast other threads run (`others`), and its
-- rounds are one more than the waiters.
--
-- Bitmap (pintos/src/lib/kernel/bitmap.c) has 32-bit elements, as on the machine the kernel is for;
-- a valid bitmap has at most 2^32 - 33 bits, the number below which `elem_cnt` does not wrap around.
--
-- Palloc (pintos/src/threads/palloc.c) is the page allocator on two bitmaps, with addresses below 2^32,
-- and FreeMap (pintos/src/filesys/free-map.c) the map of used sectors on one. A call is one
-- function: its work on the bitmap is under a lock, but for a free of pages, which takes none. A release
-- of sectors while the map's file is NULL is a panic.
--
-- Bufcache (pintos/src/filesys/bufcache.c) is the sector cache. A thread gives up `cache_lock` during
-- the device's read or write, so each stretch under the lock is a step, and steps of several threads
-- mix. `view` is the abstract device: what each sector holds.
--
-- Syscall (pintos/src/userprog/syscall.c) is the descriptors of a process and the kernel's table of
-- open files, with `struct global_file` on a heap of its own; what malloc and the file system answer
-- is an argument. `none` is a fault: freed or null memory, or past the end of an array.
--
-- Validate (the same file) is the checks of the number, the arguments and the strings of a call.
--
-- Process (pintos/src/userprog/process.c) is the record that a parent and its child share: `Call` says
-- what each may do next, and `Lives` is any order of that. Intq (pintos/src/devices/intq.c) is the ring
-- between an interrupt handler and the threads; `contents` is the queue it stands for.
--
-- Inode (pintos/src/filesys/inode.c) is where the bytes of a file stand and how they are read; a sector
-- is read through the cache as words or as bytes, which `Disk` gives. The loop of a read or a write has
-- as many rounds as bytes at most, which is its fuel. Inode/Table is the list of open inodes, and
-- `TableStep` what threads do to it, with the gap that inode_open leaves between search and insertion.
-- Inode/Growth gives a file its sectors, over what a map of sectors promises (`SectorMap`), and
-- Inode/Growth/Mapped fills that with FreeMap; a call of free_map_allocate gets one sector, and
-- whether it could write the map is a given sequence. Inode/Growth/Writes is inode_write_at whole.
-- Inode/Turns is who may read, write and deny writes when, as steps of any number of threads, which
-- it counts; `Places` says where they are. inode_allow_write takes no lock, and has two halves,
-- `allow_load` and `allow_store`; a step of `TurnStep` is both, and Inode/Turns/Race parts them.
--
-- File (pintos/src/filesys/file.c) is an open file's position over that, a 32-bit pattern.
--
-- Links (pintos/src/lib/kernel/list.c) is the kernel's lists, whose links are in their elements: memory
-- gives the two pointers of each address. Other parts have a list of addresses in their place.
-- `list_size` runs a round for each element and one more.
--
-- Directory (pintos/src/filesys/directory.c) is a directory as the list of its entries, each found by
-- its index in place of its offset; whether the file can grow is an argument.
--
-- Loader (pintos/src/userprog/process.c) is the loading of the segments of an ELF file into an address
-- space, which gives a page's bytes by its address, and Loader/Stack the stack that a process
-- starts with. The rounds of the loop over pages are the pages, and one more. Strings
-- (pintos/src/lib/string.c) is the string functions, on the bytes before the NUL, and Strings/Memory the
-- functions on blocks and strings in memory, where a loop to a NUL looks at a given number of bytes
-- at most, and a string in the memory has fewer.
--
-- Common has the Boolean tests, the lists over the native numbers, the bits of a word, and ASSERT.
-- Loops over a range are recursion on the number of rounds left, which the code's own bound gives, so
-- no fuel runs out. Unsigned arithmetic is taken modulo 2^32 where the code relies on no bound.
--
-- Not modelled: the devices and their drivers, the boot code, page tables, the ELF header, and
-- what prints. Of the parts modelled, the contents of thread stacks and the printed names are left out.
pub mod Common
pub mod Bitmap
pub mod Palloc
pub mod FreeMap
pub mod Thread
pub mod Synch
pub mod System
pub mod Lock
pub mod Condition
pub mod Bufcache
pub mod Syscall
pub mod Validate
pub mod Process
pub mod Intq
pub mod Inode
pub mod File
pub mod Loader
pub mod Links
pub mod Directory
pub mod Strings
pub mod Tests
