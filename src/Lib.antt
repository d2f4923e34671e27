-- ===== src/Lib.antt =====
-- A verification library for the kernel of RISC-V-OS, a small Unix-like system for 32-bit RISC-V.
--
-- The kernel is one program of threads that run kernel code on behalf of processes. Interrupt
-- nesting and spinlocks (src/kernel/locks.c) protect every shared structure; the process table
-- (src/kernel/process.c) puts threads to sleep and wakes them; pipes (src/kernel/pipes.c) are rings
-- of bytes between processes that sleep when a ring is full or empty; the page allocator
-- (src/kernel/pmm.c) gives pages to all of them, and page tables (src/kernel/paging.c) are built
-- from such pages; the file system (src/kernel/filesys.c) writes its blocks through a log, takes
-- them from a bitmap, and makes inodes, directories and paths of them; open files
-- (src/kernel/file.c) stand for pipes and inodes.
--
-- Files:
--   Base      shared names, Boolean tests, lists, single bits, functions updated at an index, and
--             `Outcome`, which is how a kernel routine ends: it returns, it panics, its thread stays
--             asleep or spinning, or it leaves the object that it works on.
--   Locks     src/kernel/locks.c: `lock_intr_disable`, `lock_intr_enable`, `acquire_lock`,
--             `release_lock`, `is_holding`. Intr has the nesting of interrupts, Spin what a lock
--             promises to one hart, Mutex several harts interleaved at one lock.
--   Process   src/kernel/process.c: the process table with `wakeup`, `kill`, `reparent`, `sleep`,
--             `scheduler` and `yield_process`. Wakeup and Sleep hold what they promise.
--   Pipe      src/kernel/pipes.c: `pipewrite`, `piperead`, `pipe_close`. Ring reads a pipe as a
--             bounded queue, Critical has its lock; Write, Read and Close say what the operations do to
--             that queue, Stream what a writer and then a reader make together.
--   Pmm       src/kernel/pmm.c: `kalloc` and `kfree` over a bitmap. Alloc and Free.
--   Cache     src/kernel/bufcache.c with the sleeplocks of src/kernel/locks.c: the circular list of
--             buffers by its link fields. Chain reads the links as a list of buffers, Get chooses a
--             buffer, Fill and Read have `buffer_read`, Release has `buffer_init` and `buffer_release`.
--   Log       src/kernel/filesys.c: the logging layer from `init_log` to `commit`. Blocks and
--             Commit, Recover, Write (`log_write`), Operation (`begin_op`).
--   Bitmap    src/kernel/filesys.c: `buffer_alloc`, `buffer_zero` and `buffer_free` over the log.
--             Grant and Alloc, and Free.
--   Libc      src/libc/string: `memset`, `memcpy`, `memmove`, `memcmp`, `strlen`, `strcpy`, `strncmp`.
--             Move, Strings and Compare.
--   PathName  src/kernel/filesys.c: `skip_elem`, over the memory of Libc. Element.
--   Paging    src/kernel/paging.c over an interface `Allocator`. View reads a page table as a map of
--             pages, Entry and Extend write one entry and link one table, Drawn and Map have `map_pages`,
--             Unmap `uvmunmap` and `uvmdealloc`, Pages fills the interface with Pmm, Copy and Copyout have
--             the copies between user and kernel memory, Space the address space of a process
--             (`proc_pagetable`, `growproc` and `proc_freepagetable` of src/kernel/process.c).
--   Inode     src/kernel/filesys.c: the inode table and the disk inodes. Table has `inode_get`, Update
--             `inode_update` and `inode_lock`, Fresh `buffer_alloc` as these functions see it,
--             Addresses and Mapping `buffer_map`, Content `read_inode`.
--   Directory src/kernel/filesys.c: `dir_lookup`, `dir_link` and `name_fetch`. Lookup.
--   File      src/kernel/file.c over Pipe, Inode and Log. Transfer has `read_file` and `write_file`,
--             Table the counts of references, Offset the file as it is read, Rounds the loop of
--             `write_file`; Creation is `pipealloc` of src/kernel/pipes.c and Ends what it opens.
--   SysFile   src/kernel/sysfile.c over File and Directory: the calls on descriptors. Tree has
--             `create`, `sys_mkdir`, `sys_mknod` and `sys_chdir`, Links `sys_link` and `sys_unlink`,
--             Open `sys_open`, Pipes `sys_pipe`; Descriptors says what `fdalloc` and `sys_dup` promise.
--   SysCall   src/kernel/syscall.c over Paging: arguments and dispatch; with `either_copyin` and
--             `either_copyout` of src/kernel/process.c. Dispatch has the bound of `fetchaddr`.
-- Each of them has a module Tests with runs at concrete states.
--
-- How the code is read: a structure is a record, an address a natural number, a 32-bit counter a
-- natural number with its wrap-around written out. Code that other threads run while a thread
-- sleeps or spins is a list of functions on the shared state; when the list is at its end the
-- thread stays asleep, which is an outcome of its own. A loop is a recursion on the number of
-- rounds left. Few loops have a bound that the code does not give: the walk along the
-- list of buffers has one round more than there are buffers, and on a whole list ends before the
-- last of them; the loops over strings have theorems that ask for more rounds than the string has
-- bytes; a range of pages has at most 2 ^ 20 rounds; the loops of `copyout`, `read_inode` and
-- `write_file` have one round more than there are bytes, of which every round moves at least one;
-- those along a directory have two more than it has entries. A loop that runs out of rounds is
-- `asleep`. `panic` prints and loops for ever and is an outcome.
-- Calls into page tables (`copyto`, `copyout`) are parameters of the functions on pipes, inodes
-- and files, and the buffer cache is a family of blocks under the log; its copies of whole blocks
-- are modelled as exact copies of the block (Libc has the copying functions themselves, of which
-- `memmove` to a lower address writes one byte more). The one byte more that `inode_update` or
-- `inode_lock` writes is modelled, on either order of the buffers and the inode table in memory.
-- `wakeup` runs over the process table wherever the functions on pipes and files call it.
--
-- Not modelled: assembly, control registers and device registers; names of locks, which are only
-- printed; the panic of `buffer_read` when all buffers are pinned, seen from the log; `exec`;
-- the console, the user programs and the image tool; creating, forking and ending
-- processes. src/kernel/kalloc.c and src/kernel/myuart.c are not in the build.
pub mod Base
pub mod Locks
pub mod Process
pub mod Pipe
pub mod Pmm
pub mod Log
pub mod Bitmap
pub mod Cache
pub mod Libc
pub mod PathName
pub mod Paging
pub mod Inode
pub mod Directory
pub mod File
pub mod SysFile
pub mod SysCall
