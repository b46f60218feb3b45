-- ===== src/Lib.antt =====
-- A verification of parts of SBUNIX, a 64-bit teaching kernel. Paths are from the repository's root.
--
-- The program. The kernel (SBUNIX-C-H/sys) starts from a boot loader's memory map, manages physical
-- blocks of 4096 bytes by a bitmap, maps them by four levels of page tables that map themselves
-- through entry 510, runs threads from one run queue that the timer's interrupt and `Yield` drive,
-- reads lines from the keyboard's interrupt into a buffer that a waiting reader polls, prints on the
-- text screen, and keeps files in inodes with a second bitmap for their blocks.
--
-- The modules.
--   Base         shared names; Boolean tests and C's conditional, lists as arrays, runs that may
--                fault, C's `int` where a result may be negative, bits of numbers.
--   Bitmap       SBUNIX-C-H/sys/mm/mmgr.c. The state is the record `Bitmap` (`mmgr_memory_map`,
--                `mmgr_used_blocks`, `mmgr_max_blocks`); `alloc_block`, `free_block` and so on are the
--                functions without their prefix `mmgr_`. Masks and Slots read the array as slots, Search
--                and Range are the two searches, Blocks the operations, Regions the memory map and
--                `mm_phy_init`, whose memory map is given, History all sequences of operations.
--   FileBlocks   SBUNIX-C-H/sys/fs_mmgr.c, the same bitmap with 65536 blocks.
--   KernelPages  SBUNIX-C-H/sys/mm/vmmgr_page_allocator.c, the same bitmap with 16 words.
--   PageEntry    SBUNIX-C-H/sys/mm/vmmgr_pte.c, vmmgr_pde.c, vmmgr_pdpe.c, vmmgr_pml4.c: an entry is a
--                64-bit word, and a function that writes through a pointer returns the new word.
--   PageTable    the index macros, the recursive addresses and the bump allocator of
--                SBUNIX-C-H/sys/mm/vmmgr_virtual.c. Walk is `vmmgr_map_page` and the loops of
--                `vmmgr_init` that call it: its `Machine` is the memory by words, the block allocator
--                and the topmost table; Mmu is the processor's walk that it is compared with, Tree the
--                invariant of the tables.
--   CString      the string functions of SBUNIX-C-H/sys/stdfns.c.
--   Screen       the text screen of SBUNIX-C-H/sys/stdfns.c: the bytes from `START_MEMORY` on, the
--                place of the next character as an offset, and the cursor.
--   Keyboard     SBUNIX-C-H/sys/kb.c, include/sys/kb.h, `write_io_buff` and the reader of
--                SBUNIX-C-H/sys/isr.c. `keyboard_handler` is one interrupt, `keyboard_run` a series.
--   Threads      the queues and the scheduler of SBUNIX-C-H/sys/kthread.c. A thread is its address,
--                and every link field is a function of the address. Links says which list a queue
--                represents, Grow and Remove are its operations, Choice the scheduler.
--   Launch       the stacks of new threads: `setup_kthread` of SBUNIX-C-H/sys/kthread.c,
--                `setup_kthread_user` of SBUNIX-C-H/sys/exec.c and `fork_int` of SBUNIX-C-H/sys/isr.c
--                write words; `resume` is what SBUNIX-C-H/sys/kthread.s makes of them.
--   Processes    process ids, `ptable` and the lists of children of SBUNIX-C-H/sys/kthread.c, with
--                `sys_exit` and `fork` of SBUNIX-C-H/sys/isr.c: the state `World` holds the scheduler's.
--   Heap         SBUNIX-C-H/sys/mm/myalloc.c: the blocks' headers as functions of the block's address,
--                and `base`, `last` and the page allocator's state. Fit is the search, Split what a
--                split leaves, Reuse two allocations.
--   Timer        SBUNIX-C-H/sys/timer.c, which uses the run queue and the screen.
--   Files        SBUNIX-C-H/sys/fs.c, over FileBlocks and CString: the inodes, and the disk as 512 bytes
--                for each sector, with the two buffers and the transfers of SBUNIX-C-H/sys/ahci.c. Sync
--                is the program's `rsync`, by inodes and words; the operations take it as an argument.
--                Reading has
--                `read_file`, `read_file_by_name` and `make_directory`, Formatting `set_sb`.
--   Archive      the tar archive of SBUNIX-C-H/sys/elf.c and `do_close` of SBUNIX-C-H/sys/isr.c: the
--                headers by address, and the table of names and flags. Walk compares the walk with the
--                layout of an archive, Open is the search for a descriptor.
--   Areas        the areas of a process: SBUNIX-C-H/sys/mmap.c, `clear_vmas` of SBUNIX-C-H/sys/exec.c and
--                the stack's growth in SBUNIX-C-H/sys/isr.c. Lists is the list, Stack the growth,
--                Break `do_sbrk`.
--   Loading      `readelf` of SBUNIX-C-H/sys/elf.c, over Archive.
--   Examples     the theorems at concrete inputs.
--
-- Conventions. A run is an `Option`: `none` is what C leaves undefined, an access out of an array's
-- bounds above all. Arithmetic on machine words keeps its wrap-around. `1 << n` on a 32-bit `int` is
-- what the processor's shift does, with `n` modulo 32 and the sign extended to 64 bits.
--
-- Bounds and fuel. The searches over a bitmap recurse on the number of words or bits left. The loop
-- over `j` of `mmgr_get_first_range_free`, whose counter the body moves, has 64 rounds of fuel, and
-- more give the same result (`range_in_word-enough`). The walks over a run queue have fuel, and the
-- theorems ask for more than the queue's length; so it is with the heap's blocks, the lists of
-- children and the files of the archive. A walk through an archive that is not well laid out needs a
-- round for each 512 bytes of it, and two more. `convert` recurses on the room left in its buffer of
-- 64 digits. `vmmgr_page_allocator_init` counts with 8192 rounds for 6144 steps.
--
-- Not modelled: assembly code but for the words that the switch pops, interrupt and segment tables,
-- port I/O and the disk controller's registers, which are the hardware's; printing of messages; copying and clearing of
-- page tables, so that `fork` is without its copy of the tables; the mapping of a segment's pages and the
-- copy of its bytes; the heap of SBUNIX-C-H/libc and the shell. The disk's transfers
-- are taken to succeed. What the disk's buffers held before is an argument (`Stale`), and so are what stands in memory behind the table of scan codes
-- (`beyond`), the addresses that an allocation gives for a new thread or a child's list node, and what
-- a local array holds before it is written.
pub mod Base
pub mod Bitmap
pub mod FileBlocks
pub mod KernelPages
pub mod PageEntry
pub mod PageTable
pub mod CString
pub mod Screen
pub mod Keyboard
pub mod Threads
pub mod Launch
pub mod Processes
pub mod Areas
pub mod Heap
pub mod Loading
pub mod Archive
pub mod Timer
pub mod Files
pub mod Examples
