-- ===== src/Lib.antt =====
-- FOS, a small teaching kernel: its block allocator, its list macros, its memory and string
-- functions, its scheduler and semaphores, its page tables,
-- its heaps, its page file, its page fault handler, its shared memory and its environments.
--
-- The kernel and the user library share the dynamic allocator of lib/dynamic_allocator.c: kmalloc and
-- malloc take a block by alloc_block_FF or alloc_block_BF, keep it by insert_sorted_allocList, look it
-- up by find_block and give it back by insert_sorted_with_merge_freeList. All kernel lists, the
-- allocator's and the scheduler's, are the macros of inc/queue.h. The scheduler of kern/cpu/sched.c
-- moves environments between the new, the ready and the exit queue and hands the processor on.
--
-- Files:
-- Prelude: shared names, Boolean tests, lists and options over the native numbers, 32-bit words
--   (Prelude/Words, with ROUNDDOWN and ROUNDUP of inc/types.h), integers (Prelude/Int), and calls that
--   may end in the kernel's panic (Prelude/Results).
-- Queue: the macros LIST_INIT, LIST_INSERT_HEAD, LIST_INSERT_TAIL, LIST_INSERT_AFTER,
--   LIST_INSERT_BEFORE, LIST_REMOVE, LIST_FOREACH and LIST_CONCAT (Queue/Concat, of two lists of the
--   same store, not of a list with itself) of inc/queue.h on an explicit store of next and
--   prev links. Queue/Seg says what a linked segment is, Queue/Rewire what a change of two links
--   does to it, Queue/Dll, Queue/Insert and Queue/Remove relate the macros to sequences. The other
--   modules use lists as sequences.
-- Allocator: lib/dynamic_allocator.c. A block is a node of MemBlockNodes with its sva and size; the
--   state is the three lists. Allocator/Merge is insert_sorted_with_merge_freeList, Allocator/Space
--   says what a well formed free list is. The two local variables that alloc_block_BF does not
--   initialise are an argument of its model.
-- Memory: memset, memcpy, memmove, memcmp and memfind of lib/string.c on a memory of bytes with
--   32-bit pointers that wrap.
-- Strings: the functions of lib/string.c that read strings. Strings/Copy: strcpy, strncpy, strlcpy
--   and strcconcat into a memory; Strings/Numbers: strtol and ltostr; Strings/Split: strsplit.
-- Sched: kern/cpu/sched.c with env_run of kern/proc/user_environment.c. An environment is a number;
--   the queues are the sequences that LIST_FOREACH visits.
-- Semaphores: kern/conc/semaphore_manager.c over the scheduler.
-- Paging: kern/mem/memory_manager.c and kern/mem/paging_helpers.c for one page directory; the page
--   fault handler and kmalloc of a page, which it calls, are parameters.
-- Chunk: kern/mem/chunk_operations.c over Paging.
-- Heap: kern/mem/kheap.c over Allocator and Chunk, and lib/uheap.c over Allocator; the system calls
--   of lib/syscall.c are a parameter.
-- WorkingSet: kern/mem/working_set_manager.c.
-- PageFile: kern/disk/pagefile_manager.c over Paging; the sectors of the disk (lib/disk.c) are a
--   parameter. PageFile/Slots says when disk frames are kept apart, and the modules below it go
--   through the functions that add, write, update and release pages and tables.
-- PageFault: kern/trap/fault_handler.c over WorkingSet, Paging and PageFile.
-- Shares: kern/mem/shared_memory_manager.c over Paging.
-- UserMem: free_user_mem of kern/mem/chunk_operations.c over PageFault, PageFile and WorkingSet.
-- Powers: nearest_pow2_ceil and log2_ceil of kern/tests/utilities.c.
-- Envs: the table of environments and their identifiers, of kern/proc/user_environment.c, over Powers.
--   NENV, which comes from the size of struct Env, is a parameter.
-- TimeStamps: update_WS_time_stamps of kern/cpu/sched.c over WorkingSet and Paging.
--
-- Bounds: words have 32 bits. LIST_FOREACH runs on fuel, and the length of the list is enough. The
-- `while` of page_fault_handler runs on fuel, and two rounds are enough; that of strsplit runs on
-- fuel too, and one more than the length of the string is enough. The do loop of ltostr has ten
-- rounds, as a long has ten digits. The loops of Powers shift a word until it
-- is 0, and 32 rounds are enough. All other loops run over a
-- list or count down.
--
-- Not modelled: printing and console input, the boot code, traps, system call stubs and device
-- drivers, which are input and output; environment loading and the kernel's own tests. The checks
-- chk1 and chk2 that fos_scheduler calls are tests of the kernel and change nothing.
pub mod Prelude
pub mod Memory
pub mod Strings
pub mod Queue
pub mod Sched
pub mod Semaphores
pub mod Paging
pub mod Chunk
pub mod Heap
pub mod PageFile
pub mod Shares
pub mod WorkingSet
pub mod PageFault
pub mod UserMem
pub mod TimeStamps
pub mod Powers
pub mod Envs
pub mod Allocator
