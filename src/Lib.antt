-- ===== src/Lib.antt =====
-- Twan, a real-time kernel and hypervisor for x86-64: its data structures for scheduling, time and memory, its
-- locks and windows onto memory, and the queues of its hypervisor's scheduler.
--
-- The kernel keeps its ready tasks in priority queues: 256 lists linked through the tasks themselves,
-- and a bitmap of the lists that are not empty. A scan of the bitmap for its highest bit finds the
-- task that runs next. Timeouts stand in a delta chain: a list in the order of the due times where
-- each node holds the ticks between its predecessor and itself. Windows of the address space are
-- handed out from a bitmap of 512 bits.
--
-- The parts, from the bottom up:
--   Word        include/std.h: fls32, ffs32, fls64, ffs64, where -1 is `none`, and log2.
--   Bitmap      include/lib/dsa/bmp256.h, function by function. The four words are a function of
--               the index; a `u64` is a number below 2 ^ 64.
--   Bitmap.Wide include/lib/dsa/bmp512.h, function by function.
--   Dq          include/lib/dsa/dq.h. The links stand inside the objects, so the store `Links` gives
--               the two links of every address, and 0 is NULL. Each function takes the store and
--               the list and returns both. `IsDq` says that the nodes of a list are linked both ways in
--               the store; the theorems relate each function to one on lists.
--   Priorityq   include/lib/dsa/priorityq.h over Dq and Bitmap. `IsPriorityq` ties the bits to the lists.
--   DeltaChain  include/lib/dsa/delta_chain.h over Dq. `due` adds the deltas up to a node.
--   Sched       src/kernel/sched/sched_dsa.c, sched_queue.c and sched_mcs.c over Priorityq: a bin for each
--               criticality. The model has one queue for all processors, which is
--               CONFIG_KERNEL_SCHED_GLOBAL_QUEUE. `levels` is the number of criticalities; the
--               node `task->nodes[i]` has the address `task * levels + i`. `IsSched` says that the bins stand for
--               one list of tasks for each priority, of which bin `i` holds those of
--               criticality at least `i`. A name `__sched_...` of the source is `sched_...` here.
--   Buddy       include/lib/buddy_alloc.h and src/lib/buddy_alloc.c. PAGE_SHIFT is that of 2 MB pages, 21, so
--               there are 15 orders. A name `__buddy_...` of the source is `buddy_...` here. `FreePage` says which pages the
--               free blocks cover, and `IsHeld` that none of them is in a block that is handed out.
--   Pma         src/initcalls/early/mem/pma_buddy.c: up to five arenas of Buddy.
--   Tlsf        include/lib/tlsf_alloc.h and src/lib/tlsf_alloc.c over Word and Dq's links: Map the list of a
--               size, Heap the headers, the free lists and the merges, Alloc and Aligned the calls. A name
--               `__tlsf_...` of the source is `tlsf_...` here. A header stands at its address in a store of its
--               own, so it never overlaps another or the bytes that are handed out. `IsFreeLists` ties heads,
--               chains and the two levels of bits to lists of blocks.
--   Sync        src/subsys/sync: Spinlock the ticket lock, Rwlock the lock of readers and writers, Mcslock the queue
--               lock, each of n processors that do an atomic access at a time, in any order. A count of the tickets
--               taken is kept beside the ticket lock to say what happened between two accesses. Mutex is mutex.c: the
--               tasks that lock one mutex, with a step for each test under the lock of its wait queue; whom of the
--               tasks in the queue an unlock wakes, or whether it wakes any, is left open. Interleave has the runs that the three last share.
--   Paging      src/kernel/mem/mmu/paging.c and tlb.c over Bitmap.Wide: the windows onto physical memory, whose pages
--               have 2 MB. `translate` is the processor's reading of the entries; `stale` keeps which pages each
--               processor has to flush.
--   Vsched      src/subsys/twanvisor/vsched/vsched_dsa.c: Mcqs the queues of CONFIG_TWANVISOR_VSCHED_MCQS over Dq, Mcfs
--               the frames of CONFIG_TWANVISOR_VSCHED_MCFS. A name `__vsched_...` of the source is `vsched_...` here.
--   Vemulate    src/subsys/twanvisor/vemulate/vemulate_utils.c: the routes between partitions and the permissions on
--               criticality. The eight maps of `struct vpartition` are two families by the type of the route.
--   Bits        the bits of native numbers, below Word and Bitmap; Base: shared names.
--
-- Rounds: the loops of dq_clear, delta_chain_insert and delta_chain_advance run on a number of rounds
-- above the length of the list, which the theorems have as a hypothesis; that of bmp512_ffs2 runs on
-- 513, since each round removes a member. The loops of the buddy allocator run over the orders or the
-- blocks that are left, those of the scheduler's queue over the bins, those of the frames over the
-- frames, and that of the page allocator over the arenas. log2 halves a word of 64 bits, so it runs on
-- 64 rounds; the order of a number of pages below 2 ^ 32 is found in 33, which is proved; a flush of a
-- range has one round for each page.
--
-- Not modelled: sched_pop with CONFIG_KERNEL_SCHED_AGING, which is off by default; mutex_ipcp_init;
-- the test of multicore_initialized in a flush on all processors; the macros of the headers (loops
-- over a list, conversions of addresses), the locks and the interrupt state around the operations, the
-- paravirtual and the preemption variants of the locks, and the callbacks of a delta chain, which are
-- taken to leave the chain alone. Timers, interprocessor interrupts and the contexts of processors are
-- not modelled either. The rest of the kernel and the hypervisor is outside this library.
pub mod Base
pub mod Bits
pub mod Word
pub mod Bitmap
pub mod Dq
pub mod Priorityq
pub mod DeltaChain
pub mod Sched
pub mod Buddy
pub mod Tlsf
pub mod Pma
pub mod Paging
pub mod Sync
pub mod Vsched
pub mod Vemulate
mod Tests
