-- ===== src/Lib.antt =====
-- BezOS, a hobby operating system: the parts of its kernel that keep its own data structures.
--
-- The program. The kernel (sources/kernel) schedules tasks on each core, keeps track of physical and
-- virtual memory, and serves a virtual file system and drivers to user programs. These files cover:
--
--   * OsStatus: sources/sysapi/include/bezos/status.h, the codes that fallible calls return.
--   * Range and its modules: AnyRange of sources/kernel/include/memory/range.hpp, the half-open spans
--     of addresses that the memory managers compute with, and roundup and rounddown of
--     sources/common/include/common/util/util.hpp. Range has the methods and Range.Pair the free
--     functions; Range.Member says what addresses a range holds, and Range.Meet, Range.Align and
--     Range.Part have the theorems.
--   * RingQueue: AtomicRingQueue of sources/kernel/include/std/ringbuffer.hpp. RingQueue has tryPush,
--     tryPop, count, capacity, reset and create as calls that run alone; RingQueue.Interleaved has
--     tryPush in its atomic steps. RingQueue.Queued is the view of its clients, a list.
--   * Task and Scheduler: SchedulerEntry and SchedulerQueue of
--     sources/kernel/include/task/scheduler_queue.hpp and sources/kernel/src/task/scheduler_queue.cpp.
--     Task has the transitions of one task's status, Scheduler the queue of one core, which keeps its
--     idle tasks in a RingQueue. Scheduler.Next, Turn and Wakeup are about its operations, Rounds about the
--     turns that ticks of the timer give, a call of reschedule each.
--   * StickyCounter: sources/kernel/include/std/detail/sticky_counter.hpp, for uint32_t, with decrement in
--     its atomic steps.
--   * FlatMap: StaticFlatMap of sources/kernel/include/std/container/static_flat_map.hpp.
--   * Deque: FixedSizeDeque of sources/kernel/include/std/fixed_deque.hpp.
--   * Path: VfsPath, its iterator and VerifyPathText of sources/kernel/include/fs/path.hpp and
--     sources/kernel/src/fs/path.cpp, with the text views of sources/kernel/include/std/string_view.hpp.
--   * Uuid: uuid of sources/kernel/include/util/uuid.hpp and sources/kernel/src/util/uuid.cpp. Uuid.Digits
--     and Uuid.RoundTrip are about its texts, Uuid.Order about its order and fields.
--   * ControlBlock: detail::ControlBlock of sources/kernel/include/memory/detail/control_block.hpp, and the
--     sort of a list of blocks by address and the merge of neighbours of
--     sources/kernel/src/memory/detail/control_block.cpp. ControlBlock.Chain says what blocks the pointers
--     lead through, Midway, Partition, Join, Rising, Sort and Order are about the sort, Merge and Compact about the merge,
--     Extents and Spaced about the memory that a list stands for.
--   * TableAllocator: PageTableAllocator of sources/kernel/include/memory/table_allocator.hpp and
--     sources/kernel/src/memory/table_allocator.cpp, a free list of control blocks. TableAllocator.Free is
--     its invariant; Defragment, Cut, Take and Allocate, Give, Create and Stats are about its operations, and
--     Release has releaseMemory.
--   * TableList: PageTableAllocation and PageTableList of sources/kernel/include/memory/detail and
--     sources/kernel/src/memory/detail/table_list.cpp, lists that run through the pages themselves.
--     TableList.Pages says what pages a list links.
--   * ListAllocator: the part of table_allocator.cpp that hands out such lists. ListAllocator.Portion is a
--     part of the free memory whose pages are linked, Head and Loop are the two halves of allocateList, and Back is about
--     deallocateList.
--   * LargePage: sources/kernel/src/memory/memory.cpp, the cut of a mapping for pages of 2 MiB and the
--     number of tables to reserve.
--   * LookupTable: MappingLookupTable of sources/kernel/include/memory/detail/mapping_lookup_table.hpp and
--     sources/kernel/src/memory/detail/mapping_lookup_table.cpp, a FlatMap of the memory of page tables.
--   * PageEntry: the entries of sources/kernel/include/arch/paging.hpp and the PageBuilder of
--     sources/kernel/include/memory/paging.hpp.
--   * PageTables: sources/kernel/include/memory/page_tables.hpp and
--     sources/kernel/src/memory/page_tables.cpp. Map has the operations that map and Walk those that read.
--     Tree says what tables form a tree and what it maps a page to; Grow, Step, Place, Chain and MapPage
--     are about map4k, MapLarge and MapBlock about map2m, Near, MapRange and MapBlocks about the loops over
--     them, Filled, Portions and WithList about mapWithList, which has a head, a body and a tail. Compact has
--     the freeing of empty tables, Unused and Compaction are about it; Unmap has unmapUnlocked, Unmapping and
--     UnmapRange are about it.
--   * Prelude, Circular: shared helpers; Circular reads an array as a ring of slots.
--
-- State and operations. A class is a record of its fields and a method a function from the record to
-- the record and what the method returns. An array is a function from places to values, and pointers to
-- tasks are numbers that a function takes to the tasks. A pointer to a control block is the address itself,
-- null is 0, and the memory of the blocks is a function from addresses for each of their fields, so that
-- blocks share one memory and a write through a pointer is seen through every other. A failed KM_ASSERT and KM_PANIC halt the kernel:
-- `none` in Range, Deque, TableAllocator and PageTables, where `none` also stands for what C++ leaves undefined, and `panic` in Task
-- and Scheduler. The names are the source's, in lower case with underscores; two methods of one name
-- are told apart by their argument (contains_address, split_at).
--
-- Numbers. uintptr_t, size_t and uint32_t are natural numbers, and sums and differences that may wrap
-- have their `% 2 ^ 64` or `% 2 ^ 32` written out. Where a theorem wants that no sum wraps, it says so.
--
-- Fuel. The loops of compare-and-exchange in Task take two rounds: the first exchange can fail, and the
-- second one expects the status that the first has found. `take_next_task` takes a round for each slot of
-- the ring, more than tasks can wait. The iteration over a path takes a round for each byte, as every
-- step moves on. In ControlBlock the walk to the head takes a step for each block, the sort one level of
-- recursion more than there are blocks, and the merge a round for each block. The searches of
-- TableAllocator and ListAllocator take a round for each block and one more, and the loops of PageTables a
-- round for each page and one more. Running out of fuel is a result of its own (`spinning`, or `none` for a path or a list of blocks), which
-- the theorems exclude.
--
-- Not covered. Memory orders weaker than sequential consistency, and interleavings other than those of
-- RingQueue.Interleaved and StickyCounter: each core calls its own scheduler, but other cores may wake or terminate its
-- tasks. The allocator, as a parameter of `create`. Of the kernel: the memory managers, the cut of large pages before an unmapping, the heap of heap.cpp,
-- the file systems, the handle tables of the system calls, ACPI, PCI and interrupt hardware, and the
-- drivers; the vendored libraries and the C library for user programs.
pub mod Prelude
pub mod Range
pub mod Circular
pub mod Deque
pub mod PageEntry
pub mod PageTables
pub mod Path
pub mod OsStatus
pub mod RingQueue
pub mod Task
pub mod Scheduler
pub mod ControlBlock
pub mod TableAllocator
pub mod TableList
pub mod ListAllocator
pub mod FlatMap
pub mod LargePage
pub mod LookupTable
pub mod StickyCounter
pub mod Uuid
