-- ===== src/Lib.antt =====
-- HimuOS, a small x86-64 kernel in C, over native numbers and explicit states.
--
-- The parts modelled, each a module with children for its proofs:
--   Prelude: tests, lists, bit operations, 32-bit and 64-bit words, HO_STATUS and results.
--   Pmm: the physical memory manager of src/kernel/ke/pmm. Pmm/Bitmap.antt has the two-bit page
--     table (BitmapGetState, BitmapSetState, BitmapSetRange, BitmapCheckRange), Pmm/Sink.antt the
--     operations of bitmap_sink.c, Pmm/Device.antt the facade of pmm_device.c.
--   Irql: execution levels, src/kernel/ke/irql.c, and critical sections, critical_section.c.
--   Handle: executive objects and handle tables, src/kernel/ex/object.c and handle.c.
--     Handle/Objects.antt has the store, the reference counts and the destroy routines of
--     process.c and thread.c, Handle/Codes.antt the handle words, Handle/Table.antt
--     ExHandleInsert and ExHandleResolve, Handle/Close.antt ExHandleClose and ExHandleCloseAll.
--   Wait: events, semaphores, mutexes, waits and the timeout queue, sync.c, wait.c and timer.c of
--     src/kernel/ke/thread/scheduler. Wait/State.antt has threads and queues, Wait/Complete.antt
--     KiCompleteWait and the timeout queue, Wait/Sync.antt the operations on objects,
--     Wait/Single.antt KeWaitForSingleObject up to KiSchedule, which Dispatch has;
--     `wake_timeouts` runs on fuel, one more than the length of the queue.
--   LinkedList: the circular lists of src/lib/common/linked_list.c as pointers in a heap.
--     LinkedList/Ring.antt and LinkedList/Remove.antt have the ring of entries that a head stands
--     for. The queues of Wait are such lists of entries.
--   Kva: the kernel virtual allocator, src/kernel/ke/mm/kva.c. Kva/State.antt has the arenas and the
--     range records, Kva/Range.antt KeKvaAllocRange and the lookups, Kva/Release.antt the releases,
--     Kva/Mapping.antt KeKvaMapPage, KeKvaMapOwnedPages and the page-backed heap, Kva/Fixmap.antt the
--     fixmap and its tokens, Kva/Query.antt the queries, Kva/Init.antt KeKvaInit. The page tables and
--     the page allocator that it calls are a record of operations, Kva/Machine.antt; what the heap
--     relies on for pages that it backs stands in Kva/Backing.antt.
--   Thread: the end of a thread in src/kernel/ke/thread/scheduler/scheduler.c. Thread/Lifecycle.antt
--     has KeThreadExit, KeThreadJoin in two steps around its wait, KeThreadDetach and the reaper,
--     Thread/Interleaving.antt their steps in any order. The reaper's loop runs on fuel, one more than
--     the length of the list of terminated threads.
--   Dispatch: scheduling decisions, scheduler.c and timer.c of the same directory, on the threads and
--     queues of Wait. Dispatch/Clock.antt has KiArmForNextEvent, Dispatch/Schedule.antt KiSchedule,
--     KeYield, KeSleep and KeThreadStart, Dispatch/Timer.antt KiSchedulerTimerISR. The roots of
--     address spaces are the operations of a record. A failed assertion or a panic is `err`.
--   Elf: the loader of src/lib/elf/elf.c. Elf/Image.antt has Elf64Validate and
--     Elf64GetProgramHeader, the structs over an image being fields of its record, Elf/Load.antt
--     Elf64LoadToBuffer, Elf64GetSegmentPerm and Elf64Load, whose callback is a parameter. A buffer is
--     a function of the offset in it, and a load gives whether it succeeded with the buffer as left.
--   Pool: pools of objects of one size, src/kernel/ke/mm/pool.c. Pool/Layout.antt has the slots of a
--     page, Pool/Operations.antt KePoolAlloc and KePoolFree, one definition per critical section,
--     Pool/Start.antt KePoolInit, KePoolDestroy and KePoolQueryStats, Pool/Shared.antt the critical
--     sections of several threads in any order. The free list and the page list are lists of
--     addresses. The pages come from a record of operations with laws, Pool/Machine.antt, which
--     Pool/HeapPages.antt fills by KeHeapAllocPages and KeHeapFreePages of Kva. What lies in the slots
--     is left out.
--
-- Correspondence. A C function is a definition with its name in snake case and without the Ke, Ki,
-- Ex or Bitmap prefix. A function that returns HO_STATUS returns a `Result`: `ok` is EC_SUCCESS
-- with the new state and the values of the out parameters, `err` is the error code with nothing
-- written. A failed HO_KASSERT is also `err`, and stands for the panic. Null tests of pointers that
-- a model passes as values have no counterpart. Logging is left out. In Handle and Wait a status is a
-- value among the results, since an operation that refuses may have changed the state; there a run
-- of Handle is `none` where it touches an object that is not allocated, and `err` in Wait,
-- Thread and Dispatch is only a failed assertion or a panic. The one exception is `validate_close`,
-- which changes nothing: it gives EC_INVALID_STATE for such an object.
--
-- Levels, time and concurrency. An operation that asserts its execution level takes the level as an
-- argument, and the guard that it takes before KiSchedule is the level of that call. Each reading of
-- the clock is an argument. Wait and Dispatch are single steps under their guards; Thread has a step for
-- each critical section, and one for KiFinalizeThread, which runs outside of them; what that asks of
-- the user runtime and of the stack's range is a parameter, as are the roots that KiSchedule resolves
-- and installs. KeClockEventSetNextEvent is taken to succeed, so the panic of KiArmClockEvent on its
-- failure is not modelled.
--
-- Words. 64-bit and 32-bit arithmetic keeps its wrap-around, written as `% 2 ^ 64` and
-- `% 2 ^ 32`; loop indices that a table's size bounds are plain numbers. The scan of `alloc_pages`
-- runs on fuel, one more than the limit in pages, which is enough since each round moves up: its
-- theorem has no case for a run that stops early. Counts of a request to free or reserve are taken
-- up to 2 ^ 52 pages, the whole address space, since beyond that the guard itself wraps.
--
-- Not modelled, for now: the size classes of the heap, the page counts of
-- Elf64GetLoadInfo, the creation of processes and threads, runtime tables and the start of the
-- scheduler. Left out for good: device drivers, the boot loader, page tables, the context switch and
-- the demos, which are input and output or machine code.
pub mod Dispatch
pub mod Elf
pub mod Handle
pub mod Irql
pub mod Kva
pub mod LinkedList
pub mod Pmm
pub mod Pool
pub mod Prelude
pub mod Thread
pub mod Wait
