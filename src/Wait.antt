-- ===== src/Wait.antt =====
-- Dispatcher objects and waits: kernel/ke/thread/scheduler/sync.c, wait.c and timer.c. `State` has
-- threads, objects and queues, `Complete` the completion of waits and the timeout queue, `Sync`
-- events, semaphores and mutexes, `Single` the wait for an object; the other children prove.
pub mod State
pub mod Complete
pub mod Sync
pub mod Single
pub mod Wake
pub mod Signal
pub mod Timeouts
pub mod Expire
pub mod Hang
pub mod Ownership
pub mod Block
pub mod Deadline
pub mod Acquire
mod Tests
