-- ===== src/Dispatch.antt =====
-- The scheduling decisions of kernel/ke/thread/scheduler: scheduler.c and timer.c, on the threads and
-- queues of the waits.
pub mod Clock
pub mod Schedule
pub mod Timer
pub mod Timely
pub mod Taken
pub mod Chosen
pub mod Fair
pub mod Quiet
pub mod Interrupt
mod Tests
