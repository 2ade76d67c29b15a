-- ===== src/Thread.antt =====
-- Kernel threads around their end, kernel/ke/thread/scheduler/scheduler.c: exit, join, detach and the
-- reaper. The children hold the state with its operations and what they guarantee together.
pub mod Lifecycle
pub mod Ended
pub mod Claims
pub mod Reaped
pub mod Interleaving
mod Tests
