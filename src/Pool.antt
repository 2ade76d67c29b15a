-- ===== src/Pool.antt =====
-- Pools of kernel objects of one size, kernel/ke/mm/pool.c. The children have the layout of a page,
-- the operations, and what they guarantee in any order.
pub mod Layout
pub mod Machine
pub mod Operations
pub mod Start
pub mod Slots
pub mod Stock
pub mod Grown
pub mod GivenBack
pub mod World
pub mod Published
pub mod Shared
pub mod Allocated
pub mod Sizes
pub mod Started
pub mod HeapPages
mod HeapTests
mod Tests
