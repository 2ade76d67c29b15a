-- ===== src/Kva.antt =====
-- The kernel virtual allocator, kernel/ke/mm/kva.c. The children hold the state, the operations and
-- what they guarantee.
pub mod State
pub mod Arena
pub mod Range
pub mod Machine
pub mod Backing
pub mod Release
pub mod Mapping
pub mod Fixmap
pub mod Query
pub mod Init
pub mod Marks
pub mod Invariant
pub mod Occupy
pub mod Vacate
pub mod Found
pub mod Alloc
pub mod Teardown
pub mod TornDown
pub mod Named
pub mod Freed
pub mod RoundTrip
pub mod Mapped
pub mod Clear
pub mod Heap
pub mod HeapState
pub mod HeapGrown
pub mod HeapFreed
pub mod HeapStarted
pub mod Started
pub mod Retire
pub mod Tokens
pub mod Slots
pub mod Translated
pub mod Acquire
pub mod Classified
pub mod Tests
