-- ===== src/Pmm.antt =====
-- The physical memory manager: kernel/ke/pmm. `Bitmap` is the two-bit page table, `Sink` the
-- operations over it, `Device` the facade; the other children prove.
pub mod Bitmap
pub mod Sink
pub mod Device
pub mod Bits
pub mod Pages
pub mod Counts
pub mod FirstFit
pub mod Invariant
pub mod Audit
pub mod Alloc
pub mod Release
pub mod RoundTrip
mod Tests
