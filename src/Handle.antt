-- ===== src/Handle.antt =====
-- Executive objects and the handle tables of processes: kernel/ex/object.c, kernel/ex/handle.c, and
-- the reference counting of process.c and thread.c. `Objects` has the store and the counted
-- headers, `Codes` the handle words, `Table` and `Close` the operations; the other children prove.
pub mod Objects
pub mod Codes
pub mod Table
pub mod Close
pub mod Slots
pub mod Frame
pub mod Stale
pub mod Grant
pub mod Reuse
pub mod Headers
pub mod Rights
pub mod Resolve
pub mod Refused
pub mod Teardown
mod Tests
