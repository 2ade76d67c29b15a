-- ===== src/Elf.antt =====
-- The ELF loader of lib/elf/elf.c: the checks of an image, the copy into a buffer and the mapping of
-- its segments.
pub mod Image
pub mod Load
pub mod Checked
pub mod Segment
pub mod Loaded
mod Tests
