-- ===== src/Buddy/Laws.antt =====
-- The theorems about the operations of kernel/src/memory/buddy.c.
pub mod Rounding
pub mod Split
pub mod Allocate
pub mod AllocPages
pub mod Merge
pub mod Free
pub mod FreePage
pub mod FreePages
pub mod AddRange
pub mod Reset
pub mod Memmap
pub mod Init
pub mod Usable
