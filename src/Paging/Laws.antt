-- ===== src/Paging/Laws.antt =====
-- The theorems about kernel/src/memory/vmm.c.
pub mod Walk
pub mod Fresh
pub mod Reached
pub mod Grown
pub mod Next
pub mod Levels
pub mod Leaf
pub mod Map
pub mod Unmap
