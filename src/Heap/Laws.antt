-- ===== src/Heap/Laws.antt =====
-- The theorems about kernel/src/memory/heap.c.
pub mod Classes
pub mod Large
pub mod LargeFree
pub mod Format
pub mod Slab
pub mod Caches
pub mod Filled
pub mod Small
pub mod Requests
pub mod Lists
