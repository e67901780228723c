-- ===== src/Heap/Laws/Format.antt =====
-- New slab pages of kernel/src/memory/heap.c.
pub mod Bitmap
pub mod Links
pub mod Header
pub mod Page
