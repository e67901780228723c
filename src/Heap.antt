-- ===== src/Heap.antt =====
-- kernel/src/memory/heap.c and heap.h: the kernel heap.
pub mod State
pub mod Slabs
pub mod Ops
pub mod Access
pub mod Laws
pub mod Examples
