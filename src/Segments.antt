-- ===== src/Segments.antt =====
-- kernel/src/memory/gdt.c, gdt.h and tss.h: segment descriptors.
pub mod Ops
pub mod Laws
mod Examples
