-- ===== src/Routines.antt =====
-- kernel/src/main.c: memcpy, memset, memmove and memcmp.
pub mod Ops
pub mod Laws
mod Examples
