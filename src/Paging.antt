-- ===== src/Paging.antt =====
-- kernel/src/memory/vmm.c and vmm.h: page tables.
pub mod Machine
pub mod Ops
pub mod Entries
pub mod Tables
pub mod Space
pub mod Laws
pub mod Examples
