-- ===== src/Buddy.antt =====
-- kernel/src/memory/buddy.c and buddy.h: the allocator of physical pages.
pub mod State
pub mod Chain
pub mod Pages
pub mod Rep
pub mod Runs
pub mod Valid
pub mod Laws
pub mod Examples
pub mod Blocks
pub mod Ops
pub mod Init
