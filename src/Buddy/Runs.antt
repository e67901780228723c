-- ===== src/Buddy/Runs.antt =====
-- What the operations on single blocks in kernel/src/memory/buddy.c do when every index is inside
-- its table: no fault, and the state after them in closed form.
pub mod Marking
pub mod Listing
