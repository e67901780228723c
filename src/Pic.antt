-- ===== src/Pic.antt =====
-- kernel/src/system/interrupt/PIC/pic.c and pic.h: the two legacy interrupt controllers.
pub mod Ops
pub mod Laws
pub mod Examples
