-- ===== src/Idt.antt =====
-- kernel/src/system/interrupt/idt.c and idt.h: the table of interrupt gates and the handler.
pub mod Ops
pub mod Laws
pub mod Examples
