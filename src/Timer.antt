-- ===== src/Timer.antt =====
-- kernel/src/system/interrupt/irq/pit.c and pit.h: the programmable interval timer.
pub mod Ops
pub mod Laws
mod Examples
