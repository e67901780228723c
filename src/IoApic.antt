-- ===== src/IoApic.antt =====
-- kernel/src/drivers/interrupt/APIC/ioapic.c: the entries of the firmware's interrupt table.
pub mod Ops
pub mod Redirection
pub mod Init
pub mod Programming
pub mod Laws
pub mod Windows
pub mod Initial
mod Examples
