-- ===== src/LocalApic.antt =====
-- kernel/src/system/interrupt/APIC/apic.c: switching the local APIC on and off, with
-- kernel/src/system/cpu/msr.c.
pub mod Ops
pub mod Laws
pub mod Switching
mod Examples
