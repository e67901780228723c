-- ===== src/Acpi.antt =====
-- kernel/src/drivers/ACPI/acpi.c and acpi.h: the tables of the firmware.
pub mod Ops
pub mod Laws
mod Examples
