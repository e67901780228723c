-- ===== src/Idt/Laws.antt =====
-- The theorems about kernel/src/system/interrupt/idt.c.
pub mod Gates
pub mod Handler
