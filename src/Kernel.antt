-- ===== src/Kernel.antt =====
-- kernel/src/main.c: the entry point of the kernel.
pub mod Screen
pub mod Drawing
pub mod Entry
pub mod Boot
pub mod Guards
pub mod Running
mod Examples
