-- ===== src/Kernel.antt =====
-- The start of the kernel, kernel/core/main.c, in child modules.
pub mod Console
mod Start
mod Hex
mod Calls
mod NoMemory
mod Leak
mod Tests
