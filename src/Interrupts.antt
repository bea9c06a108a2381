-- ===== src/Interrupts.antt =====
-- The interrupt controller of kernel/core/interrupts.c, in child modules.
mod Idt
mod Irq
mod Gates
mod Calls
mod Tests
