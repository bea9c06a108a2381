-- ===== src/Panic.antt =====
-- The report of a panic, kernel/core/panic.c, in child modules.
mod Dump
mod Report
mod Message
mod Steps
mod Kept
mod First
mod Tests
