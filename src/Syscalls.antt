-- ===== src/Syscalls.antt =====
-- The system call table of kernel/core/syscalls.c, in child modules.
mod Table
mod Start
mod Answers
mod Tests
