-- ===== src/Sched.antt =====
-- The scheduler of kernel/core/scheduling.c, in child modules.
mod Links
mod Queue
mod Bitmap
mod Pick
mod Moves
mod Switch
mod Stays
mod Start
mod Create
mod Idle
mod Made
mod Tests
