-- ===== src/Paging.antt =====
-- The page tables of kernel/memory/paging.c, in child modules.
mod Tables
mod Entries
mod Lookup
mod Grow
mod Descend
mod Leaf
mod Map
mod Unmap
mod Identity
mod Start
mod NoFrames
mod Pool
mod Given
mod Program
mod Tests
