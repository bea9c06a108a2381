-- ===== src/Slab.antt =====
-- The slab allocator of kernel/memory/slab.c, in child modules.
pub mod Cache
pub mod Lists
mod Alloc
mod Free
pub mod General
mod Order
pub mod Classes
mod Chain
pub mod Layout
mod Overrun
mod Taken
mod Back
mod Lost
pub mod Pages
pub mod Dry
mod Tests
