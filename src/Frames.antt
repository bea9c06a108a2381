-- ===== src/Frames.antt =====
-- The buddy allocator of kernel/memory/frame_alloc.c, in child modules.
pub mod Zone
mod Bitmap
pub mod Init
pub mod Alloc
mod Free
mod Buddy
mod Listed
pub mod Found
mod Account
mod Merge
pub mod Exhausted
pub mod First
pub mod Requests
mod Underflow
mod Tests
