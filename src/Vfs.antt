-- ===== src/Vfs.antt =====
-- The virtual file system of filesystems/vfs/vfs_core.c, in child modules.
mod Files
mod Mounts
mod Descriptors
mod Bare
mod Types
mod Tests
