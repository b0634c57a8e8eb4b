-- ===== src/Vfs.antt =====
-- crates/ctxfs-vfs: the virtual file system of a mount.
pub mod Types
pub mod Tables
pub mod Populate
pub mod State
