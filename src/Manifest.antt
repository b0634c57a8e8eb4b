-- ===== src/Manifest.antt =====
-- crates/ctxfs-manifest: snapshots and directory listings.
pub mod Snapshot
pub mod Inodes
