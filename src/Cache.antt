-- ===== src/Cache.antt =====
-- crates/ctxfs-cache: the blob cache.
pub mod Resolution
pub mod LinkedMap
pub mod State
pub mod Evict
pub mod Reserve
pub mod Prune
pub mod Blob
pub mod Rebuild
pub mod Tree
