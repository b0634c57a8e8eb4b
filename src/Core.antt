-- ===== src/Core.antt =====
-- crates/ctxfs-core: the types that every other crate shares.
pub mod Backend
pub mod Config
pub mod Digest
pub mod Error
pub mod Source
