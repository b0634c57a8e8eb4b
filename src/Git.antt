-- ===== src/Git.antt =====
-- crates/ctxfs-provider-git/src/github.rs: from GitHub's flat tree listings to directories.
pub mod Tree
pub mod Tar
pub mod Walk
pub mod Prefetch
pub mod BlobSha1
