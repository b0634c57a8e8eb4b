-- ===== src/Provider.antt =====
-- crates/ctxfs-provider-common/src: what the providers share.
pub mod Counters
pub mod Fetcher
pub mod Lfs
pub mod Observability
pub mod RateLimit
pub mod RepoUrl
pub mod Singleflight
