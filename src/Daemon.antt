-- ===== src/Daemon.antt =====
-- crates/ctxfs-daemon: the service over the mounts, and the state that outlives it.
pub mod MountState
pub mod Server
pub mod Resolve
pub mod Mount
pub mod Unmount
pub mod Live
pub mod Requests
