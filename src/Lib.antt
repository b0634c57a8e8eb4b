-- ===== src/Lib.antt =====
-- A verification library for ctxfs, which mounts remote repositories as read-only file systems.
--
-- The program. `ctxfs-core` has the digests, errors and source names that all parts share. A provider
-- turns a repository into a `Snapshot` and listings of `DirEntry` (`ctxfs-manifest`). `ctxfs-vfs`
-- serves the inodes of a mount from these listings, and fetches the bytes of a file on demand.
-- `ctxfs-cache` keeps fetched blobs on disk, within a limit that the reservations of mounted
-- repositories shape. `ctxfs-daemon` answers the requests that mount and unmount.
--
-- The files.
--   Common: texts as lists of bytes, association lists for hash maps, 64-bit words, results.
--   Core/Digest, Core/Error, Core/Backend: crates/ctxfs-core/src/digest.rs, error.rs and backend.rs.
--   Core/Config: crates/ctxfs-core/src/config.rs, the layers of the configuration.
--   Core/Source: crates/ctxfs-core/src/source.rs, `SourceSpec::parse` and its `Display`.
--   Cache/LinkedMap: what the cache relies on of the linked hash map, a record of operations and
--     laws that the modules of the blob cache take as a parameter; Tests/OrderedList meets it.
--   Cache/State, Cache/Evict: `CacheState` and the eviction loop of `lru_insert_evict`
--     (crates/ctxfs-cache/src/lib.rs), with its proofs in the modules under Evict.
--   Cache/Reserve: `register_mount`, `unregister_mount` and the rebalance of reservations.
--   Cache/Prune, Cache/Blob: the other eviction loops, and `BlobCache` with its files.
--     Cache/Blob/Writer has the writer of a blob in pieces; Cache/Blob/Runs has runs of the
--     operations that its first lines name, beside the map from paths to bytes that they stand for.
--   Cache/Rebuild: `rebuild_index`, which a new cache calls on the files that it finds.
--   Cache/Tree: crates/ctxfs-cache/src/tree.rs, listings on disk.
--   Cache/Resolution: crates/ctxfs-cache/src/resolution.rs, resolved package sources.
--   Manifest/Snapshot, Manifest/Inodes: crates/ctxfs-manifest/src/snapshot.rs and inode.rs.
--   Vfs/Types, Vfs/Tables, Vfs/State: crates/ctxfs-vfs/src/types.rs and state.rs; Vfs/Populate and
--     the modules under State have the proofs. Vfs/State/Runs has runs of many calls,
--     Vfs/State/Subpath `new`.
--   Nfs: crates/ctxfs-nfs/src/fs.rs, the NFS server over the operations of Vfs/State.
--   Git: crates/ctxfs-provider-git/src/github.rs. Git/Tree has `build_directories_inner`, Git/Walk the
--     walk of a truncated tree, Git/Tar the checks of an archive's paths and redirects,
--     Git/Prefetch what is fetched ahead of the reads, Git/BlobSha1 the hash of a blob.
--   Provider: crates/ctxfs-provider-common/src. Fetcher, Lfs, RateLimit, RepoUrl, Counters and
--     Observability are the files of these names; RateLimit also has `classify_response` of github.rs, and
--     Singleflight the registry of downloads under way, of fetcher.rs and github.rs.
--   Fskit: crates/ctxfs-fskit/src/adapter.rs, nodes and errors in the terms of FSKit.
--   Daemon/MountState: crates/ctxfs-daemon/src/mount_state.rs, the file of the mounts.
--   Daemon/Server, Daemon/Resolve, Daemon/Mount, Daemon/Unmount: crates/ctxfs-daemon/src/daemon.rs, the
--     service over the cache and the table of its mounts; what happens outside it during one request is
--     a record, `Outside`. Daemon/Requests has runs of requests, and Daemon/Live counts mounts.
--   Tests: concrete runs, and each theorem with hypotheses at an input that meets them.
--
-- Choices. Numbers are unbounded, and 64-bit arithmetic is written out where the source has it. The
-- calls of a blob cache come one after another: its mutex guards the index only, while `put` writes
-- its file before it takes the lock and removes the evicted files after, and `get` reads after, and
-- these steps of two calls are not interleaved here. The eviction loops run on fuel; Cache/Evict/Rule
-- and Cache/Prune/Order show that the fuel suffices: a rotation or an eviction of `n` entries takes
-- at most (n + 1) * (n + 1) rounds, and a prune one round for each entry. The walk of
-- a truncated tree has a number of rounds that suffices wherever the trees come to an end. A hash map
-- whose order the code leaves open is iterated in the order of its list. What the operating
-- system decides (does a write or a read succeed?) is an argument, as are the answers of the
-- provider and of the server, JSON, SHA-1, SHA-256 and the tests for UTF-8 and
-- URLs. `none` stands for a panic; the last second of a `SystemTime` is an
-- argument too, as it is the platform's. The requests of the daemon come one after another, each with
-- its own outside. Not modelled: requests or calls of a cache that overlap, two calls that populate
-- one directory at the same time, logging, and the parts that only do I/O.
pub mod Common
pub mod Core
pub mod Cache
pub mod Manifest
pub mod Vfs
pub mod Nfs
pub mod Git
pub mod Provider
pub mod Fskit
pub mod Daemon
mod Tests
