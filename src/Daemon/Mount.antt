-- ===== src/Daemon/Mount.antt =====
-- crates/ctxfs-daemon/src/daemon.rs: `prepare_mount`, `do_mount_nfs` and `do_mount_fskit`.
pub mod Prepared
use ctxfs.Common.{
  ℕ, Bool, true, false, Option, none, some, Result, ok, err, List, [], ◌∷◌, ◌++◌, Text, text,
  text_key, Text-discrete, if◌then◌else◌, holds,
}
use ctxfs.Common.Assoc.{insert}
use ctxfs.Core.Backend.{Backend, fskit, nfs}
use ctxfs.Core.Config.{Config}
use ctxfs.Core.Error.{CtxfsError, display, decimal}
use ctxfs.Core.Source.{ProviderType, github, npm, pypi, crate, SourceSpec, split_once, parse, id_of}
use ctxfs.Cache.LinkedMap.{LinkedHashMap}
use ctxfs.Cache.State.{CacheEntry, RepoKey}
use ctxfs.Cache.Resolution.{ResolutionCache, get_resolution, put_resolution}
use ctxfs.Daemon.MountState.{MountStateEntry, add_entry}
use ctxfs.Git.Prefetch.{FetchOptions}
use ctxfs.Daemon.Resolve.{github_source_of, fetch_options_of, coordinates, repo_key_of}
use ctxfs.Daemon.Server.{
  ResolvedSource, MountOptions, ready, MountInfo, MountHandle, MountPrep, Server, Outside, register,
  unregister, own,
}

module _ (m : LinkedHashMap Text CacheEntry) (config : Config) (o : Outside m) where
  abbrev pub Prepared : Type 0
  Prepared = Result MountPrep Text × Server m

  -- What follows the fetch: the reservation is given back unless there is a snapshot.
  unfoldable pub after_fetch :
      SourceSpec
      → SourceSpec
      → RepoKey
      → Result (List ℕ × List Text) CtxfsError
      → Server m
      → Prepared
  after_fetch source gh key (err e) s =
      (err (text "failed to fetch snapshot: " ++ display e), unregister m key s)
  after_fetch source gh key (ok (content, hexes)) s = elim (o.from_slice content) [
    | err e ↦ (err (text "failed to parse snapshot: " ++ e), unregister m key s)
    | ok snapshot ↦ (
      ok (record {
        source_spec = source;
        github_source = gh;
        snapshot = snapshot;
        subpath = gh.subpath;
        repo_key = key;
      }),
      own m key hexes s,
    )
  ]

  -- The fetch, of a repository that is registered before it.
  unfoldable pub fetch_registered :
      MountOptions → SourceSpec → SourceSpec → RepoKey → Server m → Prepared
  fetch_registered options source gh key s =
      let registered = register m key options.cache_reservation_bytes s in
      let (fetched, cache) = o.fetch gh (fetch_options_of config options) registered.cache in
      after_fetch source gh key fetched (record registered { cache = cache })

  unfoldable pub prepare_resolved :
      MountOptions → Result (SourceSpec × ResolvedSource) Text → Server m → Prepared
  prepare_resolved options (err e) s = (err e, s)
  prepare_resolved options (ok (source, r)) s = elim (repo_key_of m config o (github_source_of r)) [
    | err e ↦ (err e, s)
    | ok key ↦ fetch_registered options source (github_source_of r) key s
  ]

  unfoldable pub prepare_mount : Text → MountOptions → Server m → Prepared
  prepare_mount source_str options s = elim (parse source_str) [
    | err e ↦ (err (text "invalid source: " ++ display e), s)
    | ok source ↦
        let (resolved, resolutions) = coordinates m config o source_str source s.resolutions in
        prepare_resolved options resolved (record s { resolutions = resolutions })
  ]

  abbrev pub Mounted : Type 0
  Mounted = Result MountInfo Text × Server m

  unfoldable pub nfs_address : ℕ → Text
  nfs_address port = text "127.0.0.1:" ++ decimal port

  -- What starts the NFS server, up to the first failure: the port that it listens on.
  unfoldable pub start_nfs : Text → MountPrep → Result ℕ Text
  start_nfs mount_point prep = elim (o.create_dir_all mount_point) [
    | some e ↦ err (text "failed to create mount point: " ++ e)
    | none ↦ elim o.pick_free_port [
      | err e ↦ err e
      | ok port ↦ elim (o.new_vfs prep.snapshot prep.subpath) [
        | some e ↦ err (text "failed to build VFS: " ++ e)
        | none ↦ elim (o.spawn port) [
          | some e ↦
              err (text "failed to start NFS server on " ++ (nfs_address port ++ (text ": " ++ e)))
          | none ↦ ok port
        ]
      ]
    ]
  ]

  unfoldable pub nfs_info : Text → Text → MountPrep → ℕ → MountInfo
  nfs_info source_str mount_point prep port = record {
    id = id_of prep.source_spec;
    source = source_str;
    mount_point = mount_point;
    commit_sha = prep.snapshot.commit_sha;
    status = ready;
    mounted_at = o.time_text;
    nfs_port = some port;
    backend = nfs;
    volume_path = none;
    symlink_paths = [];
  }

  unfoldable pub fskit_info : Text → Text → MountPrep → Text → MountInfo
  fskit_info source_str mount_point prep volume_path = record {
    id = id_of prep.source_spec;
    source = source_str;
    mount_point = mount_point;
    commit_sha = prep.snapshot.commit_sha;
    status = ready;
    mounted_at = o.time_text;
    nfs_port = none;
    backend = fskit;
    volume_path = some volume_path;
    symlink_paths = if holds (Text-discrete mount_point volume_path) then [] else mount_point ∷ [];
  }

  unfoldable pub handle_of : MountInfo → MountPrep → MountHandle
  handle_of info prep = record {
    info = info;
    backend = info.backend;
    repo_key = some prep.repo_key;
    counter_mount_id = id_of prep.github_source;
  }

  -- `mounts.insert`, which drops the handle that had the same id.
  unfoldable pub enter : MountInfo → MountPrep → Server m → Server m
  enter info prep s = record s { mounts = insert info.id (handle_of info prep) s.mounts }

  unfoldable pub started_nfs : Text → Text → MountPrep → Result ℕ Text → Server m → Mounted
  started_nfs source_str mount_point prep (err e) s = (err e, s)
  started_nfs source_str mount_point prep (ok port) s =
      let info = nfs_info source_str mount_point prep port in (ok info, enter info prep s)

  unfoldable pub nfs_prepared : Text → Text → Result MountPrep Text → Server m → Mounted
  nfs_prepared source_str mount_point (err e) s = (err e, s)
  nfs_prepared source_str mount_point (ok prep) s =
      started_nfs source_str mount_point prep (start_nfs mount_point prep) s

  unfoldable pub do_mount_nfs : Text → Text → MountOptions → Server m → Mounted
  do_mount_nfs source_str mount_point options s =
      let (prepared, s') = prepare_mount source_str options s in
      nfs_prepared source_str mount_point prepared s'

  unfoldable pub state_entry_of : Text → MountInfo → Text → MountStateEntry
  state_entry_of source_str info volume_path = record {
    source = source_str;
    volume_path = volume_path;
    symlink_paths = info.symlink_paths;
    backend = fskit;
    tcp_port = none;
    auth_token = none;
  }

  -- A failure to write the mount file is only logged.
  unfoldable pub persist_mount : MountStateEntry → Server m → Server m
  persist_mount entry s = record s {
    mount_file = (add_entry o.mount_json o.mount_disk entry s.mount_file).1;
  }

  unfoldable pub started_fskit : Text → Text → MountPrep → Result Text Text → Server m → Mounted
  started_fskit source_str mount_point prep (err e) s = (err (text "fskit mount failed: " ++ e), s)
  started_fskit source_str mount_point prep (ok volume_path) s =
      let info = fskit_info source_str mount_point prep volume_path in
      (ok info, enter info prep (persist_mount (state_entry_of source_str info volume_path) s))

  unfoldable pub fskit_prepared : Text → Text → Text → Result MountPrep Text → Server m → Mounted
  fskit_prepared source_str mount_point bundle_id (err e) s = (err e, s)
  fskit_prepared source_str mount_point bundle_id (ok prep) s =
      started_fskit source_str mount_point prep
        (o.start_fskit prep.source_spec prep.snapshot prep.subpath bundle_id) s

  -- The rest of the mount, with the bundle of the configuration.
  unfoldable pub fskit_with : Text → Text → MountOptions → Option Text → Server m → Mounted
  fskit_with source_str mount_point options none s =
      (err (text "CTXFS_FSKIT_BUNDLE_ID not set — cannot start FSKit mount"), s)
  fskit_with source_str mount_point options (some bundle_id) s =
      let (prepared, s') = prepare_mount source_str options s in
      fskit_prepared source_str mount_point bundle_id prepared s'

  unfoldable pub do_mount_fskit : Text → Text → MountOptions → Server m → Mounted
  do_mount_fskit source_str mount_point options s =
      fskit_with source_str mount_point options config.fskit_bundle_id s

  unfoldable pub do_mount : Text → Text → Backend → MountOptions → Server m → Mounted
  do_mount source_str mount_point nfs options s = do_mount_nfs source_str mount_point options s
  do_mount source_str mount_point fskit options s = do_mount_fskit source_str mount_point options s
