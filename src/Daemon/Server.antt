-- ===== src/Daemon/Server.antt =====
-- crates/ctxfs-daemon/src/daemon.rs and ctxfs-ipc/src/service.rs: the state of the service, and what
-- of a request is decided outside the daemon: registries, GitHub, the operating system, the clock.
use ctxfs.Common.{ℕ, ◌≡◌, Bool, Option, Result, List, [], Text, text_key}
use ctxfs.Core.Backend.{Backend}
use ctxfs.Core.Error.{CtxfsError}
use ctxfs.Core.Source.{ProviderType, SourceSpec}
use ctxfs.Cache.LinkedMap.{LinkedHashMap}
use ctxfs.Cache.State.{CacheEntry, RepoKey}
use ctxfs.Cache.Reserve.{register_mount, unregister_mount, add_owners}
use ctxfs.Cache.Blob.{BlobCache}
use ctxfs.Cache.Resolution.{ResolutionCache, ResolutionJson}
use ctxfs.Daemon.MountState.{Json, Disk, StateFile}
use ctxfs.Git.Prefetch.{FetchOptions}
use ctxfs.Manifest.Snapshot.{Snapshot}
use ctxfs.Provider.Fetcher.{PrefetchPolicy}

-- `ResolvedSource`
pub record ResolvedSource : Type 0 where
  pub owner : Text
  pub repo : Text
  pub git_ref : Text
  pub subpath : Option Text

pub record MountOptions : Type 0 where
  pub prefetch : PrefetchPolicy
  pub cache_reservation_bytes : Option ℕ

pub data MountStatus : Type 0 where
  mounting ready unmounting : MountStatus
  error : Text → MountStatus

pub record MountInfo : Type 0 where
  pub id : Text
  pub source : Text
  pub mount_point : Text
  pub commit_sha : Text
  pub status : MountStatus
  pub mounted_at : Text
  pub nfs_port : Option ℕ
  pub backend : Backend
  pub volume_path : Option Text
  pub symlink_paths : List Text

-- A handle without the running server or session that it keeps alive.
pub record MountHandle : Type 0 where
  pub info : MountInfo
  pub backend : Backend
  pub repo_key : Option RepoKey
  pub counter_mount_id : Text

abbrev pub Mounts : Type 0
Mounts = List (Text × MountHandle)

-- What `prepare_mount` hands to the backends, without the provider.
pub record MountPrep : Type 0 where
  pub source_spec : SourceSpec
  pub github_source : SourceSpec
  pub snapshot : Snapshot
  pub subpath : Option Text
  pub repo_key : RepoKey

module _ (m : LinkedHashMap Text CacheEntry) where
  pub record Server : Type 0 where
    pub cache : BlobCache m
    pub resolutions : ResolutionCache ResolvedSource
    pub mounts : Mounts
    pub mount_file : StateFile

  -- The outside during one request. A fetch gives the bytes of the snapshot and the hexes of its
  -- blobs, and may put blobs into the cache; it touches no reservation.
  pub record Outside : Type 0 where
    pub now : ℕ
    pub time_text : Text
    pub resolution_json : ResolutionJson ResolvedSource
    pub resolution_disk : Bool
    pub resolve_latest : ProviderType → Text → Result Text CtxfsError
    pub resolve : ProviderType → Text → Text → Result ResolvedSource CtxfsError
    pub fetch :
        SourceSpec
        → FetchOptions
        → BlobCache m
        → Result (List ℕ × List Text) CtxfsError × BlobCache m
    pub fetch-reservations :
        (source : SourceSpec) (options : FetchOptions) (c : BlobCache m)
        → (fetch source options c).1.state.reservations ≡ c.state.reservations
    pub from_slice : List ℕ → Result Snapshot Text
    pub create_dir_all : Text → Option Text
    pub pick_free_port : Result ℕ Text
    pub new_vfs : Snapshot → Option Text → Option Text
    pub spawn : ℕ → Option Text
    pub start_fskit : SourceSpec → Snapshot → Option Text → Text → Result Text Text
    pub mount_json : Json
    pub mount_disk : Disk

  -- The cache's calls for mounts, at its own limit.
  unfoldable pub register : RepoKey → Option ℕ → Server → Server
  register key bytes s = record s {
    cache = record (s.cache) {
      state = register_mount m s.cache.max_bytes key bytes [] s.cache.state;
    };
  }

  unfoldable pub unregister : RepoKey → Server → Server
  unregister key s = record s {
    cache = record (s.cache) { state = unregister_mount m s.cache.max_bytes key s.cache.state };
  }

  unfoldable pub own : RepoKey → List Text → Server → Server
  own key hexes s = record s {
    cache = record (s.cache) { state = add_owners m key hexes s.cache.state };
  }
