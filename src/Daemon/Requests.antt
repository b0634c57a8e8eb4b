-- ===== src/Daemon/Requests.antt =====
-- crates/ctxfs-daemon/src/daemon.rs: requests that reach the service one after another, each with what
-- the outside does during it.
pub mod Counted
pub mod Runs
pub mod Ends
pub mod Started
use ctxfs.Common.{ℕ, ◌+◌, Option, none, some, Result, ok, err, List, [], ◌∷◌, Text, text, text_key}
use ctxfs.Common.Assoc.{lookup}
use ctxfs.Core.Backend.{Backend, nfs, fskit}
use ctxfs.Core.Config.{Config}
use ctxfs.Cache.LinkedMap.{LinkedHashMap}
use ctxfs.Cache.State.{CacheEntry, RepoKey}
use ctxfs.Cache.Reserve.Counts.{one_of}
use ctxfs.Daemon.Live.{held}
use ctxfs.Daemon.MountState.{Json, Disk}
use ctxfs.Daemon.Server.{MountOptions, MountInfo, MountPrep, Mounts, Server, Outside}
use ctxfs.Daemon.Mount.{prepare_mount, do_mount}
use ctxfs.Daemon.Unmount.{unmount, do_unmount_by_id}

module _ (m : LinkedHashMap Text CacheEntry) where
  -- `mount` and `unmount` of the service, and the watcher of a volume that is ejected.
  pub data Request : Type 0 where
    to_mount :
        (outside : Outside m) (source mount_point : Text) (backend : Backend)
        (options : MountOptions)
        → Request
    to_unmount : (json : Json) (disk : Disk) (target : Text) → Request
    to_eject : (json : Json) (disk : Disk) (mount_id : Text) → Request

  module _ (config : Config) where
    unfoldable pub step : Request → Server m → Server m
    step (to_mount o source mount_point backend options) s =
        (do_mount m config o source mount_point backend options s).1
    step (to_unmount json disk target) s = (unmount m json disk target s).1
    step (to_eject json disk mount_id) s = (do_unmount_by_id m json disk mount_id s).1

    unfoldable pub run : List Request → Server m → Server m
    run [] s = s
    run (r ∷ rs) s = run rs (step r s)

    -- A registration that no handle gives back any more: of a mount that was prepared and did not
    -- start, or of the handle whose id a new mount takes.
    unfoldable pub lost_in : RepoKey → Result MountPrep Text → Result MountInfo Text → Mounts → ℕ
    lost_in k (err e) r mounts = 0
    lost_in k (ok prep) (err e) mounts = one_of k prep.repo_key
    lost_in k (ok prep) (ok info) mounts = held k (lookup info.id mounts)

    -- The preparation of a mount; without a bundle FSKit does not come to it.
    unfoldable pub attempt_with :
        Outside m → Text → MountOptions → Option Text → Server m → Result MountPrep Text
    attempt_with o source options none s = err []
    attempt_with o source options (some bundle_id) s = (prepare_mount m config o source options s).0

    unfoldable pub attempt :
        Outside m → Text → Backend → MountOptions → Server m → Result MountPrep Text
    attempt o source nfs options s = (prepare_mount m config o source options s).0
    attempt o source fskit options s = attempt_with o source options config.fskit_bundle_id s

    unfoldable pub lost : RepoKey → Request → Server m → ℕ
    lost k (to_mount o source mount_point backend options) s =
        lost_in k (attempt o source backend options s)
          (do_mount m config o source mount_point backend options s).0 s.mounts
    lost k (to_unmount json disk target) s = 0
    lost k (to_eject json disk mount_id) s = 0

    -- All that a run has lost.
    unfoldable pub losses : RepoKey → List Request → Server m → ℕ
    losses k [] s = 0
    losses k (r ∷ rs) s = lost k r s + losses k rs (step r s)
