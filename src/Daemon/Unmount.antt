-- ===== src/Daemon/Unmount.antt =====
-- crates/ctxfs-daemon/src/daemon.rs: `do_unmount_by_id` and the service's questions.
use ctxfs.Common.{
  Bool, false, ◌||◌, Option, none, some, Result, ok, err, List, [], ◌∷◌, ◌++◌, Text, text, text_key,
  Text-discrete, if◌then◌else◌, holds,
}
use ctxfs.Common.Assoc.{lookup, remove}
use ctxfs.Cache.LinkedMap.{LinkedHashMap}
use ctxfs.Cache.State.{CacheEntry, RepoKey}
use ctxfs.Daemon.MountState.{Json, Disk, remove_volume, clear_entries}
use ctxfs.Daemon.Server.{MountInfo, Mounts, Server, unregister}

unfoldable pub not_mounted : Text → Text
not_mounted id = text "mount not found: " ++ id

unfoldable pub is_volume : Text → Option Text → Bool
is_volume target none = false
is_volume target (some v) = holds (Text-discrete v target)

-- The test of `unmount`: the mount point, the id, or the volume.
unfoldable pub is_target : Text → MountInfo → Bool
is_target target info =
    holds (Text-discrete info.mount_point target)
    || (holds (Text-discrete info.id target) || is_volume target info.volume_path)

unfoldable pub find_target : Text → Mounts → Option Text
find_target target [] = none
find_target target ((k, h) ∷ mounts) =
    if is_target target h.info then some k else find_target target mounts

unfoldable pub infos : Mounts → List MountInfo
infos [] = []
infos ((k, h) ∷ mounts) = h.info ∷ infos mounts

unfoldable pub ids_of : Mounts → List Text
ids_of [] = []
ids_of ((k, h) ∷ mounts) = k ∷ ids_of mounts

module _ (m : LinkedHashMap Text CacheEntry) (json : Json) (disk : Disk) where
  unfoldable pub unregister_if : Option RepoKey → Server m → Server m
  unregister_if none s = s
  unregister_if (some key) s = unregister m key s

  -- A failure to write the mount file is only logged.
  unfoldable pub forget_volume : Option Text → Server m → Server m
  forget_volume none s = s
  forget_volume (some volume_path) s = record s {
    mount_file = (remove_volume json disk volume_path s.mount_file).1;
  }

  unfoldable pub do_unmount_by_id : Text → Server m → Result (Unit {0}) Text × Server m
  do_unmount_by_id mount_id s = elim (lookup mount_id s.mounts) [
    | none ↦ (err (not_mounted mount_id), s)
    | some h ↦ (
      ok tt,
      forget_volume h.info.volume_path
          (unregister_if h.repo_key (record s { mounts = remove mount_id s.mounts })),
    )
  ]

  unfoldable pub unmount : Text → Server m → Result (Unit {0}) Text × Server m
  unmount target s = elim (find_target target s.mounts) [
    | none ↦ (err (not_mounted target), s)
    | some key ↦ do_unmount_by_id key s
  ]

  -- `list` and `status`
  unfoldable pub list_mounts : Server m → List MountInfo
  list_mounts s = infos s.mounts

  unfoldable pub mount_status : Text → Server m → Result MountInfo Text
  mount_status mount_id s = elim (lookup mount_id s.mounts) [
    | none ↦ err (not_mounted mount_id)
    | some h ↦ ok h.info
  ]

  -- `Daemon::cleanup`: the handles go, and the file of the mounts is cleared.
  unfoldable pub cleanup : Server m → Server m
  cleanup s = record s { mounts = []; mount_file = (clear_entries json disk s.mount_file).1 }
