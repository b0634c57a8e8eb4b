-- ===== src/Daemon/Requests/Started.antt =====
-- One mount: what the service says of it afterwards, and what is left when it does not start.
use ctxfs.Common.{
  ℕ, ◌+◌, ◌^◌, ◌<◌, ◌≡◌, refl, sym, ap, ◌∙◌, subst, Option, none, some, Result, ok, err, Text,
  text_key, arith,
}
use ctxfs.Common.Assoc.{lookup, remove, lookup-insert, lookup-remove}
use ctxfs.Core.Backend.{Backend, nfs, fskit}
use ctxfs.Core.Config.{Config}
use ctxfs.Cache.LinkedMap.{LinkedHashMap}
use ctxfs.Cache.State.{CacheEntry}
use ctxfs.Cache.Reserve.Counts.{Counts, one_of-same}
use ctxfs.Daemon.MountState.{Json, Disk}
use ctxfs.Daemon.Server.{MountOptions, MountInfo, Mounts, MountPrep, Server, Outside}
use ctxfs.Daemon.Mount.{
  prepare_mount, start_nfs, started_nfs, started_fskit, nfs_prepared, fskit_prepared, enter,
  handle_of, do_mount_nfs, fskit_with, do_mount_fskit, do_mount,
}
use ctxfs.Daemon.Mount.Prepared.{claimed, reservation, prepare_mount-Claims}
use ctxfs.Daemon.Unmount.{not_mounted, do_unmount_by_id, mount_status}
use ctxfs.Daemon.Requests.Ends.{mounts-unmount}

module _ (m : LinkedHashMap Text CacheEntry) where
  -- What the service says of an id that was just entered.
  abbrev Says : Json → Disk → Result MountInfo Text → Server m → Type 0
  Says json disk (err e) s = Unit
  Says json disk (ok info) s = mount_status m json disk info.id s ≡ ok info

  module _ (config : Config) (o : Outside m) (json : Json) (disk : Disk) where
    enter-Says :
        (info : MountInfo) (prep : MountPrep) (s : Server m)
        → Says json disk (ok info) (enter m config o info prep s)
    unfolding mount_status enter handle_of
    enter-Says info prep s =
        ground (arith, lookup-insert info.id info.id (handle_of m config o info prep) s.mounts)

    module _ (source mount_point : Text) where
      started_nfs-Says :
          (prep : MountPrep) (started : Result ℕ Text) (s : Server m)
          → let r = started_nfs m config o source mount_point prep started s in
            Says json disk r.0 r.1
      unfolding started_nfs
      started_nfs-Says prep (err e) s = tt
      started_nfs-Says prep (ok port) s = enter-Says _ prep s

      nfs_prepared-Says :
          (prepared : Result MountPrep Text) (s : Server m)
          → let r = nfs_prepared m config o source mount_point prepared s in Says json disk r.0 r.1
      unfolding nfs_prepared
      nfs_prepared-Says (err e) s = tt
      nfs_prepared-Says (ok prep) s = started_nfs-Says prep _ s

      started_fskit-Says :
          (prep : MountPrep) (started : Result Text Text) (s : Server m)
          → let r = started_fskit m config o source mount_point prep started s in
            Says json disk r.0 r.1
      unfolding started_fskit
      started_fskit-Says prep (err e) s = tt
      started_fskit-Says prep (ok volume_path) s = enter-Says _ prep _

      fskit_prepared-Says :
          (bundle_id : Text) (prepared : Result MountPrep Text) (s : Server m)
          → let r = fskit_prepared m config o source mount_point bundle_id prepared s in
            Says json disk r.0 r.1
      unfolding fskit_prepared
      fskit_prepared-Says bundle_id (err e) s = tt
      fskit_prepared-Says bundle_id (ok prep) s = started_fskit-Says prep _ s

      fskit_with-Says :
          (options : MountOptions) (bundle : Option Text) (s : Server m)
          → let r = fskit_with m config o source mount_point options bundle s in
            Says json disk r.0 r.1
      unfolding fskit_with
      fskit_with-Says options none s = tt
      fskit_with-Says options (some bundle_id) s = fskit_prepared-Says bundle_id _ _

      do_mount-Says :
          (backend : Backend) (options : MountOptions) (s : Server m)
          → let r = do_mount m config o source mount_point backend options s in
            Says json disk r.0 r.1
      unfolding do_mount do_mount_nfs do_mount_fskit
      do_mount-Says nfs options s = nfs_prepared-Says _ _
      do_mount-Says fskit options s = fskit_with-Says options config.fskit_bundle_id s

      status_absent :
          (id : Text) (s : Server m)
          → lookup id s.mounts ≡ none
          → mount_status m json disk id s ≡ err (not_mounted id)
      unfolding mount_status
      status_absent id s absent = ground arith

      removed_absent : (id : Text) (ms : Mounts) → lookup id (remove id ms) ≡ none
      removed_absent id ms = ground (arith, lookup-remove id id ms)

      status-unmount :
          (id : Text) (s : Server m)
          → mount_status m json disk id (do_unmount_by_id m json disk id s).1 ≡ err (not_mounted id)
      status-unmount id s =
          status_absent id _
            (ap (lookup id) (mounts-unmount m config json disk id s) ∙ removed_absent id s.mounts)

      -- Where a mount is answered with its description, by either backend, the status of its id is
      -- that description, and after an unmount of that id there is no such mount.
      pub mount_status-do_mount :
          (backend : Backend) (options : MountOptions) (s : Server m) (info : MountInfo)
          → (do_mount m config o source mount_point backend options s).0 ≡ ok info
          → let s' = (do_mount m config o source mount_point backend options s).1 in
            (mount_status m json disk info.id s' ≡ ok info)
            × (mount_status m json disk info.id (do_unmount_by_id m json disk info.id s').1
                ≡ err (not_mounted info.id))
      mount_status-do_mount backend options s info done =
          let s' = (do_mount m config o source mount_point backend options s).1 in
          (
            subst (λ r. Says json disk r s') done (do_mount-Says backend options s),
            status-unmount info.id s',
          )

  module _ (config : Config) (o : Outside m) (source mount_point : Text) (options : MountOptions)
      (s : Server m) (prep : MountPrep) where
    not_started :
        (e : Text) (s' : Server m)
        → start_nfs m config o mount_point prep ≡ err e
        → nfs_prepared m config o source mount_point (ok prep) s' ≡ (err e, s')
    unfolding nfs_prepared started_nfs
    not_started e s' bad = ground arith

    do_mount_nfs_failed :
        (e : Text)
        → (prepare_mount m config o source options s).0 ≡ ok prep
        → start_nfs m config o mount_point prep ≡ err e
        → do_mount_nfs m config o source mount_point options s
          ≡ (err e, (prepare_mount m config o source options s).1)
    unfolding do_mount_nfs
    do_mount_nfs_failed e prepared bad =
        let s' = (prepare_mount m config o source options s).1 in
        ap (λ r. nfs_prepared m config o source mount_point r s') prepared ∙ not_started e s' bad

    -- Where the preparation of an NFS mount succeeds and its start fails, at the mount point, the
    -- port, the file system or the server, the request is answered with that error and no mount
    -- is added or removed, but the reservation of the repository counts one mount more, as long
    -- as the count fits 32 bits.
    pub do_mount_nfs-leaks :
        (e : Text)
        → (prepare_mount m config o source options s).0 ≡ ok prep
        → start_nfs m config o mount_point prep ≡ err e
        → let r = do_mount_nfs m config o source mount_point options s in
          let key = prep.repo_key in
          (r.0 ≡ err e)
          × (r.1.mounts ≡ s.mounts)
          × ((n : ℕ)
              → n + 1 < 2 ^ 32
              → Counts (reservation m key s) n
              → Counts (reservation m key r.1) (n + 1))
    do_mount_nfs-leaks e prepared bad =
        let s' = (prepare_mount m config o source options s).1 in
        let key = prep.repo_key in
        let claims = prepare_mount-Claims m config o source options s in
        let Leaves = λ (r : Result MountInfo Text × Server m).
          (r.0 ≡ err e)
          × (r.1.mounts ≡ s.mounts)
          × ((n : ℕ)
              → n + 1 < 2 ^ 32
              → Counts (reservation m key s) n
              → Counts (reservation m key r.1) (n + 1)) in
        subst Leaves (sym (do_mount_nfs_failed e prepared bad)) (
          refl,
          claims.same_mounts,
          λ n room c.
              subst (λ i. Counts (reservation m key s') (n + i))
                (ap (claimed key) prepared ∙ one_of-same key key refl) (claims.counts key n room c),
        )
