-- ===== src/Daemon/Requests/Runs.antt =====
-- The counts of the reservations after runs of requests, and the end of all mounts.
use ctxfs.Common.{
  ℕ, ◌+◌, ◌^◌, ◌<◌, ◌≤◌, ◌≡◌, refl, sym, ap, ◌∙◌, subst, Option, none, some, Option-cases, List, [],
  ◌∷◌, Text, text_key, arith, inl, inr, length,
}
use ctxfs.Common.Assoc.{lookup, remove, Distinct}
use ctxfs.Core.Backend.{Backend, nfs, fskit}
use ctxfs.Core.Config.{Config}
use ctxfs.Cache.LinkedMap.{LinkedHashMap}
use ctxfs.Cache.State.{CacheEntry, RepoKey, repo_key}
use ctxfs.Cache.Reserve.Counts.{Counts, Counts-unregister_mount}
use ctxfs.Daemon.Live.{key_counts, held, live, live-remove, Distinct-remove}
use ctxfs.Daemon.MountState.{Json, Disk}
use ctxfs.Daemon.Server.{MountOptions, MountHandle, Server, Outside, unregister}
use ctxfs.Daemon.Mount.{do_mount_nfs, fskit_with, do_mount_fskit, do_mount}
use ctxfs.Daemon.Mount.Prepared.{reservation, prepare_mount-Claims}
use ctxfs.Daemon.Unmount.{unregister_if, forget_volume, do_unmount_by_id, unmount, find_target}
use ctxfs.Daemon.Requests.{
  Request, to_mount, to_unmount, to_eject, step, run, lost_in, attempt_with, attempt, lost, losses,
}
use ctxfs.Daemon.Requests.Counted.{
  IsCounted, same_count, nfs_prepared-Counted, fskit_prepared-Counted,
}

module _ (m : LinkedHashMap Text CacheEntry) where
  weaken :
      (extra : RepoKey → ℕ) (bound : ℕ) (s : Server m)
      → IsCounted m extra bound s
      → IsCounted m (λ k. extra k + 0) (bound + 1) s
  weaken extra bound s c = record {
    distinct = c.distinct;
    counts = λ k. same_count m k s _ _ (omega arith) (c.counts k);
    bounded = λ k. omega (arith, c.bounded k);
  }

  module _ (json : Json) (disk : Disk) where
    forget-Counted :
        (extra : RepoKey → ℕ) (bound : ℕ) (volume : Option Text) (s : Server m)
        → IsCounted m extra bound s
        → IsCounted m extra bound (forget_volume m json disk volume s)
    unfolding forget_volume
    forget-Counted extra bound none s c = c
    forget-Counted extra bound (some v) s c = record {
      distinct = c.distinct;
      counts = c.counts;
      bounded = c.bounded;
    }

    unregister_if-Counted :
        (extra : RepoKey → ℕ) (bound : ℕ) (key : Option RepoKey) (s : Server m)
        → Distinct s.mounts
        → ((k : RepoKey)
            → Counts (reservation m k s) (live k s.mounts + extra k + key_counts k key))
        → ((k : RepoKey) → live k s.mounts + extra k ≤ bound)
        → IsCounted m extra bound (unregister_if m json disk key s)
    unfolding unregister_if unregister
    unregister_if-Counted extra bound none s d c b = record {
      distinct = d;
      counts = λ k. same_count m k s _ _ (omega arith) (c k);
      bounded = b;
    }
    unregister_if-Counted extra bound (some key) s d c b = record {
      distinct = d;
      counts = λ k.
          Counts-unregister_mount m s.cache.max_bytes key k s.cache.state
            (live k s.mounts + extra k) (c k);
      bounded = b;
    }

    -- The handle goes, and its registration with it.
    release-Counted :
        (extra : RepoKey → ℕ) (bound : ℕ) (id : Text) (h : MountHandle) (s : Server m)
        → lookup id s.mounts ≡ some h
        → IsCounted m extra bound s
        → IsCounted m extra bound
            (unregister_if m json disk h.repo_key (record s { mounts = remove id s.mounts }))
    release-Counted extra bound id h s found c =
        let removed = λ (k : RepoKey).
          ap (λ o. live k (remove id s.mounts) + held k o) (sym found)
          ∙ live-remove k id s.mounts c.distinct in
        unregister_if-Counted extra bound h.repo_key _ (Distinct-remove id s.mounts c.distinct)
          (λ k. same_count m k s _ _ (omega (arith, removed k)) (c.counts k))
          (λ k. omega (arith, removed k, c.bounded k))

    pub do_unmount_none :
        (id : Text) (s : Server m)
        → lookup id s.mounts ≡ none
        → (do_unmount_by_id m json disk id s).1 ≡ s
    unfolding do_unmount_by_id
    do_unmount_none id s absent = ground arith

    pub do_unmount_some :
        (id : Text) (h : MountHandle) (s : Server m)
        → lookup id s.mounts ≡ some h
        → (do_unmount_by_id m json disk id s).1
          ≡ forget_volume m json disk h.info.volume_path
              (unregister_if m json disk h.repo_key (record s { mounts = remove id s.mounts }))
    unfolding do_unmount_by_id
    do_unmount_some id h s found = ground arith

    pub do_unmount_by_id-Counted :
        (extra : RepoKey → ℕ) (bound : ℕ) (id : Text) (s : Server m)
        → IsCounted m extra bound s
        → IsCounted m extra bound (do_unmount_by_id m json disk id s).1
    do_unmount_by_id-Counted extra bound id s c = elim (Option-cases (lookup id s.mounts)) [
      | inl absent ↦ subst (IsCounted m extra bound) (sym (do_unmount_none id s absent)) c
      | inr (h, found) ↦
          subst (IsCounted m extra bound) (sym (do_unmount_some id h s found))
            (forget-Counted extra bound _ _ (release-Counted extra bound id h s found c))
    ]

    unmount-Counted :
        (extra : RepoKey → ℕ) (bound : ℕ) (target : Text) (s : Server m)
        → IsCounted m extra bound s
        → IsCounted m extra bound (unmount m json disk target s).1
    unfolding unmount
    unmount-Counted extra bound target s c = elim (Option-cases (find_target target s.mounts)) [
      | inl absent ↦ rw (absent, unmount) c
      | inr (k, found) ↦ rw (found, unmount) (do_unmount_by_id-Counted extra bound k s c)
    ]

  module _ (config : Config) where
    fskit_with-Counted :
        (o : Outside m) (source mount_point : Text) (options : MountOptions) (bundle : Option Text)
        (extra : RepoKey → ℕ) (bound : ℕ) (s : Server m)
        → bound + 1 < 2 ^ 32
        → IsCounted m extra bound s
        → let r = fskit_with m config o source mount_point options bundle s in
          IsCounted m
            (λ k.
              extra k
              + lost_in m config k (attempt_with m config o source options bundle s) r.0 s.mounts)
            (bound + 1)
            r.1
    unfolding fskit_with attempt_with lost_in
    fskit_with-Counted o source mount_point options none extra bound s room c =
        weaken extra bound s c
    fskit_with-Counted o source mount_point options (some bundle_id) extra bound s room c =
        fskit_prepared-Counted m config o source mount_point extra bound room s c bundle_id _ _
          (prepare_mount-Claims m config o source options s)

    do_mount-Counted :
        (o : Outside m) (source mount_point : Text) (backend : Backend) (options : MountOptions)
        (extra : RepoKey → ℕ) (bound : ℕ) (s : Server m)
        → bound + 1 < 2 ^ 32
        → IsCounted m extra bound s
        → IsCounted m
            (λ k. extra k + lost m config k (to_mount o source mount_point backend options) s)
            (bound + 1)
            (do_mount m config o source mount_point backend options s).1
    unfolding do_mount lost attempt do_mount_nfs do_mount_fskit
    do_mount-Counted o source mount_point nfs options extra bound s room c =
        nfs_prepared-Counted m config o source mount_point extra bound room s c _ _
          (prepare_mount-Claims m config o source options s)
    do_mount-Counted o source mount_point fskit options extra bound s room c =
        fskit_with-Counted o source mount_point options config.fskit_bundle_id extra bound s room c

    step-Counted :
        (r : Request m) (extra : RepoKey → ℕ) (bound : ℕ) (s : Server m)
        → bound + 1 < 2 ^ 32
        → IsCounted m extra bound s
        → IsCounted m (λ k. extra k + lost m config k r s) (bound + 1) (step m config r s)
    unfolding step lost
    step-Counted (to_mount o source mount_point backend options) extra bound s room c =
        do_mount-Counted o source mount_point backend options extra bound s room c
    step-Counted (to_unmount json disk target) extra bound s room c =
        weaken extra bound _ (unmount-Counted json disk extra bound target s c)
    step-Counted (to_eject json disk id) extra bound s room c =
        weaken extra bound _ (do_unmount_by_id-Counted json disk extra bound id s c)

    run-IsCounted :
        (rs : List (Request m)) (extra : RepoKey → ℕ) (bound : ℕ) (s : Server m)
        → bound + length rs < 2 ^ 32
        → IsCounted m extra bound s
        → IsCounted m
            (λ k. extra k + losses m config k rs s)
            (bound + length rs)
            (run m config rs s)
    unfolding run losses
    run-IsCounted [] extra bound s room c = record {
      distinct = c.distinct;
      counts = λ k. same_count m k s _ _ (omega arith) (c.counts k);
      bounded = λ k. omega (arith, c.bounded k);
    }
    run-IsCounted (r ∷ rs) extra bound s room c =
        let after =
          run-IsCounted rs _ (bound + 1) (step m config r s) (omega arith)
            (step-Counted r extra bound s (omega arith) c) in
        record {
          distinct = after.distinct;
          counts = λ k.
              same_count m k (run m config rs (step m config r s)) _ _ (omega arith)
                (after.counts k);
          bounded = λ k. omega (arith, after.bounded k);
        }

    -- A service without mounts, whose cache has no reservation.
    abbrev pub IsIdle : Server m → Type 0
    IsIdle s = (s.mounts ≡ []) × (s.cache.state.reservations ≡ [])

    idle-IsCounted : (s : Server m) → IsIdle s → IsCounted m (λ k. 0) 0 s
    unfolding live lookup
    idle-IsCounted s (none_mounted, none_reserved) = record {
      distinct = rw none_mounted tt;
      counts = λ k. rw (none_mounted, none_reserved) refl;
      bounded = λ k. rw none_mounted (omega arith);
    }

    pub idle-run :
        (rs : List (Request m)) (s : Server m)
        → IsIdle s
        → length rs < 2 ^ 32
        → IsCounted m (λ k. losses m config k rs s) (length rs) (run m config rs s)
    idle-run rs s idle room =
        let c = run-IsCounted rs (λ k. 0) 0 s (omega arith) (idle-IsCounted s idle) in
        record {
          distinct = c.distinct;
          counts = λ k. same_count m k (run m config rs s) _ _ (omega arith) (c.counts k);
          bounded = λ k. omega (arith, c.bounded k);
        }

    -- After fewer than 2^32 requests, in any order and with any outcomes, to a service that began
    -- without mounts and reservations, a repository has a reservation exactly if it has a live
    -- mount or lost a registration, and the reservation counts its live mounts and the
    -- registrations that were lost: of mounts that were prepared and did not start, and of
    -- handles whose id a later mount took.
    pub run-Counts :
        (rs : List (Request m)) (s : Server m) (k : RepoKey)
        → IsIdle s
        → length rs < 2 ^ 32
        → let s' = run m config rs s in
          Counts (reservation m k s') (live k s'.mounts + losses m config k rs s)
    run-Counts rs s k idle room = (idle-run rs s idle room).counts k
