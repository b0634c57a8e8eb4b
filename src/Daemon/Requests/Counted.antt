-- ===== src/Daemon/Requests/Counted.antt =====
-- After any requests, the reservation of a repository counts its live mounts, and what was lost.
use ctxfs.Common.{
  ℕ, ◌+◌, ◌^◌, ◌<◌, ◌≤◌, ◌≡◌, sym, ap, subst, Result, ok, err, Text, text_key, arith,
}
use ctxfs.Common.Assoc.{lookup, Distinct, Distinct-insert}
use ctxfs.Core.Config.{Config}
use ctxfs.Cache.LinkedMap.{LinkedHashMap}
use ctxfs.Cache.State.{CacheEntry, RepoKey}
use ctxfs.Cache.Reserve.Counts.{Counts, one_of}
use ctxfs.Daemon.Live.{held, live, live-insert}
use ctxfs.Daemon.MountState.{MountStateEntry}
use ctxfs.Daemon.Server.{MountInfo, MountPrep, Server, Outside}
use ctxfs.Daemon.Mount.{
  started_nfs, started_fskit, nfs_prepared, fskit_prepared, enter, persist_mount, handle_of,
}
use ctxfs.Daemon.Mount.Prepared.{claimed, reservation, Claims}
use ctxfs.Daemon.Requests.{lost_in}

module _ (m : LinkedHashMap Text CacheEntry) where
  -- Each id has one handle, and each repository counts its live mounts and `extra` more, together
  -- at most `bound`.
  pub record IsCounted (extra : RepoKey → ℕ) (bound : ℕ) (s : Server m) : Type 0 where
    pub distinct : Distinct s.mounts
    pub counts : (k : RepoKey) → Counts (reservation m k s) (live k s.mounts + extra k)
    pub bounded : (k : RepoKey) → live k s.mounts + extra k ≤ bound

  one_of-le : (k key : RepoKey) → one_of k key ≤ 1
  unfolding one_of
  one_of-le k key = ground arith

  claimed-le : (k : RepoKey) (r : Result MountPrep Text) → claimed k r ≤ 1
  claimed-le k (err e) = omega arith
  claimed-le k (ok prep) = one_of-le k prep.repo_key

  pub same_count :
      (k : RepoKey) (s : Server m) (a b : ℕ)
      → a ≡ b
      → Counts (reservation m k s) a
      → Counts (reservation m k s) b
  same_count k s a b e c = subst (Counts (reservation m k s)) e c

  module _ (config : Config) (o : Outside m) where
    entered_number :
        (k : RepoKey) (extra : RepoKey → ℕ) (s s' : Server m) (prep : MountPrep) (info : MountInfo)
        → s'.mounts ≡ s.mounts
        → live k (enter m config o info prep s').mounts
            + (extra k + held k (lookup info.id s.mounts))
          ≡ live k s.mounts + extra k + one_of k prep.repo_key
    unfolding enter handle_of
    entered_number k extra s s' prep info same =
        let a = ap (live k) same in
        let b = ap (λ ms. held k (lookup info.id ms)) same in
        let e = live-insert k info.id (handle_of m config o info prep) s'.mounts in omega arith

    -- A mount that is entered after its preparation.
    entered :
        (extra : RepoKey → ℕ) (bound : ℕ) (s s' : Server m) (prep : MountPrep) (info : MountInfo)
        → bound + 1 < 2 ^ 32
        → Claims m s (ok prep) s'
        → IsCounted extra bound s
        → IsCounted
            (λ k. extra k + held k (lookup info.id s.mounts))
            (bound + 1)
            (enter m config o info prep s')
    unfolding enter
    entered extra bound s s' prep info room claims c = record {
      distinct = Distinct-insert _ _ _ (subst Distinct (sym claims.same_mounts) c.distinct);
      counts = λ k.
          same_count k s' _ _ (sym (entered_number k extra s s' prep info claims.same_mounts))
            (claims.counts k (live k s.mounts + extra k) (omega (arith, c.bounded k)) (c.counts k));
      bounded = λ k. omega (
        arith,
        c.bounded k,
        one_of-le k prep.repo_key,
        entered_number k extra s s' prep info claims.same_mounts,
      );
    }

    -- A preparation whose claim stays without a handle, or that claimed nothing.
    pub without_handle :
        (extra : RepoKey → ℕ) (bound : ℕ) (s s' : Server m) (r : Result MountPrep Text)
        → bound + 1 < 2 ^ 32
        → Claims m s r s'
        → IsCounted extra bound s
        → IsCounted (λ k. extra k + claimed k r) (bound + 1) s'
    without_handle extra bound s s' r room claims c =
        let same = λ (k : RepoKey). ap (live k) claims.same_mounts in
        record {
          distinct = subst Distinct (sym claims.same_mounts) c.distinct;
          counts = λ k. same_count k s' _ _ (omega (arith, same k)) (
              claims.counts k (live k s.mounts + extra k) (omega (arith, c.bounded k))
                (c.counts k));
          bounded = λ k. omega (arith, c.bounded k, same k, claimed-le k r);
        }

    persist_mount-Claims :
        (entry : MountStateEntry) (s s' : Server m) (r : Result MountPrep Text)
        → Claims m s r s'
        → Claims m s r (persist_mount m config o entry s')
    unfolding persist_mount
    persist_mount-Claims entry s s' r c = record { same_mounts = c.same_mounts; counts = c.counts }

    module _ (source mount_point : Text) (extra : RepoKey → ℕ) (bound : ℕ)
        (room : bound + 1 < 2 ^ 32) (s : Server m) (counted : IsCounted extra bound s) where
      started_nfs-Counted :
          (prep : MountPrep) (started : Result ℕ Text) (s' : Server m)
          → Claims m s (ok prep) s'
          → let r = started_nfs m config o source mount_point prep started s' in
            IsCounted (λ k. extra k + lost_in m config k (ok prep) r.0 s.mounts) (bound + 1) r.1
      unfolding started_nfs lost_in
      started_nfs-Counted prep (err e) s' claims =
          without_handle extra bound s s' (ok prep) room claims counted
      started_nfs-Counted prep (ok port) s' claims =
          entered extra bound s s' prep _ room claims counted

      started_fskit-Counted :
          (prep : MountPrep) (started : Result Text Text) (s' : Server m)
          → Claims m s (ok prep) s'
          → let r = started_fskit m config o source mount_point prep started s' in
            IsCounted (λ k. extra k + lost_in m config k (ok prep) r.0 s.mounts) (bound + 1) r.1
      unfolding started_fskit lost_in
      started_fskit-Counted prep (err e) s' claims =
          without_handle extra bound s s' (ok prep) room claims counted
      started_fskit-Counted prep (ok volume_path) s' claims =
          entered extra bound s _ prep _ room (persist_mount-Claims _ s s' (ok prep) claims) counted

      pub nfs_prepared-Counted :
          (prepared : Result MountPrep Text) (s' : Server m)
          → Claims m s prepared s'
          → let r = nfs_prepared m config o source mount_point prepared s' in
            IsCounted (λ k. extra k + lost_in m config k prepared r.0 s.mounts) (bound + 1) r.1
      unfolding nfs_prepared lost_in
      nfs_prepared-Counted (err e) s' claims =
          without_handle extra bound s s' (err e) room claims counted
      nfs_prepared-Counted (ok prep) s' claims = started_nfs-Counted prep _ s' claims

      pub fskit_prepared-Counted :
          (bundle_id : Text) (prepared : Result MountPrep Text) (s' : Server m)
          → Claims m s prepared s'
          → let r = fskit_prepared m config o source mount_point bundle_id prepared s' in
            IsCounted (λ k. extra k + lost_in m config k prepared r.0 s.mounts) (bound + 1) r.1
      unfolding fskit_prepared lost_in
      fskit_prepared-Counted bundle_id (err e) s' claims =
          without_handle extra bound s s' (err e) room claims counted
      fskit_prepared-Counted bundle_id (ok prep) s' claims = started_fskit-Counted prep _ s' claims
