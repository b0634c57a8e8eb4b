-- ===== src/Daemon/Mount/Prepared.antt =====
-- What `prepare_mount` does to the mounts and to the counts of the reservations.
use ctxfs.Common.{
  ℕ, ◌+◌, ◌^◌, ◌<◌, ◌≡◌, refl, sym, subst, Option, Result, ok, err, Result-cases, List, [], ◌++◌,
  Text, text, text_key, arith, inl, inr,
}
use ctxfs.Common.Assoc.{lookup}
use ctxfs.Core.Config.{Config}
use ctxfs.Core.Error.{CtxfsError, display}
use ctxfs.Manifest.Snapshot.{Snapshot}
use ctxfs.Core.Source.{SourceSpec, parse}
use ctxfs.Cache.LinkedMap.{LinkedHashMap}
use ctxfs.Cache.State.{CacheEntry, RepoKey, repo_key, ReservationEntry}
use ctxfs.Cache.Reserve.{add_owners}
use ctxfs.Cache.Reserve.Counts.{Counts, one_of, Counts-register_mount, Counts-unregister_mount}
use ctxfs.Daemon.Server.{
  ResolvedSource, MountOptions, MountPrep, Server, Outside, register, unregister, own,
}
use ctxfs.Daemon.Resolve.{coordinates, repo_key_of, github_source_of, fetch_options_of}
use ctxfs.Daemon.Mount.{after_fetch, fetch_registered, prepare_resolved, prepare_mount}

-- What a preparation has registered for a repository.
abbrev pub claimed : RepoKey → Result MountPrep Text → ℕ
claimed k (err e) = 0
claimed k (ok prep) = one_of k prep.repo_key

module _ (m : LinkedHashMap Text CacheEntry) where
  abbrev pub reservation : RepoKey → Server m → Option ReservationEntry
  reservation k s = lookup k s.cache.state.reservations

  -- The mounts are as they were, and each repository counts what is claimed for it more.
  pub record Claims (s : Server m) (r : Result MountPrep Text) (s' : Server m) : Type 0 where
    pub same_mounts : s'.mounts ≡ s.mounts
    pub counts :
        (k : RepoKey) (n : ℕ)
        → n + 1 < 2 ^ 32
        → Counts (reservation k s) n
        → Counts (reservation k s') (n + claimed k r)

  -- The same, of a repository that is registered already.
  record Settles (key : RepoKey) (s : Server m) (r : Result MountPrep Text) (s' : Server m)
      : Type 0 where
    same_mounts : s'.mounts ≡ s.mounts
    counts :
        (k : RepoKey) (n : ℕ)
        → Counts (reservation k s) (n + one_of k key)
        → Counts (reservation k s') (n + claimed k r)

  gives_back :
      (key : RepoKey) (s : Server m) (e : Text) → Settles key s (err e) (unregister m key s)
  unfolding unregister
  gives_back key s e = record {
    same_mounts = refl;
    counts = λ k n c.
        subst (Counts (reservation k (unregister m key s))) (omega arith)
          (Counts-unregister_mount m s.cache.max_bytes key k s.cache.state n c);
  }

  keeps :
      (key : RepoKey) (hexes : List Text) (s : Server m) (prep : MountPrep)
      → prep.repo_key ≡ key
      → Settles key s (ok prep) (own m key hexes s)
  unfolding own add_owners
  keeps key hexes s prep same = record { same_mounts = refl; counts = λ k n c. rw same c }

  pub untouched : (s : Server m) (e : Text) → Claims s (err e) s
  untouched s e = record {
    same_mounts = refl;
    counts = λ k n room c. subst (Counts (reservation k s)) (omega arith) c;
  }

  module _ (config : Config) (o : Outside m) where
    after_fetch_bad :
        (source gh : SourceSpec) (key : RepoKey) (content : List ℕ) (hexes : List Text) (e : Text)
        (s : Server m)
        → o.from_slice content ≡ err e
        → after_fetch m config o source gh key (ok (content, hexes)) s
          ≡ (err (text "failed to parse snapshot: " ++ e), unregister m key s)
    unfolding after_fetch
    after_fetch_bad source gh key content hexes e s bad = ground arith

    after_fetch_good :
        (source gh : SourceSpec) (key : RepoKey) (content : List ℕ) (hexes : List Text)
        (snapshot : Snapshot) (s : Server m)
        → o.from_slice content ≡ ok snapshot
        → after_fetch m config o source gh key (ok (content, hexes)) s ≡ (
          ok (record {
            source_spec = source;
            github_source = gh;
            snapshot = snapshot;
            subpath = gh.subpath;
            repo_key = key;
          }),
          own m key hexes s,
        )
    unfolding after_fetch
    after_fetch_good source gh key content hexes snapshot s good = ground arith

    after_fetch-Settles :
        (source gh : SourceSpec) (key : RepoKey) (fetched : Result (List ℕ × List Text) CtxfsError)
        (s : Server m)
        → let r = after_fetch m config o source gh key fetched s in Settles key s r.0 r.1
    after_fetch-Settles source gh key (err e) s =
        unfold after_fetch in gives_back key s (text "failed to fetch snapshot: " ++ display e)
    after_fetch-Settles source gh key (ok (content, hexes)) s =
        elim (Result-cases (o.from_slice content)) [
          | inl (e, bad) ↦
              rw (after_fetch_bad source gh key content hexes e s bad) (gives_back key s _)
          | inr (snapshot, good) ↦
              rw (after_fetch_good source gh key content hexes snapshot s good)
                (keeps key hexes s _ refl)
        ]

    fetch_registered-Claims :
        (options : MountOptions) (source gh : SourceSpec) (key : RepoKey) (s : Server m)
        → let r = fetch_registered m config o options source gh key s in Claims s r.0 r.1
    unfolding fetch_registered register
    fetch_registered-Claims options source gh key s =
        let registered = register m key options.cache_reservation_bytes s in
        let cache = (o.fetch gh (fetch_options_of config options) registered.cache).1 in
        let settled =
          after_fetch-Settles source gh key
            (o.fetch gh (fetch_options_of config options) registered.cache).0
            (record registered { cache = cache }) in
        record {
          same_mounts = settled.same_mounts;
          counts = λ k n room c. settled.counts k n (
              subst (λ rs. Counts (lookup k rs) (n + one_of k key))
                (sym (o.fetch-reservations gh (fetch_options_of config options) registered.cache))
                (Counts-register_mount m s.cache.max_bytes key k s.cache.state n
                  options.cache_reservation_bytes [] room c));
        }

    prepare_resolved-Claims :
        (options : MountOptions) (resolved : Result (SourceSpec × ResolvedSource) Text)
        (s : Server m)
        → let r = prepare_resolved m config o options resolved s in Claims s r.0 r.1
    unfolding prepare_resolved
    prepare_resolved-Claims options (err e) s = untouched s e
    prepare_resolved-Claims options (ok (source, c)) s =
        elim (Result-cases (repo_key_of m config o (github_source_of c))) [
          | inl (e, bad) ↦ rw (bad, prepare_resolved) (untouched s e)
          | inr (key, good) ↦
              rw (good, prepare_resolved)
                (fetch_registered-Claims options source (github_source_of c) key s)
        ]

    -- A preparation that fails leaves all counts and mounts; one that succeeds has registered its
    -- repository once more.
    pub prepare_mount-Claims :
        (source_str : Text) (options : MountOptions) (s : Server m)
        → let r = prepare_mount m config o source_str options s in Claims s r.0 r.1
    unfolding prepare_mount
    prepare_mount-Claims source_str options s = elim (Result-cases (parse source_str)) [
      | inl (e, bad) ↦ rw (bad, prepare_mount) (untouched s _)
      | inr (source, good) ↦
          rw (good, prepare_mount)
            (let (resolved, resolutions) = coordinates m config o source_str source s.resolutions in
              let c =
                prepare_resolved-Claims options resolved (record s { resolutions = resolutions }) in
              record { same_mounts = c.same_mounts; counts = c.counts })
    ]
