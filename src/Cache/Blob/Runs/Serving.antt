-- ===== src/Cache/Blob/Runs/Serving.antt =====
-- Runs of operations against the map: each returns, keeps the cache in order, and its files agree.
use ctxfs.Common.{
  ℕ, ◌+◌, ◌<◌, ◌≤◌, ◌≡◌, refl, sym, ap, ◌∙◌, subst, Option, none, some, Option-cases, ok, [], Text,
  text_key, arith, length, inl, inr,
}
use ctxfs.Common.Assoc.{lookup, insert}
use ctxfs.Common.Word.{u64_mod}
use ctxfs.Core.Digest.{HashAlgorithm, Digest, FilePath}
use ctxfs.Cache.LinkedMap.{LinkedHashMap, lookup-refresh}
use ctxfs.Cache.State.{CacheEntry, CacheState}
use ctxfs.Cache.Evict.{EvictRun, lru_insert, lru_insert_evict, evict_fuel}
use ctxfs.Cache.Evict.Accounting.{
  IsAccounted, Round-IsAccounted, lru_insert-IsAccounted, total-lru_insert-le, total-Round-le,
  get_refresh-IsAccounted, sizes, sizes-append,
}
use ctxfs.Cache.Evict.Rule.{evict_loop-Ends}
use ctxfs.Cache.Evict.Tracks.{Entries}
use ctxfs.Cache.Prune.Order.{IsPruned}
use ctxfs.Cache.Blob.{
  Bytes, Os, BlobCache, Files, path_key, blob_path, remove_files, track, get, prune, shrink,
  set_max_bytes,
}
use ctxfs.Cache.Blob.Backed.{IsBacked, track-Stored}
use ctxfs.Cache.Blob.Shrink.{prune-IsPruned, shrink-IsPruned, set_max_bytes-IsPruned}
use ctxfs.Cache.Blob.Runs.{after}
use ctxfs.Cache.Blob.Runs.Keeping.{
  Agrees, Agrees-insert, Keeps, track-Keeps, prune-Keeps, shrink-Keeps,
}

module _ (m : LinkedHashMap Text CacheEntry) where
  -- The cache is in order, and its files agree with the map.
  pub record Serves (root : FilePath) (spec : Files) (c : BlobCache m) : Type 0 where
    pub same_root : c.root ≡ root
    pub backed : IsBacked m c
    pub accounted : IsAccounted m c.state
    pub agrees : Agrees spec c.files

  -- The eviction of a put keeps the accounts, and adds at most the size of the put.
  lru_insert_evict-IsAccounted :
      (limit : ℕ) (key : Text) (size : ℕ) (algorithm : HashAlgorithm) (s : CacheState m)
      → IsAccounted m s
      → s.total_bytes + size < u64_mod
      → (r : EvictRun m) × (lru_insert_evict m limit key size algorithm s ≡ some r)
        × IsAccounted m r.state
        × (r.state.total_bytes ≤ s.total_bytes + size)
  unfolding lru_insert_evict
  lru_insert_evict-IsAccounted limit key size algorithm s acc room =
      let start = lru_insert m key size algorithm s in
      let r0 : EvictRun m = record { state = start; rotated = 0; blocked = 0; evicted = [] } in
      let (r, ends, (acc', small), why) =
        evict_loop-Ends m
          (λ r. IsAccounted m r.state × (r.state.total_bytes ≤ s.total_bytes + size)) limit
          (λ r r' h over round.
            (Round-IsAccounted m round h.0, omega (arith, total-Round-le m round h.0, h.1)))
          (evict_fuel m (m.len start.entries)) r0 (omega arith)
          (
            lru_insert-IsAccounted m key size algorithm s acc room,
            total-lru_insert-le m key size algorithm s acc room,
          ) in
      (r, ends, acc', small)

  state-track :
      (os : Os) (c c' : BlobCache m) (digest : Digest) (size : ℕ) (files : Files) (r : EvictRun m)
      → track m os c digest size files ≡ some (ok tt, c')
      → lru_insert_evict m c.max_bytes digest.hex size digest.algorithm c.state ≡ some r
      → c'.state ≡ r.state
  unfolding track
  state-track os c c' digest size files r done runs =
      elim (Option-cases (remove_files os c.root r.evicted files)) [
        | inl out ↦ absurd (ground arith)
        | inr (files', removes) ↦ ground arith
      ]

  pruned-le :
      (limit : ℕ) (s s' : CacheState m) (gone : Entries)
      → IsAccounted m s
      → IsPruned m limit s s' gone
      → s'.total_bytes ≤ s.total_bytes
  pruned-le limit s s' gone acc p =
      omega
        (arith, acc.sums, p.accounted.sums, ap sizes p.order, sizes-append gone (m.iter s'.entries))

  module _ (root : FilePath) (spec : Files) (c : BlobCache m) (served : Serves root spec c) where
    -- What an operation comes to: it returns, the cache serves the map that follows, and it has
    -- grown by no more than `size`.
    abbrev pub Steps : Option (BlobCache m) → Files → ℕ → Type 0
    Steps result spec' size =
        (c' : BlobCache m) × (result ≡ some c')
        × Serves root spec' c'
        × (c'.state.total_bytes ≤ c.state.total_bytes + size)

    pub track-Steps :
        (os : Os) (digest : Digest) (path : FilePath) (content : Bytes)
        → blob_path root digest ≡ some path
        → c.state.total_bytes + length content < u64_mod
        → Steps
            (after (track m os c digest (length content) (insert path content c.files)))
            (insert path content spec)
            (length content)
    unfolding after
    track-Steps os digest path content at room =
        let here : blob_path c.root digest ≡ some path =
          ap (λ r. blob_path r digest) served.same_root ∙ at in
        let (c', done, stored) = track-Stored m os c digest path content served.backed here in
        let (r, runs, acc, small) =
          lru_insert_evict-IsAccounted c.max_bytes digest.hex (length content) digest.algorithm
            c.state served.accounted room in
        let same = state-track os c c' digest (length content) _ r done runs in
        let kept =
          track-Keeps m os c c' (insert path content spec) digest (length content) _ _ done in
        (
          c',
          ap after done,
          record {
            same_root = stored.root ∙ served.same_root;
            backed = stored.backed;
            accounted = subst (IsAccounted m) (sym same) acc;
            agrees = kept.agrees (Agrees-insert path content spec c.files served.agrees);
          },
          subst (λ (s : CacheState m). s.total_bytes ≤ c.state.total_bytes + length content)
              (sym same) small,
        )

    -- An operation that changes neither index nor files.
    pub same-Steps :
        (c' : BlobCache m)
        → c'.root ≡ c.root
        → c'.state.entries ≡ c.state.entries
        → c'.state.total_bytes ≡ c.state.total_bytes
        → c'.files ≡ c.files
        → Steps (some c') spec 0
    same-Steps c' r e t f = (
      c',
      refl,
      record {
        same_root = r ∙ served.same_root;
        backed = record { files = rw (r, e, f) served.backed.files };
        accounted = record {
          sums = rw (t, e) served.accounted.sums;
          fits = rw t served.accounted.fits;
        };
        agrees = rw f served.agrees;
      },
      omega (arith, t),
    )

    -- An operation that fails and changes nothing, and may have added something.
    pub unchanged : (size : ℕ) → Steps (some c) spec size
    unchanged size = (c, refl, served, omega arith)

    refreshed : (hex : Text) → BlobCache m
    refreshed hex = record c {
      state = record (c.state) { entries = m.get_refresh hex c.state.entries };
    }

    refreshed-Serves : (hex : Text) → Serves root spec (refreshed hex)
    unfolding refreshed
    refreshed-Serves hex =
        let same = λ (j : Text).
          ap (lookup j) (m.iter-get_refresh hex c.state.entries)
          ∙ lookup-refresh hex j (m.iter c.state.entries) in
        record {
          same_root = served.same_root;
          backed = record { files = λ j e found. served.backed.files j e (sym (same j) ∙ found) };
          accounted = get_refresh-IsAccounted m hex c.state served.accounted;
          agrees = served.agrees;
        }

    get_absent :
        (os : Os) (digest : Digest)
        → m.get digest.hex c.state.entries ≡ none
        → after (get m os c digest) ≡ some c
    unfolding get after
    get_absent os digest absent = ground arith

    get_present :
        (os : Os) (digest : Digest) (e : CacheEntry) (path : FilePath)
        → m.get digest.hex c.state.entries ≡ some e
        → blob_path c.root (record { algorithm = e.algorithm; hex = digest.hex }) ≡ some path
        → after (get m os c digest) ≡ some (refreshed digest.hex)
    unfolding get after refreshed
    get_present os digest e path present at = ground arith

    pub get-Steps : (os : Os) (digest : Digest) → Steps (after (get m os c digest)) spec 0
    unfolding refreshed
    get-Steps os digest = elim (Option-cases (m.get digest.hex c.state.entries)) [
      | inl absent ↦ (c, get_absent os digest absent, served, omega arith)
      | inr (e, present) ↦
          let (path, content, at, file, size) =
            served.backed.files digest.hex e
              (sym (m.get-iter digest.hex c.state.entries) ∙ present) in
          (
            refreshed digest.hex,
            get_present os digest e path present at,
            refreshed-Serves digest.hex,
            omega arith,
          )
    ]

    pub prune-Steps : (os : Os) (limit : Option ℕ) → Steps (after (prune m os limit c)) spec 0
    unfolding after
    prune-Steps os limit =
        let (c', gone, done, p, backed) =
          prune-IsPruned m os c served.backed limit served.accounted in
        let kept = prune-Keeps m os c c' spec limit _ done in
        (
          c',
          ap after done,
          record {
            same_root = kept.root ∙ served.same_root;
            backed = backed;
            accounted = p.accounted;
            agrees = kept.agrees served.agrees;
          },
          omega (arith, pruned-le _ c.state c'.state gone served.accounted p),
        )

    pub shrink-Steps : (os : Os) (target : ℕ) → Steps (shrink m os target c) spec 0
    shrink-Steps os target =
        let (c', gone, done, p, backed, limit) =
          shrink-IsPruned m os c served.backed target served.accounted in
        let kept = shrink-Keeps m os c c' spec target done in
        (
          c',
          done,
          record {
            same_root = kept.root ∙ served.same_root;
            backed = backed;
            accounted = p.accounted;
            agrees = kept.agrees served.agrees;
          },
          omega (arith, pruned-le _ c.state c'.state gone served.accounted p),
        )

    limit-Keeps :
        (os : Os) (new_max : ℕ) (c' : BlobCache m)
        → set_max_bytes m os new_max c ≡ some c'
        → Keeps m os c c' spec c.files
    unfolding set_max_bytes
    limit-Keeps os new_max c' done =
        let kept = shrink-Keeps m os (record c { max_bytes = new_max }) c' spec new_max done in
        record { root = kept.root; agrees = kept.agrees }

    pub limit-Steps : (os : Os) (new_max : ℕ) → Steps (set_max_bytes m os new_max c) spec 0
    limit-Steps os new_max =
        let (c', gone, done, p, backed, limit) =
          set_max_bytes-IsPruned m os c new_max served.backed served.accounted in
        let kept = limit-Keeps os new_max c' done in
        (
          c',
          done,
          record {
            same_root = kept.root ∙ served.same_root;
            backed = backed;
            accounted = p.accounted;
            agrees = kept.agrees served.agrees;
          },
          omega (arith, pruned-le _ c.state c'.state gone served.accounted p),
        )
