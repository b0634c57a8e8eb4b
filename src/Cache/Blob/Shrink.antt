-- ===== src/Cache/Blob/Shrink.antt =====
-- `prune`, `prune_blobs` and `set_max_bytes` keep index and files in step.
use ctxfs.Common.{
  ℕ, ◌+◌, ◌-◌, ◌%◌, ◌≡◌, refl, ◌∙◌, ap, Option, none, some, List, [], ◌∷◌, ◌++◌, Text, text_key,
  arith, append_assoc, append-nil, subst,
}
use ctxfs.Common.Assoc.{Distinct}
use ctxfs.Common.Word.{u64_mod}
use ctxfs.Core.Digest.{HashAlgorithm}
use ctxfs.Cache.LinkedMap.{LinkedHashMap}
use ctxfs.Cache.State.{CacheEntry, CacheState}
use ctxfs.Cache.Evict.Accounting.{IsAccounted, sizes}
use ctxfs.Cache.Evict.Tracks.{Entries, Tracks, Tracks-refl, Tracks-pop}
use ctxfs.Cache.Prune.{Evicted, shrink_state, prune_state}
use ctxfs.Cache.Prune.Order.{summaries, IsPruned, prune_state-IsPruned, shrink_state-IsPruned}
use ctxfs.Cache.Blob.{
  Files, Os, BlobCache, victims, freed_bytes, remove_files, prune, shrink, set_max_bytes,
  prune_blobs,
}
use ctxfs.Cache.Blob.Backed.{AllBacked, AllBacked-remove_files, IsBacked}

Distinct-tail : (gone kept : Entries) → Distinct (gone ++ kept) → Distinct kept
Distinct-tail [] kept d = d
Distinct-tail (x ∷ gone) kept d = Distinct-tail gone kept d.1

Tracks-victims :
    (l gone kept : Entries) (evicted : List (Text × HashAlgorithm))
    → Distinct (gone ++ kept)
    → Tracks l (gone ++ kept) evicted
    → Tracks l kept (evicted ++ victims (summaries gone))
unfolding victims summaries
Tracks-victims l [] kept evicted d t = rw append-nil t
Tracks-victims l ((k, e) ∷ gone) kept evicted d t =
    subst (λ ev. Tracks l kept ev)
      (append_assoc evicted ((k, e.algorithm) ∷ []) (victims (summaries gone)))
      (Tracks-victims l gone kept (evicted ++ ((k, e.algorithm) ∷ [])) d.1
        (Tracks-pop l k e (gone ++ kept) evicted d t))

freed-sizes :
    (gone kept : Entries) → freed_bytes (summaries gone) + sizes kept ≡ sizes (gone ++ kept)
unfolding freed_bytes summaries sizes
freed-sizes [] kept = omega arith
freed-sizes ((k, e) ∷ gone) kept = omega (arith, freed-sizes gone kept)

module _ (m : LinkedHashMap Text CacheEntry) (os : Os) (c : BlobCache m) where
  abbrev pub limit_of : Option ℕ → ℕ
  limit_of none = c.max_bytes
  limit_of (some limit) = limit

  prune_eq :
      (limit? : Option ℕ) (s : CacheState m) (evicted : List Evicted) (files : Files)
      → prune_state m (limit_of limit?) c.state ≡ some (s, evicted)
      → remove_files os c.root (victims evicted) c.files ≡ some files
      → prune m os limit? c
        ≡ some (freed_bytes evicted % u64_mod, record c { state = s; files = files })
  unfolding prune
  prune_eq none s evicted files h k = ground arith
  prune_eq (some limit) s evicted files h k = ground arith

  shrink_eq :
      (limit : ℕ) (s : CacheState m) (evicted : List Evicted) (files : Files)
      → shrink_state m limit c.state ≡ some (s, evicted)
      → remove_files os c.root (victims evicted) c.files ≡ some files
      → shrink m os limit c ≡ some (record c { state = s; files = files })
  unfolding shrink
  shrink_eq limit s evicted files h k = ground arith

module _ (m : LinkedHashMap Text CacheEntry) (os : Os) (c : BlobCache m)
    (backed : IsBacked m c) where
  module _ (limit : ℕ) (s' : CacheState m) (gone : Entries)
      (p : IsPruned m limit c.state s' gone) where
    shrink-files :
        (files' : Files) × (remove_files os c.root (victims (summaries gone)) c.files ≡ some files')
        × AllBacked c.root files' (m.iter s'.entries)
    shrink-files =
        let d : Distinct (gone ++ m.iter s'.entries) =
          rw p.order at (m.iter-Distinct c.state.entries) in
        let l = m.iter c.state.entries in
        let t : Tracks l (gone ++ m.iter s'.entries) [] =
          subst (λ x. Tracks l x []) p.order (Tracks-refl l) in
        let (files', done, backed', stays) =
          AllBacked-remove_files c.root l (m.iter s'.entries) c.files os (victims (summaries gone))
            backed.files (Tracks-victims l gone (m.iter s'.entries) [] d t) in
        (files', done, backed')

  -- In a cache whose entries have their files and whose `total_bytes` is the sum of the sizes,
  -- `prune` returns and does not panic. It drops the oldest entries, each while the total was
  -- over the limit, comes down to the limit, returns the bytes by which the total fell, and the
  -- entries that are left have their files.
  pub prune-IsPruned :
      (limit? : Option ℕ)
      → IsAccounted m c.state
      → (c' : BlobCache m) × (gone : Entries) × (prune m os limit? c
          ≡ some (c.state.total_bytes - c'.state.total_bytes, c'))
        × IsPruned m (limit_of m os c limit?) c.state c'.state gone
        × IsBacked m c'
  prune-IsPruned limit? acc =
      let limit = limit_of m os c limit? in
      let (s', gone, runs, p) = prune_state-IsPruned m limit c.state acc in
      let (files', removes, backed') = shrink-files limit s' gone p in
      let freed : freed_bytes (summaries gone) % u64_mod ≡ c.state.total_bytes - s'.total_bytes =
        omega (
          arith,
          freed-sizes gone (m.iter s'.entries),
          p.accounted.sums,
          acc.sums,
          acc.fits,
          ap sizes p.order,
        ) in
      (
        record c { state = s'; files = files' },
        gone,
        prune_eq m os c limit? s' (summaries gone) files' runs removes
            ∙ ap (λ n. some (n, record c { state = s'; files = files' })) freed,
        p,
        record { files = backed' },
      )

  pub shrink-IsPruned :
      (limit : ℕ)
      → IsAccounted m c.state
      → (c' : BlobCache m) × (gone : Entries) × (shrink m os limit c ≡ some c')
        × IsPruned m limit c.state c'.state gone
        × IsBacked m c'
        × (c'.max_bytes ≡ c.max_bytes)
  shrink-IsPruned limit acc =
      let (s', gone, runs, p) = shrink_state-IsPruned m limit c.state acc in
      let (files', removes, backed') = shrink-files limit s' gone p in
      (
        record c { state = s'; files = files' },
        gone,
        shrink_eq m os c limit s' (summaries gone) files' runs removes,
        p,
        record { files = backed' },
        refl,
      )

  -- In a cache whose entries have their files and whose `total_bytes` is the sum of the sizes,
  -- `prune_blobs` returns and does not panic. It drops the oldest entries, each while the total
  -- was over its target, comes down to the target, returns the bytes by which the total
  -- fell, and the entries that are left have their files.
  pub prune_blobs-IsPruned :
      (target_bytes : ℕ)
      → IsAccounted m c.state
      → (c' : BlobCache m) × (gone : Entries) × (prune_blobs m os target_bytes c
          ≡ some (c.state.total_bytes - c'.state.total_bytes, c'))
        × IsPruned m target_bytes c.state c'.state gone
        × IsBacked m c'
  unfolding prune_blobs
  prune_blobs-IsPruned target_bytes acc =
      let (c', gone, runs, p, backed', same) = shrink-IsPruned target_bytes acc in
      (c', gone, ground arith, p, backed')

module _ (m : LinkedHashMap Text CacheEntry) (os : Os) where
  -- In a cache whose entries have their files and whose `total_bytes` is the sum of the sizes,
  -- `set_max_bytes` returns, sets the limit, drops the oldest entries, each while the total was
  -- over the new limit, comes down to it, and the entries that are left have their files.
  pub set_max_bytes-IsPruned :
      (c : BlobCache m) (new_max : ℕ)
      → IsBacked m c
      → IsAccounted m c.state
      → (c' : BlobCache m) × (gone : Entries) × (set_max_bytes m os new_max c ≡ some c')
        × IsPruned m new_max c.state c'.state gone
        × IsBacked m c'
        × (c'.max_bytes ≡ new_max)
  unfolding set_max_bytes
  set_max_bytes-IsPruned c new_max backed acc =
      shrink-IsPruned m os (record c { max_bytes = new_max }) (record { files = backed.files })
        new_max acc
