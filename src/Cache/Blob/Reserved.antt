-- ===== src/Cache/Blob/Reserved.antt =====
-- Putting blobs touches no reservation.
use ctxfs.Common.{
  ℕ, ◌≡◌, refl, ◌∙◌, some, Option-cases, Result, [], Text, text_key, arith, length, inl, inr,
}
use ctxfs.Common.Assoc.{insert}
use ctxfs.Core.Digest.{HashAlgorithm, Digest}
use ctxfs.Core.Error.{CtxfsError}
use ctxfs.Cache.LinkedMap.{LinkedHashMap}
use ctxfs.Cache.State.{CacheEntry, CacheState}
use ctxfs.Cache.Evict.{EvictRun, rotate, evict_front, lru_insert, lru_insert_evict, evict_fuel}
use ctxfs.Cache.Evict.Rule.{Round, rotates, evicts, evict_loop-Ends}
use ctxfs.Cache.Blob.{
  Bytes, Files, Os, WriteOutcome, mkdir_fails, write_fails, written, BlobCache, blob_path,
  remove_files, track, put, path_key,
}

module _ (m : LinkedHashMap Text CacheEntry) where
  reservations-Round :
      {r r' : EvictRun m} → Round m r r' → r'.state.reservations ≡ r.state.reservations
  unfolding rotate evict_front
  reservations-Round (rotates k e rest full more p) = refl
  reservations-Round (evicts k e rest full p) = refl

  reservations-lru_insert_evict :
      (limit : ℕ) (key : Text) (size : ℕ) (algorithm : HashAlgorithm) (s : CacheState m)
      → (r : EvictRun m) × (lru_insert_evict m limit key size algorithm s ≡ some r)
        × (r.state.reservations ≡ s.reservations)
  unfolding lru_insert_evict lru_insert
  reservations-lru_insert_evict limit key size algorithm s =
      let start = lru_insert m key size algorithm s in
      let (r, ends, same, why) =
        evict_loop-Ends m (λ r. r.state.reservations ≡ s.reservations) limit
          (λ r r' h over round. reservations-Round round ∙ h) (evict_fuel m (m.len start.entries))
          (record { state = start; rotated = 0; blocked = 0; evicted = [] }) (omega arith) refl in
      (r, ends, same)

  module _ (os : Os) (c c' : BlobCache m) (digest : Digest) (r : Result (Unit {0}) CtxfsError) where
    reservations-track :
        (size : ℕ) (files : Files)
        → track m os c digest size files ≡ some (r, c')
        → c'.state.reservations ≡ c.state.reservations
    unfolding track
    reservations-track size files done =
        let (e, runs, same) =
          reservations-lru_insert_evict c.max_bytes digest.hex size digest.algorithm c.state in
        elim (Option-cases (remove_files os c.root e.evicted files)) [
          | inl out ↦ absurd (ground arith)
          | inr (files', removes) ↦ ground arith
        ]

    -- Whatever a put returns, the reservations are as they were.
    pub reservations-put :
        (outcome : WriteOutcome) (content : Bytes)
        → put m os outcome c digest content ≡ some (r, c')
        → c'.state.reservations ≡ c.state.reservations
    unfolding put
    reservations-put (mkdir_fails e) content done = elim (Option-cases (blob_path c.root digest)) [
      | inl out ↦ absurd (ground arith)
      | inr (path, at) ↦ ground arith
    ]
    reservations-put (write_fails e left) content done =
        elim (Option-cases (blob_path c.root digest)) [
          | inl out ↦ absurd (ground arith)
          | inr (path, at) ↦ ground arith
        ]
    reservations-put written content done = elim (Option-cases (blob_path c.root digest)) [
      | inl out ↦ absurd (ground arith)
      | inr (path, at) ↦
          reservations-track (length content) (insert path content c.files) (ground arith)
    ]
