-- ===== src/Cache/Prune.antt =====
-- crates/ctxfs-cache/src/lib.rs: the loops of `prune`, `prune_blobs` and `set_max_bytes`, which
-- evict oldest first whatever is reserved.
pub mod Order
use ctxfs.Common.{
  ℕ, zero, suc, ◌+◌, Bool, true, false, ◌&&◌, not, Option, none, some, List, [], ◌∷◌, ◌++◌, Text,
  text_key, ltb,
}
use ctxfs.Core.Digest.{HashAlgorithm}
use ctxfs.Cache.LinkedMap.{LinkedHashMap}
use ctxfs.Cache.State.{CacheEntry, CacheState}
use ctxfs.Cache.Evict.{evict_oldest}

abbrev pub Evicted : Type 0
Evicted = Text × ℕ × HashAlgorithm

module _ (m : LinkedHashMap Text CacheEntry) where
  -- `while test { match evict_oldest() { Some(entry) => evicted.push(entry), None => break } }`,
  -- on fuel; `none` means that the fuel ran out.
  unfoldable pub evict_while :
      (CacheState m → Bool) → ℕ → CacheState m → List Evicted → Option (CacheState m × List Evicted)
  evict_while test zero s evicted = none
  evict_while test (suc fuel) s evicted = elim (test s) [
    | true ↦ elim (evict_oldest m s).0 [
      | none ↦ some (s, evicted)
      | some entry ↦ evict_while test fuel (evict_oldest m s).1 (evicted ++ (entry ∷ []))
    ]
    | false ↦ some (s, evicted)
  ]

  -- The test of `prune`.
  abbrev pub over_and_full : ℕ → CacheState m → Bool
  over_and_full limit s = ltb limit s.total_bytes && not (m.is_empty s.entries)

  -- The test of `prune_blobs` and `set_max_bytes`.
  abbrev pub over : ℕ → CacheState m → Bool
  over limit s = ltb limit s.total_bytes

  -- One round for each entry, and one to see that none is left.
  unfoldable pub prune_state : ℕ → CacheState m → Option (CacheState m × List Evicted)
  prune_state limit s = evict_while (over_and_full limit) (m.len s.entries + 1) s []

  unfoldable pub shrink_state : ℕ → CacheState m → Option (CacheState m × List Evicted)
  shrink_state limit s = evict_while (over limit) (m.len s.entries + 1) s []
