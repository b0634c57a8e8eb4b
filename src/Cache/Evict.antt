-- ===== src/Cache/Evict.antt =====
-- crates/ctxfs-cache/src/lib.rs: `evict_oldest` and the eviction loop of `lru_insert_evict`.
pub mod Rule
pub mod Accounting
pub mod Protection
pub mod Budget
pub mod Tracks
use ctxfs.Common.{
  ℕ, zero, suc, ◌+◌, ◌*◌, Bool, true, false, ◌&&◌, not, Option, none, some, List, [], ◌∷◌, ◌++◌,
  Text, text_key, ltb, leb, if◌then◌else◌,
}
use ctxfs.Common.Assoc.{remove}
use ctxfs.Common.Word.{add64, sub64}
use ctxfs.Core.Digest.{HashAlgorithm}
use ctxfs.Cache.LinkedMap.{LinkedHashMap}
use ctxfs.Cache.State.{
  RepoKey, CacheEntry, CacheState, size_of, is_protected_by_reservation, working_set_bytes_for,
}

-- `state.total_bytes -= existing.size`, if there is an existing entry.
unfoldable pub total_without : Option CacheEntry → ℕ → ℕ
total_without none total_bytes = total_bytes
total_without (some existing) total_bytes = sub64 total_bytes existing.size

module _ (m : LinkedHashMap Text CacheEntry) where
  -- `evict_oldest`: the entry that was evicted, and the state after.
  unfoldable pub evict_oldest : CacheState m → Option (Text × ℕ × HashAlgorithm) × CacheState m
  evict_oldest s = elim (m.front s.entries) [
    | none ↦ (none, s)
    | some (key, entry) ↦ (
      some (key, entry.size, entry.algorithm),
      record s { entries = m.pop_front s.entries; total_bytes = sub64 s.total_bytes entry.size },
    )
  ]

  -- The variables of the loop: the state behind the lock, `rotated`, what the loop adds to
  -- `eviction_blocked_total`, and `evicted`.
  pub record EvictRun : Type 0 where
    pub state : CacheState m
    pub rotated : ℕ
    pub blocked : ℕ
    pub evicted : List (Text × HashAlgorithm)

  -- `is_protected_by_reservation` of a state.
  abbrev pub is_protected : CacheState m → Text → Bool
  is_protected s hex =
      is_protected_by_reservation (λ k. m.get k s.entries) s.blob_owners s.reservations hex

  -- A protected candidate becomes the newest entry.
  unfoldable pub rotate : EvictRun → Text → EvictRun
  rotate r candidate_hex = record r {
    state = record r.state { entries = m.get_refresh candidate_hex r.state.entries };
    rotated = r.rotated + 1;
    blocked = r.blocked + 1;
  }

  -- Any other candidate is popped, and forgotten by the owner sets.
  unfoldable pub evict_front : EvictRun → Text → CacheEntry → EvictRun
  evict_front r k entry = record r {
    state = record r.state {
      entries = m.pop_front r.state.entries;
      total_bytes = sub64 r.state.total_bytes entry.size;
      blob_owners = remove k r.state.blob_owners;
    };
    rotated = 0;
    evicted = r.evicted ++ ((k, entry.algorithm) ∷ []);
  }

  -- The test of the `while`.
  abbrev pub over_limit : ℕ → EvictRun → Bool
  over_limit limit r = ltb limit r.state.total_bytes && not (m.is_empty r.state.entries)

  -- One round of its body; `none` is `break`.
  unfoldable pub evict_round : EvictRun → Option EvictRun
  evict_round r =
      if leb (m.len r.state.entries) r.rotated then none else elim (m.front r.state.entries) [
        | none ↦ none
        | some (candidate_hex, entry) ↦
            if is_protected r.state candidate_hex
            then some (rotate r candidate_hex)
            else some (evict_front r candidate_hex entry)
      ]

  -- The loop, on fuel; `none` means that the fuel ran out.
  unfoldable pub evict_loop : ℕ → ℕ → EvictRun → Option EvictRun
  evict_loop zero limit r = none
  evict_loop (suc fuel) limit r = elim (over_limit limit r) [
    | true ↦ elim (evict_round r) [ none ↦ some r | some r' ↦ evict_loop fuel limit r' ]
    | false ↦ some r
  ]

  -- Each eviction is preceded by fewer rotations than there are entries.
  abbrev pub evict_fuel : ℕ → ℕ
  evict_fuel n = (n + 1) * (n + 1)

  -- The first lines of `lru_insert_evict`: the new entry replaces an old one of its hex.
  unfoldable pub lru_insert : Text → ℕ → HashAlgorithm → CacheState m → CacheState m
  lru_insert key size algorithm s = record s {
    entries = m.insert key (record { size = size; algorithm = algorithm }) s.entries;
    total_bytes = add64 (total_without (m.get key s.entries) s.total_bytes) size;
  }

  unfoldable pub lru_insert_evict : ℕ → Text → ℕ → HashAlgorithm → CacheState m → Option EvictRun
  lru_insert_evict limit key size algorithm s =
      let inserted = lru_insert key size algorithm s in
      evict_loop (evict_fuel (m.len inserted.entries)) limit
        (record { state = inserted; rotated = 0; blocked = 0; evicted = [] })
