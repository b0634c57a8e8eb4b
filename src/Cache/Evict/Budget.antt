-- ===== src/Cache/Evict/Budget.antt =====
-- What a reservation promises: while the blobs that a repository owns fit its budget, eviction
-- takes none of them.
use ctxfs.Common.{
  ℕ, ◌<◌, ◌≤◌, ◌≡◌, ◌≢◌, ◌∙◌, ap, true, Option, some, List, [], ◌∷◌, Text, text_key, arith,
}
use ctxfs.Common.Assoc.{lookup, remove, lookup-remove}
use ctxfs.Core.Digest.{HashAlgorithm}
use ctxfs.Cache.LinkedMap.{LinkedHashMap}
use ctxfs.Cache.State.{
  RepoKey, ReservationEntry, CacheEntry, CacheState, Owners, Reservations, contains, owned_bytes,
  owners_of, working_set_bytes_for, protects, any_protects, is_protected_by_reservation, repo_key,
}
use ctxfs.Cache.Evict.{EvictRun, rotate, evict_front, lru_insert, lru_insert_evict, evict_fuel}
use ctxfs.Cache.Evict.Rule.{Round, rotates, evicts, evict_loop-Ends, iter-evicted}
use ctxfs.Cache.Evict.Protection.{get-rotated}

module _ (get : Text → Option CacheEntry) (owners : Owners) (reservations : Reservations)
    (key : RepoKey) (e : ReservationEntry) (reserved : lookup key reservations ≡ some e)
    (pos : 0 < e.reserved_bytes) (within : owned_bytes get key owners ≤ e.reserved_bytes) where
  protects-within : protects get owners reservations key ≡ true
  unfolding protects working_set_bytes_for
  protects-within = ground arith

  any_protects-contains :
      (ks : List RepoKey) → contains ks key ≡ true → any_protects get owners reservations ks ≡ true
  unfolding any_protects contains
  any_protects-contains [] h = cc
  any_protects-contains (k ∷ ks) h = ground (arith, protects-within, any_protects-contains ks)

  -- A list of reservations in which something is found is not empty.
  is_protected_cons :
      (rs : Reservations)
      → lookup key rs ≡ some e
      → (hex : Text) → any_protects get owners rs (owners_of hex owners) ≡ true
      → is_protected_by_reservation get owners rs hex ≡ true
  unfolding is_protected_by_reservation lookup
  is_protected_cons [] found hex h = cc
  is_protected_cons (r ∷ rs) found hex h = h

  -- An owner within its budget protects its blobs.
  pub is_protected-contains :
      (hex : Text)
      → contains (owners_of hex owners) key ≡ true
      → is_protected_by_reservation get owners reservations hex ≡ true
  is_protected-contains hex h =
      is_protected_cons reservations reserved hex (any_protects-contains (owners_of hex owners) h)

-- Eviction of one blob frees at least what the budget counts for it.
owned_bytes-remove :
    (get get' : Text → Option CacheEntry) (key : RepoKey) (hex : Text) (owners : Owners)
    → ((j : Text) → j ≢ hex → get' j ≡ get j)
    → owned_bytes get' key (remove hex owners) ≤ owned_bytes get key owners
unfolding owned_bytes remove
owned_bytes-remove get get' key hex [] same = omega arith
owned_bytes-remove get get' key hex ((j, ks) ∷ owners) same =
    ground (arith, same j, owned_bytes-remove get get' key hex owners same)

owners_of-remove :
    (k hex : Text) (owners : Owners)
    → hex ≢ k
    → owners_of hex (remove k owners) ≡ owners_of hex owners
owners_of-remove k hex owners ne = ground (arith, lookup-remove k hex owners)

module _ (m : LinkedHashMap Text CacheEntry) where
  get-evicted :
      (s : m.Map) (k : Text) (e : CacheEntry) (rest : List (Text × CacheEntry))
      → m.iter s ≡ (k, e) ∷ rest
      → (j : Text) → j ≢ k
      → m.get j (m.pop_front s) ≡ m.get j s
  unfolding lookup
  get-evicted s k e rest full j ne =
      rw (m.get-iter, m.get-iter, iter-evicted m full, full) (ground arith)

  -- In the state: `key` has a reservation, its blobs fit it, and it owns the cached blob `hex`.
  pub record IsReserved (key : RepoKey) (hex : Text) (e : ReservationEntry) (x : CacheEntry)
      (s : CacheState m) : Type 0 where
    pub reserved : lookup key s.reservations ≡ some e
    pub within : owned_bytes (λ k. m.get k s.entries) key s.blob_owners ≤ e.reserved_bytes
    pub owns : contains (owners_of hex s.blob_owners) key ≡ true
    pub cached : m.get hex s.entries ≡ some x

  module _ (key : RepoKey) (hex : Text) (e : ReservationEntry) (x : CacheEntry)
      (pos : 0 < e.reserved_bytes) where
    Round-IsReserved :
        {r r' : EvictRun m}
        → Round m r r'
        → IsReserved key hex e x r.state
        → IsReserved key hex e x r'.state
    unfolding rotate evict_front
    Round-IsReserved {r} (rotates k y rest full more p) h = record {
      reserved = h.reserved;
      within = rw (get-rotated m r.state.entries k) h.within;
      owns = h.owns;
      cached =
          ap (λ (get : Text → Option CacheEntry). get hex) (get-rotated m r.state.entries k)
          ∙ h.cached;
    }
    Round-IsReserved {r} (evicts k y rest full p) h =
        let kept = get-evicted r.state.entries k y rest full in
        let other : hex ≢ k = λ same.
          cc (same, p, is_protected-contains _ _ _ key e h.reserved pos h.within hex h.owns) in
        record {
          reserved = h.reserved;
          within = omega (
            arith,
            owned_bytes-remove (λ j. m.get j r.state.entries)
                (λ j. m.get j (m.pop_front r.state.entries)) key k r.state.blob_owners kept,
            h.within,
          );
          owns = rw (owners_of-remove k hex r.state.blob_owners other) h.owns;
          cached = kept hex other ∙ h.cached;
        }

    -- `lru_insert_evict` returns, and if, once the new entry is in, a blob is cached and owned by
    -- a repository whose reservation is not 0 and not exceeded by what it owns, then
    -- after it the blob is still cached and owned, and the reservation still not exceeded.
    pub lru_insert_evict-IsReserved :
        (limit : ℕ) (hex' : Text) (size : ℕ) (algorithm : HashAlgorithm) (s : CacheState m)
        → IsReserved key hex e x (lru_insert m hex' size algorithm s)
        → (r : EvictRun m) × (lru_insert_evict m limit hex' size algorithm s ≡ some r)
          × IsReserved key hex e x r.state
    unfolding lru_insert_evict
    lru_insert_evict-IsReserved limit hex' size algorithm s h =
        let start = lru_insert m hex' size algorithm s in
        let (r, ends, kept, why) =
          evict_loop-Ends m (λ r. IsReserved key hex e x r.state) limit
            (λ r r' h over round. Round-IsReserved round h) (evict_fuel m (m.len start.entries))
            (record { state = start; rotated = 0; blocked = 0; evicted = [] }) (omega arith) h in
        (r, ends, kept)
