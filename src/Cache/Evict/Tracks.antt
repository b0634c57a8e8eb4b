-- ===== src/Cache/Evict/Tracks.antt =====
-- What an eviction reports as evicted was in the index and is no more, and what has left is reported.
use ctxfs.Common.{
  ℕ, ◌≡◌, refl, sym, ◌∙◌, ap, none, some, List, [], ◌∷◌, ◌++◌, Text, text_key, arith, All,
  All-append, All-map, Text-discrete, In, In-append-left, In-append-right, subst, inl, ◌≢◌,
}
use ctxfs.Common.Assoc.{lookup, Distinct}
use ctxfs.Core.Digest.{HashAlgorithm}
use ctxfs.Cache.LinkedMap.{LinkedHashMap, lookup-refresh}
use ctxfs.Cache.State.{CacheEntry, CacheState}
use ctxfs.Cache.Evict.{EvictRun, rotate, evict_front, lru_insert, lru_insert_evict, evict_fuel}
use ctxfs.Cache.Evict.Rule.{Round, rotates, evicts, evict_loop-Ends, iter-evicted}

abbrev pub Entries : Type 0
Entries = List (Text × CacheEntry)

-- An evicted pair was an entry of `l`, and is none of `l'`.
abbrev pub Gone : Entries → Entries → Text × HashAlgorithm → Type 0
Gone l l' x =
    (lookup x.0 l' ≡ none) × ((e : CacheEntry) × (lookup x.0 l ≡ some e) × (e.algorithm ≡ x.1))

-- From `l` to `l'`, nothing is new, the `evicted` have gone, and all that has gone is among them.
pub record Tracks (l l' : Entries) (evicted : List (Text × HashAlgorithm)) : Type 0 where
  pub kept : (j : Text) (e : CacheEntry) → lookup j l' ≡ some e → lookup j l ≡ some e
  pub gone : All (Gone l l') evicted
  pub reported :
      (j : Text) (e : CacheEntry)
      → lookup j l ≡ some e
      → lookup j l' ≡ none
      → In (j, e.algorithm) evicted

pub Tracks-refl : (l : Entries) → Tracks l l []
Tracks-refl l = record { kept = λ j e h. h; gone = tt; reported = λ j e h k. absurd (ground arith) }

pub Tracks-same :
    (l l' l'' : Entries) (evicted : List (Text × HashAlgorithm))
    → ((j : Text) → lookup j l'' ≡ lookup j l')
    → Tracks l l' evicted
    → Tracks l l'' evicted
Tracks-same l l' l'' evicted same t = record {
  kept = λ j e h. t.kept j e (sym (same j) ∙ h);
  gone = All-map _ _ evicted (λ x h. (same x.0 ∙ h.0, h.1)) t.gone;
  reported = λ j e h k. t.reported j e h (sym (same j) ∙ k);
}

lookup-tail :
    (k j : Text) (e x : CacheEntry) (rest : Entries)
    → Distinct ((k, e) ∷ rest)
    → lookup j rest ≡ some x
    → lookup j ((k, e) ∷ rest) ≡ some x
unfolding lookup
lookup-tail k j e x rest d h = ground arith

lookup-tail_none :
    (k j : Text) (e : CacheEntry) (rest : Entries)
    → lookup j ((k, e) ∷ rest) ≡ none
    → lookup j rest ≡ none
unfolding lookup
lookup-tail_none k j e rest h = ground arith

lookup-head : (k : Text) (e : CacheEntry) (rest : Entries) → lookup k ((k, e) ∷ rest) ≡ some e
unfolding lookup
lookup-head k e rest = ground arith

lookup-other :
    (k j : Text) (e : CacheEntry) (rest : Entries)
    → j ≢ k
    → lookup j rest ≡ none
    → lookup j ((k, e) ∷ rest) ≡ none
unfolding lookup
lookup-other k j e rest other h = ground arith

same_entry : {a b : CacheEntry} → some a ≡ some b → a.algorithm ≡ b.algorithm
same_entry h = ground arith

-- What has gone once the first entry is popped.
pop-reported :
    (l : Entries) (k : Text) (e : CacheEntry) (rest : Entries)
    (evicted : List (Text × HashAlgorithm))
    → Tracks l ((k, e) ∷ rest) evicted
    → (j : Text) (x : CacheEntry) → lookup j l ≡ some x
    → lookup j rest ≡ none
    → In (j, x.algorithm) (evicted ++ ((k, e.algorithm) ∷ []))
pop-reported l k e rest evicted t j x h absent = elim (Text-discrete j k) [
  | yes is ↦
      let was : lookup j l ≡ some e =
        subst (λ i. lookup i l ≡ some e) (sym is) (t.kept k e (lookup-head k e rest)) in
      In-append-right _ evicted ((k, e.algorithm) ∷ [])
        (inl (ap (λ y. (y, x.algorithm)) is ∙ ap (λ y. (k, y)) (same_entry (sym h ∙ was))))
  | no other ↦
      In-append-left _ evicted ((k, e.algorithm) ∷ [])
        (t.reported j x h (lookup-other k j e rest other absent))
]

pub Tracks-pop :
    (l : Entries) (k : Text) (e : CacheEntry) (rest : Entries)
    (evicted : List (Text × HashAlgorithm))
    → Distinct ((k, e) ∷ rest)
    → Tracks l ((k, e) ∷ rest) evicted
    → Tracks l rest (evicted ++ ((k, e.algorithm) ∷ []))
Tracks-pop l k e rest evicted d t = record {
  kept = λ j x h. t.kept j x (lookup-tail k j e x rest d h);
  gone =
      All-append _ evicted ((k, e.algorithm) ∷ [])
        (All-map _ _ evicted (λ x h. (lookup-tail_none k x.0 e rest h.0, h.1)) t.gone)
        ((d.0, (e, t.kept k e (lookup-head k e rest), refl)), tt);
  reported = pop-reported l k e rest evicted t;
}

module _ (m : LinkedHashMap Text CacheEntry) where
  Round-Tracks :
      (l : Entries) {r r' : EvictRun m}
      → Round m r r'
      → Tracks l (m.iter r.state.entries) r.evicted
      → Tracks l (m.iter r'.state.entries) r'.evicted
  unfolding rotate evict_front
  Round-Tracks l {r} (rotates k e rest full more p) t =
      Tracks-same l _ _ r.evicted
        (λ j. ap (lookup j) (m.iter-get_refresh k r.state.entries) ∙ lookup-refresh k j _) t
  Round-Tracks l {r} (evicts k e rest full p) t = rw (iter-evicted m full) (
      Tracks-pop l k e rest r.evicted (rw full at (m.iter-Distinct r.state.entries)) (rw full at t))

  -- `lru_insert_evict` returns; every blob that it reports as evicted was in the index once the
  -- new entry was in, with the algorithm that is reported, and is there no more; every blob that
  -- was there then and is no more is reported with its algorithm; and what is in the index after
  -- was there with the same entry.
  pub lru_insert_evict-Tracks :
      (limit : ℕ) (key : Text) (size : ℕ) (algorithm : HashAlgorithm) (s : CacheState m)
      → (r : EvictRun m) × (lru_insert_evict m limit key size algorithm s ≡ some r)
        × Tracks
            (m.iter (lru_insert m key size algorithm s).entries)
            (m.iter r.state.entries)
            r.evicted
  unfolding lru_insert_evict
  lru_insert_evict-Tracks limit key size algorithm s =
      let start = lru_insert m key size algorithm s in
      let l = m.iter start.entries in
      let (r, ends, t, why) =
        evict_loop-Ends m (λ r. Tracks l (m.iter r.state.entries) r.evicted) limit
          (λ r r' h over round. Round-Tracks l round h) (evict_fuel m (m.len start.entries))
          (record { state = start; rotated = 0; blocked = 0; evicted = [] }) (omega arith)
          (Tracks-refl l) in
      (r, ends, t)
