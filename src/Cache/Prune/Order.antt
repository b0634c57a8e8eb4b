-- ===== src/Cache/Prune/Order.antt =====
-- The prune loops drop the oldest entries, no more than needed, until the cache fits.
use ctxfs.Common.{
  ℕ, zero, suc, ◌+◌, ◌<◌, ◌≤◌, ◌≡◌, refl, sym, ◌∙◌, ap, ◌⊎◌, inl, inr, Bool, true, false, none,
  some, List, [], ◌∷◌, ◌++◌, Text, text_key, arith, length, append_assoc, append-nil, Bool-cases,
  ltb, ltb→lt, ltb→le,
}
use ctxfs.Cache.LinkedMap.{LinkedHashMap}
use ctxfs.Cache.State.{CacheEntry, CacheState}
use ctxfs.Cache.Evict.{evict_oldest}
use ctxfs.Cache.Evict.Rule.{front_nil, front_cons, iter-evicted, is_nil→nil}
use ctxfs.Cache.Evict.Accounting.{sizes, IsAccounted, total_full, total_popped}
use ctxfs.Cache.Evict.Tracks.{Entries}
use ctxfs.Cache.Prune.{Evicted, evict_while, over_and_full, over, prune_state, shrink_state}

-- What the loops report of the entries that go.
unfoldable pub summaries : Entries → List Evicted
summaries [] = []
summaries ((k, e) ∷ l) = (k, e.size, e.algorithm) ∷ summaries l

-- Each entry that went was there when the cache was over its limit.
abbrev pub Needed : ℕ → Entries → Entries → Type 0
Needed limit [] kept = Unit
Needed limit (x ∷ gone) kept = (limit < sizes (x ∷ gone ++ kept)) × Needed limit gone kept

module _ (m : LinkedHashMap Text CacheEntry) where
  pub record IsPruned (limit : ℕ) (s s' : CacheState m) (gone : Entries) : Type 0 where
    pub order : m.iter s.entries ≡ gone ++ m.iter s'.entries
    pub needed : Needed limit gone (m.iter s'.entries)
    pub accounted : IsAccounted m s'
    pub fits : s'.total_bytes ≤ limit
    pub owners : s'.blob_owners ≡ s.blob_owners
    pub reservations : s'.reservations ≡ s.reservations

  module _ (test : CacheState m → Bool) (fuel : ℕ) (s : CacheState m) (evicted : List Evicted) where
    while_stop : test s ≡ false → evict_while m test (suc fuel) s evicted ≡ some (s, evicted)
    unfolding evict_while
    while_stop h = ground arith

    while_empty :
        test s ≡ true
        → (evict_oldest m s).0 ≡ none
        → evict_while m test (suc fuel) s evicted ≡ some (s, evicted)
    unfolding evict_while
    while_empty h e = ground arith

    while_next :
        (x : Evicted)
        → test s ≡ true
        → (evict_oldest m s).0 ≡ some x
        → evict_while m test (suc fuel) s evicted
          ≡ evict_while m test fuel (evict_oldest m s).1 (evicted ++ (x ∷ []))
    unfolding evict_while
    while_next x h e = ground arith

  oldest_nil : (s : CacheState m) → m.iter s.entries ≡ [] → (evict_oldest m s).0 ≡ none
  unfolding evict_oldest
  oldest_nil s empty = ground (arith, front_nil m s.entries empty)

  oldest_cons :
      (s : CacheState m) (k : Text) (e : CacheEntry) (rest : Entries)
      → m.iter s.entries ≡ (k, e) ∷ rest
      → IsAccounted m s
      → ((evict_oldest m s).0 ≡ some (k, e.size, e.algorithm))
        × (m.iter (evict_oldest m s).1.entries ≡ rest)
        × IsAccounted m (evict_oldest m s).1
        × ((evict_oldest m s).1.blob_owners ≡ s.blob_owners)
        × ((evict_oldest m s).1.reservations ≡ s.reservations)
  unfolding evict_oldest
  oldest_cons s k e rest full acc =
      rw (front_cons m s.entries (k, e) rest full, evict_oldest)
        (
          refl,
          iter-evicted m full,
          record {
            sums = total_popped m s full acc ∙ sym (ap sizes (iter-evicted m full));
            fits = omega (arith, total_popped m s full acc, total_full m s full acc, acc.fits);
          },
          refl,
          refl,
        )

  module _ (limit : ℕ) (test : CacheState m → Bool)
      (tests : (s : CacheState m) → test s ≡ true → limit < s.total_bytes)
      (ends : (s : CacheState m)
        → test s ≡ false
        → (s.total_bytes ≤ limit) ⊎ (m.iter s.entries ≡ [])) where
    fits_empty :
        (s : CacheState m) → IsAccounted m s → m.iter s.entries ≡ [] → s.total_bytes ≤ limit
    unfolding sizes
    fits_empty s acc empty = omega (arith, acc.sums ∙ ap sizes empty)

    fits_stopped : (s : CacheState m) → IsAccounted m s → test s ≡ false → s.total_bytes ≤ limit
    fits_stopped s acc stop = elim (ends s stop) [
      | inl fits ↦ fits
      | inr empty ↦ fits_empty s acc empty
    ]

    stopped : (s : CacheState m) → IsAccounted m s → s.total_bytes ≤ limit → IsPruned limit s s []
    stopped s acc fits = record {
      order = refl;
      needed = tt;
      accounted = acc;
      fits = fits;
      owners = refl;
      reservations = refl;
    }

    evict_while-IsPruned :
        (l : Entries) (fuel : ℕ) (s : CacheState m) (evicted : List Evicted)
        → m.iter s.entries ≡ l
        → length l < fuel
        → IsAccounted m s
        → (s' : CacheState m) × (gone : Entries) × (evict_while m test fuel s evicted
            ≡ some (s', evicted ++ summaries gone))
          × IsPruned limit s s' gone
    unfolding summaries
    evict_while-IsPruned l zero s evicted is enough acc = absurd (omega arith)
    evict_while-IsPruned [] (suc fuel) s evicted is enough acc = elim (Bool-cases (test s)) [
      | inl go ↦ (
        s,
        [],
        while_empty test fuel s evicted go (oldest_nil s is)
            ∙ ap (λ l. some (s, l)) (sym (append-nil evicted)),
        stopped s acc (fits_empty s acc is),
      )
      | inr stop ↦ (
        s,
        [],
        while_stop test fuel s evicted stop ∙ ap (λ l. some (s, l)) (sym (append-nil evicted)),
        stopped s acc (fits_empty s acc is),
      )
    ]
    evict_while-IsPruned ((k, e) ∷ l) (suc fuel) s evicted is enough acc =
        elim (Bool-cases (test s)) [
          | inl go ↦
              let x : Evicted = (k, e.size, e.algorithm) in
              let (found, iter', acc', owners', res') = oldest_cons s k e l is acc in
              let (s', gone, runs, pruned) =
                evict_while-IsPruned l fuel (evict_oldest m s).1 (evicted ++ (x ∷ [])) iter'
                  (omega arith) acc' in
              let order' : m.iter s.entries ≡ (k, e) ∷ (gone ++ m.iter s'.entries) =
                is ∙ ap (λ l. (k, e) ∷ l) (sym iter' ∙ pruned.order) in
              (
                s',
                (k, e) ∷ gone,
                while_next test fuel s evicted x go found
                    ∙ runs
                    ∙ ap (λ l. some (s', l)) (append_assoc evicted (x ∷ []) (summaries gone)),
                record {
                  order = order';
                  needed = (omega (arith, tests s go, acc.sums ∙ ap sizes order'), pruned.needed);
                  accounted = pruned.accounted;
                  fits = pruned.fits;
                  owners = pruned.owners ∙ owners';
                  reservations = pruned.reservations ∙ res';
                },
              )
          | inr stop ↦ (
            s,
            [],
            while_stop test fuel s evicted stop ∙ ap (λ l. some (s, l)) (sym (append-nil evicted)),
            stopped s acc (fits_stopped s acc stop),
          )
        ]

  over_and_full-ends :
      (limit : ℕ) (s : CacheState m)
      → over_and_full m limit s ≡ false
      → (s.total_bytes ≤ limit) ⊎ (m.iter s.entries ≡ [])
  over_and_full-ends limit s h = elim (Bool-cases (ltb limit s.total_bytes)) [
    | inl lt ↦ elim (Bool-cases (m.is_empty s.entries)) [
      | inl empty ↦ inr (is_nil→nil m _ (sym (m.is_empty-iter s.entries) ∙ empty))
      | inr full ↦ absurd (ground arith)
    ]
    | inr le ↦ inl (ltb→le _ _ le)
  ]

  -- The loop of `prune` ends; it evicts the oldest entries, each of them while the cache was over
  -- the limit, reports them in that order, and leaves a cache that fits the limit.
  pub prune_state-IsPruned :
      (limit : ℕ) (s : CacheState m)
      → IsAccounted m s
      → (s' : CacheState m) × (gone : Entries) × (prune_state m limit s ≡ some (s', summaries gone))
        × IsPruned limit s s' gone
  unfolding prune_state
  prune_state-IsPruned limit s acc =
      evict_while-IsPruned limit (over_and_full m limit) (λ s h. ground arith)
        (over_and_full-ends limit) (m.iter s.entries) (m.len s.entries + 1) s [] refl
        (omega (arith, m.len-iter s.entries)) acc

  -- The loops of `prune_blobs` and `set_max_bytes` do the same.
  pub shrink_state-IsPruned :
      (limit : ℕ) (s : CacheState m)
      → IsAccounted m s
      → (s' : CacheState m) × (gone : Entries) × (shrink_state m limit s
          ≡ some (s', summaries gone))
        × IsPruned limit s s' gone
  unfolding shrink_state
  shrink_state-IsPruned limit s acc =
      evict_while-IsPruned limit (over m limit) (λ s h. ltb→lt _ _ h) (λ s h. inl (ltb→le _ _ h))
        (m.iter s.entries) (m.len s.entries + 1) s [] refl (omega (arith, m.len-iter s.entries)) acc
