-- ===== src/Cache/Evict/Protection.antt =====
-- `lru_insert_evict` ends, and gives up only when every entry that is left is protected.
use mathlib.Core.Path.{fun_ext}
use ctxfs.Common.{
  ℕ, ◌+◌, ◌<◌, ◌≤◌, ◌≡◌, refl, sym, ◌∙◌, ap, ◌⊎◌, inl, inr, true, Option, some, List, [], ◌∷◌, ◌++◌,
  Text, text_key, arith, length, length-append, All, All-append, All-map, append_assoc, append-nil,
}
use ctxfs.Common.Word.{u64_mod}
use ctxfs.Core.Digest.{HashAlgorithm}
use ctxfs.Cache.LinkedMap.{LinkedHashMap, lookup-refresh}
use ctxfs.Cache.State.{CacheEntry, CacheState, is_protected_by_reservation}
use ctxfs.Cache.Evict.{
  EvictRun, rotate, evict_front, lru_insert, lru_insert_evict, is_protected, evict_fuel,
}
use ctxfs.Cache.Evict.Rule.{
  Round, rotates, evicts, Ends, iter-rotated, iter-evicted, evict_loop-Ends,
}
use mathlib.Core.List.{tail as tail_of}
use ctxfs.Cache.Evict.Accounting.{IsAccounted, Round-IsAccounted, lru_insert-IsAccounted}

module _ (m : LinkedHashMap Text CacheEntry) where
  -- A rotation changes what no lookup shows.
  pub get-rotated :
      (s : m.Map) (k : Text)
      → ◌≡◌ {A = Text → Option CacheEntry} (λ j. m.get j (m.get_refresh k s)) (λ j. m.get j s)
  get-rotated s k =
      fun_ext λ j. rw (m.get-iter, m.get-iter, m.iter-get_refresh) (lookup-refresh k j (m.iter s))

  pub is_protected-rotate :
      (r : EvictRun m) (k hex : Text)
      → is_protected m (rotate m r k).state hex ≡ is_protected m r.state hex
  unfolding rotate
  is_protected-rotate r k hex =
      ap (λ get. is_protected_by_reservation get r.state.blob_owners r.state.reservations hex)
        (get-rotated r.state.entries k)

  abbrev pub AllProtected : CacheState m → List (Text × CacheEntry) → Type 0
  AllProtected s = All (λ x. is_protected m s x.0 ≡ true)

  -- The last `rotated` entries are the ones that the loop has passed over, all protected.
  abbrev PassedOver : EvictRun m → Type 0
  PassedOver r =
      (before : List (Text × CacheEntry)) × (after : List (Text × CacheEntry)) × (m.iter
          r.state.entries
        ≡ before ++ after)
      × (length after ≡ r.rotated)
      × AllProtected r.state after

  rotate-PassedOver :
      (r : EvictRun m) (k : Text) (e : CacheEntry) (rest : List (Text × CacheEntry))
      → m.iter r.state.entries ≡ (k, e) ∷ rest
      → r.rotated < m.len r.state.entries
      → is_protected m r.state k ≡ true
      → PassedOver r
      → PassedOver (rotate m r k)
  unfolding rotate
  rotate-PassedOver r k e rest full more p ([], after, is, count, all) =
      absurd (omega (arith, ap length is, m.len-iter r.state.entries))
  rotate-PassedOver r k e rest full more p (x ∷ before, after, is, count, all) =
      let e' : (k, e) ∷ rest ≡ (x ∷ before ++ after) = sym full ∙ is in
      (
        before,
        after ++ ((k, e) ∷ []),
        iter-rotated m full
            ∙ ap (λ l. l ++ ((k, e) ∷ [])) (ap tail_of e')
            ∙ append_assoc before after ((k, e) ∷ []),
        omega (arith, length-append after ((k, e) ∷ []), count),
        All-append _ after ((k, e) ∷ [])
            (All-map _ _ after (λ y h. is_protected-rotate r k y.0 ∙ h) all)
            (is_protected-rotate r k k ∙ p, tt),
      )

  Round-PassedOver : {r r' : EvictRun m} → Round m r r' → PassedOver r → PassedOver r'
  Round-PassedOver {r} (rotates k e rest full more p) h = rotate-PassedOver r k e rest full more p h
  Round-PassedOver {r} (evicts k e rest full p) h =
      unfold evict_front in (rest, [], iter-evicted m full ∙ sym (append-nil rest), refl, tt)

  -- The loop has ended well: the cache fits, or nothing can be evicted.
  pub Settled : ℕ → CacheState m → Type 0
  Settled limit s = (s.total_bytes ≤ limit) ⊎ AllProtected s (m.iter s.entries)

  Ends-Settled :
      {limit : ℕ} (r : EvictRun m)
      → IsAccounted m r.state
      → PassedOver r
      → Ends m limit r
      → Settled limit r.state
  unfolding Settled
  Ends-Settled r acc passed (inl fits) = inl fits
  Ends-Settled r acc passed (inr (inl empty)) = inr (rw empty tt)
  Ends-Settled r acc ([], after, is, count, all) (inr (inr full)) = inr (rw is all)
  Ends-Settled r acc (x ∷ before, after, is, count, all) (inr (inr full)) =
      absurd (omega (arith, ap length is, m.len-iter r.state.entries, length-append before after))

  -- If `total_bytes` is the sum of the sizes, and that sum with the new size fits 64 bits, then
  -- `lru_insert_evict` returns, `total_bytes` is the sum of the sizes again, and the cache is
  -- within its limit, or every entry that is left is protected by a reservation.
  pub lru_insert_evict-settles :
      (limit : ℕ) (key : Text) (size : ℕ) (algorithm : HashAlgorithm) (s : CacheState m)
      → IsAccounted m s
      → s.total_bytes + size < u64_mod
      → (r : EvictRun m) × (lru_insert_evict m limit key size algorithm s ≡ some r)
        × IsAccounted m r.state
        × Settled limit r.state
  unfolding lru_insert_evict
  lru_insert_evict-settles limit key size algorithm s acc room =
      let start = lru_insert m key size algorithm s in
      let r0 : EvictRun m = record { state = start; rotated = 0; blocked = 0; evicted = [] } in
      let (r, ends, (acc', passed), why) =
        evict_loop-Ends m (λ r. IsAccounted m r.state × PassedOver r) limit
          (λ r r' h over round. (Round-IsAccounted m round h.0, Round-PassedOver round h.1))
          (evict_fuel m (m.len start.entries)) r0 (omega arith)
          (
            lru_insert-IsAccounted m key size algorithm s acc room,
            (m.iter start.entries, [], sym (append-nil _), refl, tt),
          ) in
      (r, ends, acc', Ends-Settled r acc' passed why)
