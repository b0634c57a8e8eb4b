-- ===== src/Cache/Evict/Accounting.antt =====
-- `total_bytes` is the sum of the sizes of the entries, in every state of the cache.
use ctxfs.Common.{
  ℕ, ◌+◌, ◌<◌, ◌≤◌, ◌≡◌, refl, Option-cases, inl, inr, sym, ◌∙◌, ap, Option, none, some, List, [],
  ◌∷◌, ◌++◌, Text, text_key, arith,
}
use ctxfs.Common.Assoc.{lookup, remove, Distinct, remove_absent}
use ctxfs.Common.Word.{u64_mod, sub64, add64-eq, sub64-eq}
use ctxfs.Core.Digest.{HashAlgorithm}
use ctxfs.Cache.LinkedMap.{LinkedHashMap, refresh}
use ctxfs.Cache.State.{CacheEntry, CacheState, size_of}
use ctxfs.Cache.Evict.{EvictRun, rotate, evict_front, lru_insert, total_without}
use ctxfs.Cache.Evict.Rule.{Round, rotates, evicts, iter-rotated, iter-evicted}

unfoldable pub sizes : List (Text × CacheEntry) → ℕ
sizes [] = 0
sizes ((k, e) ∷ l) = e.size + sizes l

pub sizes-append : (l l' : List (Text × CacheEntry)) → sizes (l ++ l') ≡ sizes l + sizes l'
unfolding sizes
sizes-append [] l' = omega arith
sizes-append (x ∷ l) l' = omega (arith, sizes-append l l')

sizes-snoc :
    (l : List (Text × CacheEntry)) (k : Text) (e : CacheEntry)
    → sizes (l ++ ((k, e) ∷ [])) ≡ sizes l + e.size
unfolding sizes
sizes-snoc l k e = omega (arith, sizes-append l ((k, e) ∷ []))

sizes-remove :
    (k : Text) (l : List (Text × CacheEntry))
    → Distinct l
    → sizes (remove k l) + size_of (lookup k l) ≡ sizes l
unfolding sizes remove lookup
sizes-remove k [] d = refl
sizes-remove k ((j, e) ∷ l) d = ground (arith, sizes-remove k l d.1, remove_absent k l)

total_without_lem :
    (o : Option CacheEntry) (total rest : ℕ)
    → total < u64_mod
    → rest + size_of o ≡ total
    → total_without o total ≡ rest
unfolding total_without
total_without_lem none total rest fits e = omega arith
total_without_lem (some x) total rest fits e =
    omega (arith, sub64-eq total x.size fits (omega arith))

module _ (m : LinkedHashMap Text CacheEntry) where
  pub record IsAccounted (s : CacheState m) : Type 0 where
    pub sums : s.total_bytes ≡ sizes (m.iter s.entries)
    pub fits : s.total_bytes < u64_mod

  module _ (s : CacheState m) {k : Text} {e : CacheEntry} {rest : List (Text × CacheEntry)}
      (full : m.iter s.entries ≡ (k, e) ∷ rest) (acc : IsAccounted s) where
    pub total_full : s.total_bytes ≡ e.size + sizes rest
    unfolding sizes
    total_full = acc.sums ∙ ap sizes full

    pub total_popped : sub64 s.total_bytes e.size ≡ sizes rest
    total_popped = omega (
      arith,
      total_full,
      acc.fits,
      sub64-eq s.total_bytes e.size acc.fits (omega (arith, total_full)),
    )

  pub Round-IsAccounted :
      {r r' : EvictRun m} → Round m r r' → IsAccounted r.state → IsAccounted r'.state
  unfolding rotate evict_front
  Round-IsAccounted {r} (rotates k e rest full more p) acc = record {
    sums =
        omega
          (arith, total_full r.state full acc, ap sizes (iter-rotated m full), sizes-snoc rest k e);
    fits = acc.fits;
  }
  Round-IsAccounted {r} (evicts k e rest full p) acc = record {
    sums = total_popped r.state full acc ∙ sym (ap sizes (iter-evicted m full));
    fits = omega (arith, total_popped r.state full acc, total_full r.state full acc, acc.fits);
  }

  -- The bookkeeping of a put is right as long as the sum of the sizes fits 64 bits.
  pub lru_insert-IsAccounted :
      (key : Text) (size : ℕ) (algorithm : HashAlgorithm) (s : CacheState m)
      → IsAccounted s
      → s.total_bytes + size < u64_mod
      → IsAccounted (lru_insert m key size algorithm s)
  unfolding lru_insert
  lru_insert-IsAccounted key size algorithm s acc room =
      let new : CacheEntry = record { size = size; algorithm = algorithm } in
      let l = m.iter s.entries in
      let inserted : sizes (m.iter (m.insert key new s.entries)) ≡ sizes (remove key l) + size =
        ap sizes (m.iter-insert key new s.entries) ∙ sizes-snoc (remove key l) key new in
      let removed : sizes (remove key l) + size_of (lookup key l) ≡ sizes l =
        sizes-remove key l (m.iter-Distinct s.entries) in
      let without : total_without (m.get key s.entries) s.total_bytes ≡ sizes (remove key l) =
        rw (m.get-iter key s.entries)
          (total_without_lem (lookup key l) s.total_bytes _ acc.fits (removed ∙ sym acc.sums)) in
      let total = add64-eq (sizes (remove key l)) size (omega (arith, removed, acc.sums)) in
      record {
        sums = rw (without, total, inserted);
        fits = rw (without, total) (omega (arith, removed, acc.sums));
      }

  -- A put adds at most its size.
  pub total-lru_insert-le :
      (key : Text) (size : ℕ) (algorithm : HashAlgorithm) (s : CacheState m)
      → IsAccounted s
      → s.total_bytes + size < u64_mod
      → (lru_insert m key size algorithm s).total_bytes ≤ s.total_bytes + size
  unfolding lru_insert
  total-lru_insert-le key size algorithm s acc room =
      let new : CacheEntry = record { size = size; algorithm = algorithm } in
      let l = m.iter s.entries in
      omega (
        arith,
        (lru_insert-IsAccounted key size algorithm s acc room).sums,
        ap sizes (m.iter-insert key new s.entries) ∙ sizes-snoc (remove key l) key new,
        sizes-remove key l (m.iter-Distinct s.entries),
        acc.sums,
      )

  pub total-Round-le :
      {r r' : EvictRun m}
      → Round m r r'
      → IsAccounted r.state
      → r'.state.total_bytes ≤ r.state.total_bytes
  unfolding rotate evict_front
  total-Round-le {r} (rotates k e rest full more p) acc = omega arith
  total-Round-le {r} (evicts k e rest full p) acc =
      omega (arith, total_popped r.state full acc, total_full r.state full acc)

  sizes-refresh :
      (k : Text) (l : List (Text × CacheEntry)) → Distinct l → sizes (refresh k l) ≡ sizes l
  unfolding refresh
  sizes-refresh k l d = elim (Option-cases (lookup k l)) [
    | inl absent ↦ rw (absent, refresh) refl
    | inr (e, present) ↦
        rw (present, refresh)
          (omega (arith, sizes-snoc (remove k l) k e, sizes-remove k l d, ap size_of present))
  ]

  pub get_refresh-IsAccounted :
      (k : Text) (s : CacheState m)
      → IsAccounted s
      → IsAccounted (record s { entries = m.get_refresh k s.entries })
  get_refresh-IsAccounted k s acc = record {
    sums =
        acc.sums
        ∙ sym (
            ap sizes (m.iter-get_refresh k s.entries)
            ∙ sizes-refresh k (m.iter s.entries) (m.iter-Distinct s.entries));
    fits = acc.fits;
  }
