-- ===== src/Cache/Evict/Rule.antt =====
-- The rule of the eviction loop: it ends, by its test or by `break`, and keeps an invariant that
-- its rounds keep.
use ctxfs.Common.{
  ℕ, zero, suc, ◌+◌, ◌*◌, ◌-◌, ◌<◌, ◌≤◌, ◌≡◌, refl, ◌⊎◌, inl, inr, true, false, none, some, List,
  [], ◌∷◌, ◌++◌, Text, text_key, ltb, leb, length, length-append, ap, sym, ◌∙◌, ltb→le, arith,
  Bool-cases, List-cases, leb→le,
}
use ctxfs.Cache.LinkedMap.{LinkedHashMap, refresh_front, is_nil}
use ctxfs.Cache.State.{CacheEntry}
use ctxfs.Cache.Evict.{
  EvictRun, over_limit, rotate, evict_front, evict_round, evict_loop, is_protected,
}

module _ (m : LinkedHashMap Text CacheEntry) where
  -- What a round that does not `break` has done.
  pub data Round (r : EvictRun m) : EvictRun m → Type 0 where
    rotates :
        (k : Text) (e : CacheEntry) (rest : List (Text × CacheEntry))
        → m.iter r.state.entries ≡ (k, e) ∷ rest
        → r.rotated < m.len r.state.entries
        → is_protected m r.state k ≡ true
        → Round r (rotate m r k)
    evicts :
        (k : Text) (e : CacheEntry) (rest : List (Text × CacheEntry))
        → m.iter r.state.entries ≡ (k, e) ∷ rest
        → is_protected m r.state k ≡ false
        → Round r (evict_front m r k e)

  -- Why the loop ends.
  abbrev pub Ends : ℕ → EvictRun m → Type 0
  Ends limit r =
      (r.state.total_bytes ≤ limit)
      ⊎ ((m.iter r.state.entries ≡ []) ⊎ (m.len r.state.entries ≤ r.rotated))

  pub is_nil→nil : (l : List (Text × CacheEntry)) → is_nil l ≡ true → l ≡ []
  is_nil→nil [] h = refl
  is_nil→nil (x ∷ l) h = cc

  over→lt : {limit : ℕ} (r : EvictRun m) → over_limit m limit r ≡ true → limit < r.state.total_bytes
  over→lt r h = ground arith

  not_over : {limit : ℕ} (r : EvictRun m) → over_limit m limit r ≡ false → Ends limit r
  not_over {limit} r h = elim (Bool-cases (ltb limit r.state.total_bytes)) [
    | inl lt ↦ elim (Bool-cases (m.is_empty r.state.entries)) [
      | inl empty ↦ inr (inl (is_nil→nil _ (sym (m.is_empty-iter _) ∙ empty)))
      | inr full ↦ absurd (ground arith)
    ]
    | inr le ↦ inl (ltb→le _ _ le)
  ]

  pub front_nil : (s : m.Map) → m.iter s ≡ [] → m.front s ≡ none
  front_nil s e = rw (m.front-iter, e)

  pub front_cons :
      (s : m.Map) (x : Text × CacheEntry) (l : List (Text × CacheEntry))
      → m.iter s ≡ x ∷ l
      → m.front s ≡ some x
  front_cons s x l e = rw (m.front-iter, e)

  evict_round-cases :
      (r : EvictRun m)
      → ((evict_round m r ≡ none)
          × ((m.iter r.state.entries ≡ []) ⊎ (m.len r.state.entries ≤ r.rotated)))
        ⊎ ((r' : EvictRun m) × (evict_round m r ≡ some r') × Round r r')
  unfolding evict_round
  evict_round-cases r = elim (Bool-cases (leb (m.len r.state.entries) r.rotated)) [
    | inl done ↦ inl (rw done, inr (leb→le _ _ done))
    | inr more ↦ elim (List-cases (m.iter r.state.entries)) [
      | inl empty ↦ inl (rw (more, front_nil _ empty), inl empty)
      | inr ((k, e), rest, full) ↦ elim (Bool-cases (is_protected m r.state k)) [
        | inl p ↦ inr (
          rotate m r k,
          rw (more, front_cons _ _ _ full, p),
          rotates k e rest full (ground arith) p,
        )
        | inr p ↦
            inr (evict_front m r k e, rw (more, front_cons _ _ _ full, p), evicts k e rest full p)
      ]
    ]
  ]

  module _ {s : m.Map} {k : Text} {e : CacheEntry} {rest : List (Text × CacheEntry)}
      (full : m.iter s ≡ (k, e) ∷ rest) where
    pub iter-rotated : m.iter (m.get_refresh k s) ≡ rest ++ ((k, e) ∷ [])
    iter-rotated =
        rw (m.iter-get_refresh, full) (refresh_front k e rest (rw full at (m.iter-Distinct s)))

    pub iter-evicted : m.iter (m.pop_front s) ≡ rest
    iter-evicted = rw (m.iter-pop_front, full)

    pub len-full : m.len s ≡ length rest + 1
    len-full = omega (arith, m.len-iter s, ap length full)

    pub len-rotated : m.len (m.get_refresh k s) ≡ m.len s
    len-rotated = omega (
      arith,
      m.len-iter (m.get_refresh k s),
      ap length iter-rotated,
      length-append rest ((k, e) ∷ []),
      len-full,
    )

    len-evicted : m.len (m.pop_front s) + 1 ≡ m.len s
    len-evicted = omega (arith, m.len-iter (m.pop_front s), ap length iter-evicted, len-full)

  -- A bound on the rounds that are left: each eviction allows as many rotations as entries.
  abbrev pub measure : EvictRun m → ℕ
  measure r = let n = m.len r.state.entries in n * (n + 1) + (n - r.rotated)

  measure-Round : {r r' : EvictRun m} → Round r r' → measure r' < measure r
  unfolding rotate evict_front
  measure-Round {r} (rotates k e rest full more p) = rw (len-rotated full) (omega arith)
  measure-Round {r} (evicts k e rest full p) = rw (← (len-evicted full)) (omega arith)

  module _ (fuel limit : ℕ) (r : EvictRun m) where
    loop_stop : over_limit m limit r ≡ false → evict_loop m (suc fuel) limit r ≡ some r
    unfolding evict_loop
    loop_stop h = ground arith

    loop_break :
        over_limit m limit r ≡ true
        → evict_round m r ≡ none
        → evict_loop m (suc fuel) limit r ≡ some r
    unfolding evict_loop
    loop_break h stop = ground arith

    loop_next :
        (r' : EvictRun m)
        → over_limit m limit r ≡ true
        → evict_round m r ≡ some r'
        → evict_loop m (suc fuel) limit r ≡ evict_loop m fuel limit r'
    unfolding evict_loop
    loop_next r' h go = ground arith

  module _ (P : EvictRun m → Type 0) (limit : ℕ)
      (keep : (r r' : EvictRun m) → P r → limit < r.state.total_bytes → Round r r' → P r') where
    pub evict_loop-Ends :
        (fuel : ℕ) (r : EvictRun m)
        → measure r < fuel
        → P r
        → (r' : EvictRun m) × (evict_loop m fuel limit r ≡ some r') × P r' × Ends limit r'
    evict_loop-Ends zero r enough p = absurd (omega arith)
    evict_loop-Ends (suc fuel) r enough p = elim (Bool-cases (over_limit m limit r)) [
      | inl over ↦ elim (evict_round-cases r) [
        | inl (stop, why) ↦ (r, loop_break fuel limit r over stop, p, inr why)
        | inr (r', go, round) ↦ rw (loop_next fuel limit r r' over go) (
            evict_loop-Ends fuel r' (omega (arith, measure-Round round))
              (keep r r' p (over→lt r over) round))
      ]
      | inr stop ↦ (r, loop_stop fuel limit r stop, p, not_over r stop)
    ]
