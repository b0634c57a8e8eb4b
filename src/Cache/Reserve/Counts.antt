-- ===== src/Cache/Reserve/Counts.antt =====
-- How many mounts each repository is counted for: what `register_mount` and `unregister_mount` do
-- to the count of their repository and to that of every other.
use ctxfs.Common.{
  ℕ, ◌+◌, ◌^◌, ◌<◌, ◌≡◌, sym, subst, Option, none, some, List, arith, if◌then◌else◌, Option-cases,
  inl, inr, Text, text_key, holds,
}
use ctxfs.Common.Assoc.{lookup, insert, remove, lookup-insert, lookup-remove}
use native.Mathlib.Decide.{dec_lt}
use ctxfs.Cache.LinkedMap.{LinkedHashMap}
use ctxfs.Cache.State.{
  RepoKey, repo_key, RepoKey-discrete, ReservationEntry, Reservations, CacheEntry, CacheState,
}
use ctxfs.Cache.Reserve.{
  default_share, set_default, rebalance_default_reservations, register_entry, register_mount,
  drop_mount, unregister_mount,
}
use ctxfs.Cache.Reserve.Mounts.{unregister_last, unregister_more, unregister_absent}
use ctxfs.Cache.Reserve.Rebalance.{lookup-set_defaults}

-- The reservation counts `n` mounts; there is none exactly when it would count no mount.
abbrev pub Counts : Option ReservationEntry → ℕ → Type 0
Counts none n = n ≡ 0
Counts (some e) n = (e.refcount ≡ n) × (0 < n)

-- 1 for the repository itself, 0 for every other.
unfoldable pub one_of : RepoKey → RepoKey → ℕ
one_of k key = if holds (RepoKey-discrete k key) then 1 else 0

Counts-set_default :
    (per : ℕ) (o : Option ReservationEntry) (n : ℕ)
    → Counts o n
    → Counts (elim o [ none ↦ none | some e ↦ some (set_default per e) ]) n
unfolding set_default
Counts-set_default per none n c = c
Counts-set_default per (some e) n c = ground arith

Counts-rebalance :
    (max_bytes : ℕ) (k : RepoKey) (rs : Reservations) (n : ℕ)
    → Counts (lookup k rs) n
    → Counts (lookup k (rebalance_default_reservations max_bytes rs)) n
unfolding rebalance_default_reservations
Counts-rebalance max_bytes k rs n c =
    subst (λ o. Counts o n) (sym (lookup-set_defaults (default_share max_bytes rs) k rs))
      (Counts-set_default (default_share max_bytes rs) (lookup k rs) n c)

Counts-register_entry :
    (bytes : Option ℕ) (o : Option ReservationEntry) (n : ℕ)
    → n + 1 < 2 ^ 32
    → Counts o n
    → Counts (some (register_entry bytes o)) (n + 1)
unfolding register_entry
Counts-register_entry (some b) (some e) n room c = (omega arith, omega arith)
Counts-register_entry none (some e) n room c = (omega arith, omega arith)
Counts-register_entry (some b) none n room c = (omega arith, omega arith)
Counts-register_entry none none n room c = (omega arith, omega arith)

pub one_of-same : (k key : RepoKey) → k ≡ key → one_of k key ≡ 1
unfolding one_of
one_of-same k key p = ground arith

one_of-other : (k key : RepoKey) → ¬ (k ≡ key) → one_of k key ≡ 0
unfolding one_of
one_of-other k key p = ground arith

lookup-insert_same :
    (key k : RepoKey) (e : ReservationEntry) (rs : Reservations)
    → k ≡ key
    → lookup k (insert key e rs) ≡ some e
lookup-insert_same key k e rs p = ground (arith, lookup-insert key k e rs)

lookup-insert_other :
    (key k : RepoKey) (e : ReservationEntry) (rs : Reservations)
    → ¬ (k ≡ key)
    → lookup k (insert key e rs) ≡ lookup k rs
lookup-insert_other key k e rs p = ground (arith, lookup-insert key k e rs)

lookup-remove_same :
    (key k : RepoKey) (rs : Reservations) → k ≡ key → lookup k (remove key rs) ≡ none
lookup-remove_same key k rs p = ground (arith, lookup-remove key k rs)

lookup-remove_other :
    (key k : RepoKey) (rs : Reservations) → ¬ (k ≡ key) → lookup k (remove key rs) ≡ lookup k rs
lookup-remove_other key k rs p = ground (arith, lookup-remove key k rs)

-- The count of the repository itself, and that of another.
Counts-same :
    (key k : RepoKey) (rs : Reservations) (n : ℕ)
    → k ≡ key
    → Counts (lookup k rs) (n + one_of k key)
    → Counts (lookup key rs) (n + 1)
Counts-same key k rs n p c =
    subst (λ j. Counts (lookup j rs) (n + 1)) p
      (subst (λ i. Counts (lookup k rs) (n + i)) (one_of-same k key p) c)

Counts-other :
    (key k : RepoKey) (rs : Reservations) (n : ℕ)
    → ¬ (k ≡ key)
    → Counts (lookup k rs) (n + one_of k key)
    → Counts (lookup k rs) n
Counts-other key k rs n p c =
    subst (Counts (lookup k rs)) (let e = one_of-other k key p in omega arith) c

module _ (m : LinkedHashMap Text CacheEntry) (max_bytes : ℕ) (key k : RepoKey) (s : CacheState m)
    (n : ℕ) where
  -- A mount that is registered counts one more for its repository, none for another.
  pub Counts-register_mount :
      (bytes : Option ℕ) (hexes : List Text)
      → n + 1 < 2 ^ 32
      → Counts (lookup k s.reservations) n
      → Counts
          (lookup k (register_mount m max_bytes key bytes hexes s).reservations)
          (n + one_of k key)
  unfolding register_mount
  Counts-register_mount bytes hexes room c =
      let e = register_entry bytes (lookup key s.reservations) in
      Counts-rebalance max_bytes k (insert key e s.reservations) _ (elim (RepoKey-discrete k key) [
        | yes p ↦
            rw (one_of-same k key p, lookup-insert_same key k e s.reservations p)
              (Counts-register_entry bytes (lookup key s.reservations) n room
                (subst (λ j. Counts (lookup j s.reservations) n) p c))
        | no p ↦
            rw (one_of-other k key p, lookup-insert_other key k e s.reservations p)
              (subst (Counts (lookup k s.reservations)) (omega arith) c)
      ])

  unregister-other :
      ¬ (k ≡ key)
      → Counts (lookup k s.reservations) n
      → Counts (lookup k (unregister_mount m max_bytes key s).reservations) n
  unfolding drop_mount
  unregister-other p c = elim (Option-cases (lookup key s.reservations)) [
    | inl absent ↦
        rw (unregister_absent m max_bytes key s absent) (Counts-rebalance max_bytes k _ n c)
    | inr (e, present) ↦ elim (dec_lt 1 e.refcount) [
      | yes more ↦
          rw (unregister_more m max_bytes key s e present more)
            (Counts-rebalance max_bytes k _ n (rw (lookup-insert_other key k _ s.reservations p) c))
      | no last ↦
          rw (unregister_last m max_bytes key s e present (omega arith))
            (Counts-rebalance max_bytes k _ n (rw (lookup-remove_other key k s.reservations p) c))
    ]
  ]

  unregister-same :
      k ≡ key
      → Counts (lookup key s.reservations) (n + 1)
      → Counts (lookup k (unregister_mount m max_bytes key s).reservations) n
  unfolding drop_mount
  unregister-same p c = elim (Option-cases (lookup key s.reservations)) [
    | inl absent ↦ absurd (ground arith)
    | inr (e, present) ↦
        let counted : Counts (some e) (n + 1) = subst (λ o. Counts o (n + 1)) present c in
        elim (dec_lt 1 e.refcount) [
          | yes more ↦ rw (unregister_more m max_bytes key s e present more) (
              Counts-rebalance max_bytes k _ n (
                rw (lookup-insert_same key k _ s.reservations p)
                  (omega (arith, counted.0), omega (arith, counted.0))))
          | no last ↦ rw (unregister_last m max_bytes key s e present (omega arith)) (
              Counts-rebalance max_bytes k _ n
                (rw (lookup-remove_same key k s.reservations p) (omega (arith, counted.0))))
        ]
  ]

  -- A mount that is given back counts one less for its repository, none for another.
  pub Counts-unregister_mount :
      Counts (lookup k s.reservations) (n + one_of k key)
      → Counts (lookup k (unregister_mount m max_bytes key s).reservations) n
  Counts-unregister_mount c = elim (RepoKey-discrete k key) [
    | no p ↦ unregister-other p (Counts-other key k s.reservations n p c)
    | yes p ↦ unregister-same p (Counts-same key k s.reservations n p c)
  ]
