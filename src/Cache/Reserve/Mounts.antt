-- ===== src/Cache/Reserve/Mounts.antt =====
-- Registering and unregistering mounts: refcounts, explicit reservations, ownership.
use ctxfs.Common.{
  ℕ, ◌+◌, ◌-◌, ◌^◌, ◌≤◌, ◌<◌, ◌≡◌, refl, ap, ◌∙◌, Option, none, some, List, [], ◌∷◌, arith, false,
  ◌||◌, if◌then◌else◌, List-cases, inl, inr, Text, text_key, holds,
}
use ctxfs.Common.Assoc.{lookup, insert, remove, Distinct, remove_absent, lookup-insert}
use ctxfs.Cache.LinkedMap.{LinkedHashMap}
use ctxfs.Cache.State.{
  RepoKey, repo_key, RepoKey-discrete, ReservationEntry, Reservations, CacheEntry, CacheState,
  contains, owners_of, Owners,
}
use ctxfs.Cache.Reserve.{
  default_share, set_default, set_defaults, rebalance_default_reservations, register_entry,
  register_mount, drop_mount, unregister_mount, remove_owner, disown, insert_owner,
}
use ctxfs.Cache.Reserve.Rebalance.{lookup-set_defaults, rebalance-set_defaults}

remove-insert :
    (key : RepoKey) (e : ReservationEntry) (rs : Reservations)
    → remove key (insert key e rs) ≡ remove key rs
unfolding remove insert
remove-insert key e [] = ground arith
remove-insert key e ((k, x) ∷ rs) = ground (arith, remove-insert key e rs)

remove-set_defaults :
    (per : ℕ) (key : RepoKey) (rs : Reservations)
    → remove key (set_defaults per rs) ≡ set_defaults per (remove key rs)
unfolding remove set_defaults
remove-set_defaults per key [] = refl
remove-set_defaults per key ((k, x) ∷ rs) = ground (arith, remove-set_defaults per key rs)

-- Who owns a blob after a claim.
contains-insert_owner :
    (key k : RepoKey) (ks : List RepoKey)
    → contains (insert_owner key ks) k ≡ (holds (RepoKey-discrete k key) || contains ks k)
unfolding contains insert_owner
contains-insert_owner key k ks = ground arith

contains-remove_owner :
    (key k : RepoKey) (ks : List RepoKey)
    → contains (remove_owner key ks) k
      ≡ (if holds (RepoKey-discrete k key) then false else contains ks k)
unfolding contains remove_owner
contains-remove_owner key k [] = ground arith
contains-remove_owner key k (j ∷ ks) = ground (arith, contains-remove_owner key k ks)

lookup-disown-none :
    (key : RepoKey) (hex : Text) (owners : Owners)
    → lookup hex owners ≡ none
    → lookup hex (disown key owners) ≡ none
unfolding disown lookup
lookup-disown-none key hex [] h = refl
lookup-disown-none key hex ((j, ks) ∷ owners) h = elim (List-cases (remove_owner key ks)) [
  | inl none_left ↦ ground (arith, lookup-disown-none key hex owners)
  | inr (k, left, some_left) ↦ ground (arith, lookup-disown-none key hex owners)
]

owners_of-disown :
    (key : RepoKey) (hex : Text) (owners : Owners)
    → Distinct owners
    → owners_of hex (disown key owners) ≡ remove_owner key (owners_of hex owners)
unfolding disown lookup remove_owner
owners_of-disown key hex [] d = refl
owners_of-disown key hex ((j, ks) ∷ owners) d = elim (List-cases (remove_owner key ks)) [
  | inl none_left ↦
      ground (arith, owners_of-disown key hex owners d.1, lookup-disown-none key j owners d.0)
  | inr (k, left, some_left) ↦ ground (arith, owners_of-disown key hex owners d.1)
]

abbrev pub refcount_of : Option ReservationEntry → ℕ
refcount_of none = 0
refcount_of (some e) = e.refcount

refcount-set_default : (per : ℕ) (e : ReservationEntry) → (set_default per e).refcount ≡ e.refcount
unfolding set_default
refcount-set_default per e = ground arith

refcount-register_entry :
    (bytes : Option ℕ) (o : Option ReservationEntry)
    → refcount_of o + 1 < 2 ^ 32
    → (register_entry bytes o).refcount ≡ refcount_of o + 1
unfolding register_entry
refcount-register_entry (some b) (some e) room = omega arith
refcount-register_entry none (some e) room = omega arith
refcount-register_entry (some b) none room = refl
refcount-register_entry none none room = refl

module _ (m : LinkedHashMap Text CacheEntry) (max_bytes : ℕ) (key : RepoKey)
    (s : CacheState m) where
  -- After `register_mount` the repository has a reservation: the entry that the match built, and if
  -- that is not explicit, the share of the rebalance.
  pub lookup-register_mount :
      (bytes : Option ℕ) (hexes : List Text)
      → (per : ℕ) × (lookup key (register_mount m max_bytes key bytes hexes s).reservations
          ≡ some (set_default per (register_entry bytes (lookup key s.reservations))))
  unfolding register_mount rebalance_default_reservations
  lookup-register_mount bytes hexes =
      let e = register_entry bytes (lookup key s.reservations) in
      let rs = insert key e s.reservations in
      (
        default_share max_bytes rs,
        lookup-set_defaults (default_share max_bytes rs) key rs
            ∙ ground (arith, lookup-insert key key e s.reservations),
      )

  pub unregister_last :
      (e : ReservationEntry)
      → lookup key s.reservations ≡ some e
      → e.refcount ≤ 1
      → unregister_mount m max_bytes key s ≡ drop_mount m max_bytes key s
  unfolding unregister_mount
  unregister_last e present last = ground arith

  pub unregister_more :
      (e : ReservationEntry)
      → lookup key s.reservations ≡ some e
      → 1 < e.refcount
      → (unregister_mount m max_bytes key s).reservations
        ≡ rebalance_default_reservations max_bytes
            (insert key (record e { refcount = e.refcount - 1 }) s.reservations)
  unfolding unregister_mount
  unregister_more e present more = ground arith

  pub unregister_absent :
      lookup key s.reservations ≡ none
      → (unregister_mount m max_bytes key s).reservations
        ≡ rebalance_default_reservations max_bytes s.reservations
  unfolding unregister_mount
  unregister_absent absent = ground arith

  -- Where each blob stands once among the owner sets, and the repository has a reservation of at
  -- most one mount, `unregister_mount` takes the repository from the owners of every blob
  -- and leaves all other owners.
  pub contains-unregister_mount :
      (hex : Text) (k : RepoKey) (e : ReservationEntry)
      → Distinct s.blob_owners
      → lookup key s.reservations ≡ some e
      → e.refcount ≤ 1
      → contains (owners_of hex (unregister_mount m max_bytes key s).blob_owners) k ≡ (
          if holds (RepoKey-discrete k key)
          then false
          else contains (owners_of hex s.blob_owners) k)
  unfolding drop_mount
  contains-unregister_mount hex k e d present last =
      rw (unregister_last e present last, owners_of-disown key hex s.blob_owners d)
        (contains-remove_owner key k (owners_of hex s.blob_owners))

rebalance_defaults :
    (max_bytes : ℕ) (rs : Reservations)
    → rebalance_default_reservations max_bytes rs ≡ set_defaults (default_share max_bytes rs) rs
unfolding rebalance_default_reservations
rebalance_defaults max_bytes rs = refl

reservations_again :
    (max_bytes : ℕ) (key : RepoKey) (e : ReservationEntry) (rs : Reservations)
    → lookup key rs ≡ none
    → rebalance_default_reservations max_bytes
        (remove key (rebalance_default_reservations max_bytes (insert key e rs)))
      ≡ rebalance_default_reservations max_bytes rs
reservations_again max_bytes key e rs absent =
    ap (λ t. rebalance_default_reservations max_bytes (remove key t))
      (rebalance_defaults max_bytes (insert key e rs))
    ∙ rw (remove-set_defaults, rebalance-set_defaults, remove-insert, remove_absent key rs absent)

module _ (m : LinkedHashMap Text CacheEntry) (max_bytes : ℕ) (key : RepoKey)
    (s : CacheState m) where
  -- To register a repository that has no reservation and to unregister it again leaves the
  -- reservations as a rebalance leaves those that were there.
  pub unregister_mount-register_mount :
      (bytes : Option ℕ) (hexes : List Text)
      → lookup key s.reservations ≡ none
      → (unregister_mount m max_bytes key
          (register_mount m max_bytes key bytes hexes s)).reservations
        ≡ rebalance_default_reservations max_bytes s.reservations
  unregister_mount-register_mount bytes hexes absent =
      let s' = register_mount m max_bytes key bytes hexes s in
      let (per, found) = lookup-register_mount m max_bytes key s bytes hexes in
      let one : (set_default per (register_entry bytes (lookup key s.reservations))).refcount ≡ 1 =
        refcount-set_default per _
        ∙ refcount-register_entry bytes _ (rw absent (omega arith))
        ∙ ap (λ o. refcount_of o + 1) absent in
      rw (unregister_last m max_bytes key s' _ found (omega arith)) (
        unfold register_mount drop_mount in
        reservations_again max_bytes key (register_entry bytes (lookup key s.reservations))
          s.reservations absent)
