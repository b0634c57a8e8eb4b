-- ===== src/Cache/Reserve.antt =====
-- crates/ctxfs-cache/src/lib.rs: reservations and ownership (`register_mount`,
-- `unregister_mount`, `add_owner`, `rebalance_default_reservations`).
pub mod Rebalance
pub mod Mounts
pub mod Counts
use ctxfs.Common.{
  ℕ, ◌+◌, ◌-◌, ◌/◌, ◌%◌, ◌^◌, Bool, true, false, not, Option, none, some, List, [], ◌∷◌, map, Text,
  text_key, ◌==◌, if◌then◌else◌, holds,
}
use ctxfs.Common.Assoc.{lookup, insert, remove}
use ctxfs.Common.Word.{u64_mod}
use ctxfs.Cache.LinkedMap.{LinkedHashMap}
use ctxfs.Cache.State.{
  RepoKey, RepoKey-discrete, repo_key, ReservationEntry, CacheEntry, CacheState, Owners,
  Reservations, contains, owners_of,
}

-- The `sum` over the explicit entries, before it is cut to 64 bits.
unfoldable pub explicit_sum : Reservations → ℕ
explicit_sum [] = 0
explicit_sum ((k, e) ∷ rs) =
    (if e.is_explicit_override then e.reserved_bytes else 0) + explicit_sum rs

unfoldable pub default_count : Reservations → ℕ
default_count [] = 0
default_count ((k, e) ∷ rs) = (if e.is_explicit_override then 0 else 1) + default_count rs

-- What each default mount gets; `checked_div` by no mounts gives 0.
unfoldable pub default_share : ℕ → Reservations → ℕ
default_share max_bytes rs =
    let count = default_count rs in
    if count == 0 then 0 else (max_bytes - explicit_sum rs % u64_mod) / count

unfoldable pub set_default : ℕ → ReservationEntry → ReservationEntry
set_default per e = if e.is_explicit_override then e else record e { reserved_bytes = per }

unfoldable pub set_defaults : ℕ → Reservations → Reservations
set_defaults per [] = []
set_defaults per ((k, e) ∷ rs) = (k, set_default per e) ∷ set_defaults per rs

unfoldable pub rebalance_default_reservations : ℕ → Reservations → Reservations
rebalance_default_reservations max_bytes rs = set_defaults (default_share max_bytes rs) rs

-- `BTreeSet::insert`
unfoldable pub insert_owner : RepoKey → List RepoKey → List RepoKey
insert_owner key owners = if contains owners key then owners else key ∷ owners

-- `BTreeSet::remove`
unfoldable pub remove_owner : RepoKey → List RepoKey → List RepoKey
remove_owner key [] = []
remove_owner key (k ∷ ks) =
    let rest = remove_owner key ks in if holds (RepoKey-discrete key k) then rest else k ∷ rest

-- `blob_owners.entry(hex).or_default().insert(key)`
unfoldable pub claim : RepoKey → Text → Owners → Owners
claim key hex owners = insert hex (insert_owner key (owners_of hex owners)) owners

unfoldable pub claim_all : RepoKey → List Text → Owners → Owners
claim_all key [] owners = owners
claim_all key (hex ∷ hexes) owners = claim_all key hexes (claim key hex owners)

-- The `match` on the reservation of the repository; `refcount` is a `u32`.
unfoldable pub register_entry : Option ℕ → Option ReservationEntry → ReservationEntry
register_entry (some bytes) (some e) = record {
  reserved_bytes = bytes;
  is_explicit_override = true;
  refcount = (e.refcount + 1) % 2 ^ 32;
}
register_entry none (some e) = record e { refcount = (e.refcount + 1) % 2 ^ 32 }
register_entry (some bytes) none = record {
  reserved_bytes = bytes;
  is_explicit_override = true;
  refcount = 1;
}
register_entry none none = record { reserved_bytes = 0; is_explicit_override = false; refcount = 1 }

-- The owner sets without `key`, and without the sets that are then empty.
unfoldable pub disown : RepoKey → Owners → Owners
disown key [] = []
disown key ((hex, ks) ∷ owners) =
    let rest = disown key owners in
    elim (remove_owner key ks) [ [] ↦ rest | k ∷ left ↦ (hex, k ∷ left) ∷ rest ]

module _ (m : LinkedHashMap Text CacheEntry) where
  unfoldable pub register_mount : ℕ → RepoKey → Option ℕ → List Text → CacheState m → CacheState m
  register_mount max_bytes key reservation_bytes manifest_hexes s = record s {
    blob_owners = claim_all key manifest_hexes s.blob_owners;
    reservations =
        rebalance_default_reservations max_bytes (
          insert key (register_entry reservation_bytes (lookup key s.reservations)) s.reservations);
  }

  -- The repository has gone: its reservation and its claims are dropped.
  unfoldable pub drop_mount : ℕ → RepoKey → CacheState m → CacheState m
  drop_mount max_bytes key s = record s {
    blob_owners = disown key s.blob_owners;
    reservations = rebalance_default_reservations max_bytes (remove key s.reservations);
  }

  -- `refcount` is counted down, and stops at 0.
  unfoldable pub unregister_mount : ℕ → RepoKey → CacheState m → CacheState m
  unregister_mount max_bytes key s = elim (lookup key s.reservations) [
    | none ↦ record s { reservations = rebalance_default_reservations max_bytes s.reservations }
    | some e ↦ if (e.refcount - 1) == 0 then drop_mount max_bytes key s else record s {
      reservations =
          rebalance_default_reservations max_bytes
            (insert key (record e { refcount = e.refcount - 1 }) s.reservations);
    }
  ]

  -- `add_owner`, and `add_owners`, which claims nothing if it is given nothing.
  unfoldable pub add_owner : RepoKey → Text → CacheState m → CacheState m
  add_owner key hex s = record s { blob_owners = claim key hex s.blob_owners }

  unfoldable pub add_owners : RepoKey → List Text → CacheState m → CacheState m
  add_owners key hexes s = record s { blob_owners = claim_all key hexes s.blob_owners }

  -- `reservation_bytes`
  unfoldable pub reservation_bytes : CacheState m → RepoKey → Option ℕ
  reservation_bytes s key = elim (lookup key s.reservations) [
    | none ↦ none
    | some e ↦ some e.reserved_bytes
  ]
