-- ===== src/Cache/State.antt =====
-- crates/ctxfs-cache/src/lib.rs (`CacheState`) and src/reservation.rs: the state behind the
-- cache's mutex, and the questions that its eviction loop asks.
use ctxfs.Common.{
  ℕ, ◌+◌, ◌%◌, Bool, true, false, ◌||◌, Option, none, some, List, [], ◌∷◌, Text, text_key, ltb, leb,
  if◌then◌else◌, holds, Text-discrete,
}
use ctxfs.Common.Assoc.{Key, lookup}
use ctxfs.Common.Word.{u64_mod}
use ctxfs.Core.Digest.{HashAlgorithm}
use ctxfs.Cache.LinkedMap.{LinkedHashMap}

-- `RepoKey`: a repository, whatever the commit.
pub record RepoKey : Type 0 where
  pub host : Text
  pub owner : Text
  pub repo : Text

unfoldable pub RepoKey-discrete : Discrete RepoKey
unfolding Text-discrete
RepoKey-discrete = hlevel Text-discrete

instance abbrev pub repo_key : Key RepoKey
repo_key = record { eq? = RepoKey-discrete }

pub record ReservationEntry : Type 0 where
  pub reserved_bytes : ℕ
  pub is_explicit_override : Bool
  pub refcount : ℕ

pub record CacheEntry : Type 0 where
  pub size : ℕ
  pub algorithm : HashAlgorithm

-- A `HashMap<String, BTreeSet<RepoKey>>`; a set is a list.
abbrev pub Owners : Type 0
Owners = List (Text × List RepoKey)

abbrev pub Reservations : Type 0
Reservations = List (RepoKey × ReservationEntry)

pub record CacheState (m : LinkedHashMap Text CacheEntry) : Type 0 where
  pub entries : m.Map
  pub total_bytes : ℕ
  pub blob_owners : Owners
  pub reservations : Reservations

unfoldable pub contains : List RepoKey → RepoKey → Bool
contains [] key = false
contains (k ∷ ks) key = holds (RepoKey-discrete key k) || contains ks key

-- The size of a cached blob; 0 if it is only claimed.
abbrev pub size_of : Option CacheEntry → ℕ
size_of none = 0
size_of (some e) = e.size

-- The bytes that `get` finds of the blobs that `key` owns, unbounded.
unfoldable pub owned_bytes : (Text → Option CacheEntry) → RepoKey → Owners → ℕ
owned_bytes get key [] = 0
owned_bytes get key ((hex, owners) ∷ rest) =
    (if contains owners key then size_of (get hex) else 0) + owned_bytes get key rest

-- `working_set_bytes_for`: the same sum in 64 bits.
unfoldable pub working_set_bytes_for : (Text → Option CacheEntry) → Owners → RepoKey → ℕ
working_set_bytes_for get blob_owners key = owned_bytes get key blob_owners % u64_mod

-- One owner of the loop in `is_protected_by_reservation`: does it protect the blob?
unfoldable pub protects : (Text → Option CacheEntry) → Owners → Reservations → RepoKey → Bool
protects get blob_owners reservations owner = elim (lookup owner reservations) [
  | none ↦ false
  | some e ↦
      if ltb 0 e.reserved_bytes
      then leb (working_set_bytes_for get blob_owners owner) e.reserved_bytes
      else false
]

unfoldable pub any_protects :
    (Text → Option CacheEntry) → Owners → Reservations → List RepoKey → Bool
any_protects get blob_owners reservations [] = false
any_protects get blob_owners reservations (owner ∷ owners) =
    if protects get blob_owners reservations owner
    then true
    else any_protects get blob_owners reservations owners

abbrev pub owners_of : Text → Owners → List RepoKey
owners_of hex blob_owners = elim (lookup hex blob_owners) [ none ↦ [] | some owners ↦ owners ]

unfoldable pub is_protected_by_reservation :
    (Text → Option CacheEntry) → Owners → Reservations → Text → Bool
is_protected_by_reservation get blob_owners [] candidate_hex = false
is_protected_by_reservation get blob_owners (r ∷ reservations) candidate_hex =
    any_protects get blob_owners (r ∷ reservations) (owners_of candidate_hex blob_owners)
