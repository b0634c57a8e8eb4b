-- ===== src/Provider/Singleflight.antt =====
-- crates/ctxfs-provider-common/src/fetcher.rs and crates/ctxfs-provider-git/src/github.rs: the registry of
-- archive downloads under way. A slot is the number of its allocation, which stands for the
-- pointer that `Arc::ptr_eq` compares; the map's own locks make each call one step.
pub mod Single
use ctxfs.Common.{
  ℕ, ◌<◌, ◌≡◌, ◌≢◌, refl, sym, subst, ap, Bool, true, false, not, none, some, Option-cases, ◌⊎◌,
  inl, inr, List, [], ◌∷◌, All, All-map, In, In-All, Text, Text-discrete, arith, ◌==◌,
  if◌then◌else◌, ◌+◌,
}
use ctxfs.Common.Assoc.{Key, lookup, insert, remove, lookup-insert, lookup-remove}
use ctxfs.Common.Sort.{Pairwise}

pub record TarballKey : Type 0 where
  pub host : Text
  pub owner : Text
  pub repo : Text
  pub commit_sha : Text

unfoldable pub TarballKey-discrete : Discrete TarballKey
unfolding Text-discrete
TarballKey-discrete = hlevel Text-discrete

instance abbrev pub tarball_key : Key TarballKey
tarball_key = record { eq? = TarballKey-discrete }

-- `TarballSingleflightMap`, and the next slot to be allocated.
pub record Singleflight : Type 0 where
  pub registry : List (TarballKey × ℕ)
  pub next : ℕ

pub record SlotClaim : Type 0 where
  pub key : TarballKey
  pub slot : ℕ
  pub is_leader : Bool

unfoldable pub claim_singleflight_slot : TarballKey → Singleflight → SlotClaim × Singleflight
claim_singleflight_slot key s = elim (lookup key s.registry) [
  | some slot ↦ (record { key = key; slot = slot; is_leader = false }, s)
  | none ↦ (
    record { key = key; slot = s.next; is_leader = true },
    record { registry = insert key s.next s.registry; next = s.next + 1 },
  )
]

-- `SlotClaim::release`: `remove_if` on the slot of the claim.
unfoldable pub release : SlotClaim → Singleflight → Singleflight
release c s = if not c.is_leader then s else elim (lookup c.key s.registry) [
  | none ↦ s
  | some slot ↦ if slot == c.slot then record s { registry = remove c.key s.registry } else s
]
