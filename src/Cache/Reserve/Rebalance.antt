-- ===== src/Cache/Reserve/Rebalance.antt =====
-- The default rebalance shares what the explicit reservations leave.
use ctxfs.Common.{
  ℕ, ◌+◌, ◌-◌, ◌*◌, ◌/◌, ◌%◌, ◌≤◌, ◌<◌, ◌≡◌, refl, none, some, [], ◌∷◌, arith, if◌then◌else◌,
  Bool-cases, inl, inr, ◌==◌,
}
use ctxfs.Common.Assoc.{lookup}
use ctxfs.Common.Word.{u64_mod}
use ctxfs.Cache.State.{RepoKey, repo_key, Reservations}
use ctxfs.Cache.Reserve.{
  explicit_sum, default_count, default_share, set_default, set_defaults,
  rebalance_default_reservations,
}

-- All that is reserved, unbounded.
unfoldable pub reserved_sum : Reservations → ℕ
reserved_sum [] = 0
reserved_sum ((k, e) ∷ rs) = e.reserved_bytes + reserved_sum rs

pub explicit_sum-set_defaults :
    (per : ℕ) (rs : Reservations) → explicit_sum (set_defaults per rs) ≡ explicit_sum rs
unfolding explicit_sum set_defaults set_default
explicit_sum-set_defaults per [] = refl
explicit_sum-set_defaults per ((k, e) ∷ rs) = ground (arith, explicit_sum-set_defaults per rs)

pub default_count-set_defaults :
    (per : ℕ) (rs : Reservations) → default_count (set_defaults per rs) ≡ default_count rs
unfolding default_count set_defaults set_default
default_count-set_defaults per [] = refl
default_count-set_defaults per ((k, e) ∷ rs) = ground (arith, default_count-set_defaults per rs)

pub set_defaults-set_defaults :
    (per per' : ℕ) (rs : Reservations)
    → set_defaults per (set_defaults per' rs) ≡ set_defaults per rs
unfolding set_defaults set_default
set_defaults-set_defaults per per' [] = refl
set_defaults-set_defaults per per' ((k, e) ∷ rs) =
    ground (arith, set_defaults-set_defaults per per' rs)

-- The shares depend on the explicit reservations and on the number of the others only.
pub rebalance-set_defaults :
    (max_bytes per : ℕ) (rs : Reservations)
    → rebalance_default_reservations max_bytes (set_defaults per rs)
      ≡ rebalance_default_reservations max_bytes rs
unfolding rebalance_default_reservations default_share
rebalance-set_defaults max_bytes per rs =
    rw (explicit_sum-set_defaults, default_count-set_defaults, set_defaults-set_defaults)

reserved_sum-set_defaults :
    (per : ℕ) (rs : Reservations)
    → reserved_sum (set_defaults per rs) ≡ explicit_sum rs + default_count rs * per
unfolding reserved_sum explicit_sum default_count set_defaults set_default
reserved_sum-set_defaults per [] = omega arith
reserved_sum-set_defaults per ((k, e) ∷ rs) = elim (Bool-cases e.is_explicit_override) [
  | inl explicit ↦ rw explicit (omega (arith, reserved_sum-set_defaults per rs))
  | inr default ↦ rw default (omega (arith, reserved_sum-set_defaults per rs))
]

share_fits : (count pool : ℕ) → count * (if count == 0 then 0 else pool / count) ≤ pool
share_fits count pool = elim (Bool-cases (count == 0)) [
  | inl none_left ↦ rw none_left (omega arith)
  | inr some_left ↦ rw some_left (grind arith)
]

-- If the limit is a 64-bit number and the explicit reservations fit it together, all the
-- reservations together fit it after a rebalance.
pub reserved_sum-rebalance-le :
    (max_bytes : ℕ) (rs : Reservations)
    → max_bytes < u64_mod
    → explicit_sum rs ≤ max_bytes
    → reserved_sum (rebalance_default_reservations max_bytes rs) ≤ max_bytes
unfolding rebalance_default_reservations default_share
reserved_sum-rebalance-le max_bytes rs small fits = omega (
  arith,
  reserved_sum-set_defaults (default_share max_bytes rs) rs,
  share_fits (default_count rs) (max_bytes - explicit_sum rs % u64_mod),
)

-- A rebalance changes an entry only if it is not explicit, and then only its bytes.
pub lookup-set_defaults :
    (per : ℕ) (key : RepoKey) (rs : Reservations)
    → lookup key (set_defaults per rs)
      ≡ elim (lookup key rs) [ none ↦ none | some e ↦ some (set_default per e) ]
unfolding lookup set_defaults
lookup-set_defaults per key [] = refl
lookup-set_defaults per key ((k, e) ∷ rs) = ground (arith, lookup-set_defaults per key rs)
