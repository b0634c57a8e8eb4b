-- ===== src/Provider/Fetcher.antt =====
-- crates/ctxfs-provider-common/src/fetcher.rs: content requests, their cost, and the gate that decides
-- how they are fetched.
use ctxfs.Common.{
  ℕ, Bool, true, false, Option, none, some, List, [], ◌∷◌, Text, ltb, if◌then◌else◌, length,
}
use ctxfs.Common.Word.{add64}
use ctxfs.Core.Digest.{Digest}

pub data ContentKind : Type 0 where
  file symlink lfs_pointer : ContentKind

pub record ContentRequest : Type 0 where
  pub path : Text
  pub digest : Option Digest
  pub size : Option ℕ
  pub kind : ContentKind

pub data FetchMode : Type 0 where
  lazy bulk_prefetch forced : FetchMode

pub data PrefetchPolicy : Type 0 where
  auto force disabled : PrefetchPolicy

unfoldable pub PrefetchPolicy-discrete : Discrete PrefetchPolicy
PrefetchPolicy-discrete = hlevel

pub data FetchPolicy : Type 0 where
  tarball : (estimated_bytes blob_count : ℕ) → FetchPolicy
  lazy : FetchPolicy
  lazy_oversized : (estimated_bytes blob_count cap : ℕ) → FetchPolicy

pub record CostEstimate : Type 0 where
  pub total_bytes : Option ℕ
  pub request_count : ℕ

-- `requests.iter().any(|r| r.size.is_none())`
unfoldable pub any_unknown_size : List ContentRequest → Bool
any_unknown_size [] = false
any_unknown_size (r ∷ requests) =
    let rest = any_unknown_size requests in elim r.size [ none ↦ true | some n ↦ rest ]

-- `requests.iter().filter_map(|r| r.size).sum()`, a 64-bit sum from 0.
unfoldable pub known_bytes_from : ℕ → List ContentRequest → ℕ
known_bytes_from sum [] = sum
known_bytes_from sum (r ∷ requests) = elim r.size [
  | none ↦ known_bytes_from sum requests
  | some n ↦ known_bytes_from (add64 sum n) requests
]

unfoldable pub known_bytes : List ContentRequest → ℕ
known_bytes requests = known_bytes_from 0 requests

unfoldable pub default_cost_estimate : List ContentRequest → CostEstimate
default_cost_estimate requests = record {
  total_bytes = if any_unknown_size requests then none else some (known_bytes requests);
  request_count = length requests;
}

-- The gate: `blob_count`, `estimated_bytes`, the policy, `threshold_count`, `max_bytes`.
unfoldable pub decide_policy : ℕ → ℕ → PrefetchPolicy → ℕ → ℕ → FetchPolicy
decide_policy blob_count estimated_bytes disabled threshold_count max_bytes = FetchPolicy.lazy
decide_policy blob_count estimated_bytes force threshold_count max_bytes =
    tarball estimated_bytes blob_count
decide_policy blob_count estimated_bytes auto threshold_count max_bytes =
    if ltb blob_count threshold_count
    then FetchPolicy.lazy
    else if ltb max_bytes estimated_bytes
    then lazy_oversized estimated_bytes blob_count max_bytes
    else tarball estimated_bytes blob_count
