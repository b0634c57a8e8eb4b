-- ===== src/Tests/Providers.antt =====
-- What the providers share: the theorems at inputs that meet their hypotheses.
use ctxfs.Common.{
  inl, inr, ℕ, ◌↔◌, ◌≢◌, Bool, true, Text-discrete, ℕ_discrete, arith, ◌≡◌, refl, some, List, [],
  ◌∷◌, Text, text,
}
use ctxfs.Common.Assoc.{lookup, Distinct}
use ctxfs.Provider.Counters.{
  CounterKey, counter_key, CounterKey-discrete, new_counters, record_rest_call,
}
use ctxfs.Provider.Observability.{Observability, merge_and_drop_placeholder}
use ctxfs.Provider.Observability.Merge.{IsMerged, merge_and_drop_placeholder-IsMerged}
use ctxfs.Provider.Singleflight.{
  TarballKey, tarball_key, Singleflight, SlotClaim, claim_singleflight_slot, release,
}
use ctxfs.Provider.Singleflight.Single.{
  with_claim, without_claim, start, claims, releases, IsSingle, Run-IsSingle,
}
use ctxfs.Provider.Lfs.{LfsPointerInfo, detect_lfs_pointer}
use ctxfs.Provider.Lfs.Pointer.{IsPointer, lines_of, detect_lfs_pointer-IsPointer}
use ctxfs.Provider.RateLimit.{Headers, unknown, classify}
use ctxfs.Provider.RateLimit.Verdict.{Tells, classify-Tells}

abbrev all_utf8 : List ℕ → Bool
all_utf8 bytes = true

abbrev object : Text
object = text "0123456789abcdef0123456789abcdef0123456789abcdef0123456789abcdef"

abbrev info : LfsPointerInfo
info = record { oid_sha256 = object; size = 12 }

detect_lfs_pointer-IsPointer_example :
    (detect_lfs_pointer all_utf8 (lines_of object (text "12")) ≡ some info)
    ↔ IsPointer all_utf8 (lines_of object (text "12")) info
detect_lfs_pointer-IsPointer_example =
    detect_lfs_pointer-IsPointer all_utf8 (lines_of object (text "12")) info

-- A forbidden response of an exhausted budget.
abbrev headers : Headers
headers = (text "x-ratelimit-remaining", text "0") ∷ (text "x-ratelimit-reset", text "7") ∷ []

classify-Tells_example : Tells 100 403 headers unknown (classify 100 403 headers)
classify-Tells_example = classify-Tells 100 403 headers unknown

abbrev resolving : CounterKey
resolving = record {
  source = text "g";
  repo = text "r";
  commit = text "<resolving:main>";
  mount_id = text "m";
}

abbrev resolved : CounterKey
resolved = record { source = text "g"; repo = text "r"; commit = text "c"; mount_id = text "m" }

abbrev registry : Observability
registry = record {
  gauges = [];
  counters = (resolving, record_rest_call new_counters) ∷ (resolved, new_counters) ∷ [];
}

other_keys : resolving ≢ resolved
other_keys = λ is. absurd (ground arith)

distinct : Distinct registry.counters
unfolding lookup CounterKey-discrete Text-discrete ℕ_discrete
distinct = (refl, (refl, tt))

merge_and_drop_placeholder-IsMerged_example :
    IsMerged resolving registry (merge_and_drop_placeholder resolving resolved registry)
merge_and_drop_placeholder-IsMerged_example =
    merge_and_drop_placeholder-IsMerged resolving resolved registry other_keys distinct

abbrev tarball : TarballKey
tarball = record { host = text "h"; owner = text "o"; repo = text "r"; commit_sha = text "c" }

abbrev nothing_claimed : Singleflight
nothing_claimed = record { registry = []; next = 0 }

abbrev first : SlotClaim × Singleflight
first = claim_singleflight_slot tarball nothing_claimed

abbrev second : SlotClaim × Singleflight
second = claim_singleflight_slot tarball first.1

-- The leaders under way once both have claimed.
abbrev both : List SlotClaim
both = with_claim second.0 (with_claim first.0 [])

Run-IsSingle_example :
    IsSingle (release first.0 second.1) (second.0 ∷ first.0 ∷ []) (without_claim first.0 both)
Run-IsSingle_example = Run-IsSingle (
    releases first.0 second.1 (second.0 ∷ first.0 ∷ []) both (inr (inl refl)) (
      claims tarball first.1 (first.0 ∷ []) (with_claim first.0 [])
        (claims tarball nothing_claimed [] [] start)))
