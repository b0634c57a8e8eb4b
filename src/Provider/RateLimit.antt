-- ===== src/Provider/RateLimit.antt =====
-- crates/ctxfs-provider-common/src/rate_limit.rs: budgets, and the verdict on a response; and
-- `classify_response` of crates/ctxfs-provider-git/src/github.rs. Times are seconds since the epoch.
-- A token is ASCII, so its first 8 characters are its first 8 bytes.
pub mod Verdict
use ctxfs.Common.{
  ℕ, ◌+◌, ◌-◌, Bool, true, false, Option, none, some, List, [], ◌∷◌, Text, text, text_key,
  Text-discrete, ltb, leb, ◌==◌, if◌then◌else◌, holds, take, ◌||◌, ◌&&◌, not,
}
use ctxfs.Common.Assoc.{lookup}
use ctxfs.Common.Number.{parse_u64}
use ctxfs.Core.Error.{CtxfsError, rate_limited}

pub data AuthKind : Type 0 where
  anonymous : AuthKind
  pat : (token_id_prefix : Text) → AuthKind
  github_app : (installation_id : ℕ) → AuthKind

pub record AuthIdentity : Type 0 where
  pub host : Text
  pub kind : AuthKind

unfoldable pub anonymous_identity : Text → AuthIdentity
anonymous_identity host = record { host = host; kind = anonymous }

unfoldable pub pat_identity : Text → Text → AuthIdentity
pat_identity host token = record { host = host; kind = pat (take 8 token) }

pub data ThrottleState : Type 0 where
  inactive : ThrottleState
  active : (until : ℕ) → ThrottleState

pub record RateLimitGauge : Type 0 where
  pub limit : Option ℕ
  pub remaining : Option ℕ
  pub reset_at : Option ℕ
  pub secondary_throttle_state : ThrottleState

abbrev pub unknown : RateLimitGauge
unknown = record {
  limit = none;
  remaining = none;
  reset_at = none;
  secondary_throttle_state = inactive;
}

-- Header names in lower case, with their values.
abbrev pub Headers : Type 0
Headers = List (Text × Text)

-- `headers.get(name).and_then(|s| s.parse().ok())`
unfoldable pub header_number : Text → Headers → Option ℕ
header_number name headers = elim (lookup name headers) [ none ↦ none | some s ↦ parse_u64 s ]

abbrev pub or_else : Option ℕ → Option ℕ → Option ℕ
or_else none old = old
or_else (some n) old = some n

-- A `SystemTime` of these seconds; the sum that makes it panics past `latest`, the last second that the
-- platform can tell.
unfoldable pub system_time : (latest secs : ℕ) → Option ℕ
system_time latest secs = if ltb latest secs then none else some secs

-- `reset_at`, from the header where it has one.
unfoldable pub reset_time : (latest : ℕ) → Option ℕ → Option ℕ → Option (Option ℕ)
reset_time latest none old = some old
reset_time latest (some secs) old = elim (system_time latest secs) [
  | none ↦ none
  | some reset_at ↦ some (some reset_at)
]

unfoldable pub update_from_headers : (latest : ℕ) → Headers → RateLimitGauge → Option RateLimitGauge
update_from_headers latest headers g =
    elim (reset_time latest (header_number (text "x-ratelimit-reset") headers) g.reset_at) [
      | none ↦ none
      | some reset_at ↦ some (record g {
        limit = or_else (header_number (text "x-ratelimit-limit") headers) g.limit;
        remaining = or_else (header_number (text "x-ratelimit-remaining") headers) g.remaining;
        reset_at = reset_at;
      })
    ]

unfoldable pub set_secondary_throttle :
    (latest now retry_after : ℕ) → RateLimitGauge → Option RateLimitGauge
set_secondary_throttle latest now retry_after g = elim (system_time latest (now + retry_after)) [
  | none ↦ none
  | some until ↦ some (record g { secondary_throttle_state = active until })
]

unfoldable pub clear_throttle : ℕ → ThrottleState → ThrottleState
clear_throttle now inactive = inactive
clear_throttle now (active until) = if leb until now then inactive else active until

unfoldable pub clear_expired_throttle : ℕ → RateLimitGauge → RateLimitGauge
clear_expired_throttle now g = record g {
  secondary_throttle_state = clear_throttle now g.secondary_throttle_state;
}

pub data ResourceClass : Type 0 where
  core search code_search graphql : ResourceClass
  other : Text → ResourceClass

unfoldable pub parse_resource : Text → ResourceClass
parse_resource s =
    if holds (Text-discrete s (text "core"))
    then core
    else if holds (Text-discrete s (text "search"))
    then ResourceClass.search
    else if holds (Text-discrete s (text "code_search"))
    then code_search
    else if holds (Text-discrete s (text "graphql"))
    then graphql
    else ResourceClass.other s

pub data RateLimitVerdict : Type 0 where
  ok : (resource : ResourceClass) → RateLimitVerdict
  primary_exhausted : (reset_at : ℕ) → (resource : ResourceClass) → RateLimitVerdict
  secondary_throttle : (retry_after : ℕ) → (resource : ResourceClass) → RateLimitVerdict
  other : (status : ℕ) → RateLimitVerdict

unfoldable pub resource_of : Headers → ResourceClass
resource_of headers = elim (lookup (text "x-ratelimit-resource") headers) [
  | none ↦ ResourceClass.other (text "unknown")
  | some s ↦ parse_resource s
]

-- `(200..300).contains(&status)`
abbrev pub is_success : ℕ → Bool
is_success status = if ltb status 200 then false else ltb status 300

-- The wait that a secondary throttle asks for.
unfoldable pub throttled : ℕ → Headers → Option ℕ
throttled status headers =
    if (status == 429) || (status == 403) then header_number (text "retry-after") headers else none

-- The end of the wait for an exhausted budget.
unfoldable pub exhausted : ℕ → Headers → Option ℕ
exhausted status headers = elim (header_number (text "x-ratelimit-remaining") headers) [
  | none ↦ none
  | some remaining ↦
      if (remaining == 0) && not (is_success status)
      then header_number (text "x-ratelimit-reset") headers
      else none
]

-- `ThrottleClassifier::classify`
unfoldable pub classify : (latest : ℕ) → ℕ → Headers → Option RateLimitVerdict
classify latest status headers = elim (throttled status headers) [
  | some secs ↦ some (secondary_throttle secs (resource_of headers))
  | none ↦ elim (exhausted status headers) [
    | some reset_secs ↦ elim (system_time latest reset_secs) [
      | none ↦ none
      | some reset_at ↦ some (primary_exhausted reset_at (resource_of headers))
    ]
    | none ↦
        if is_success status
        then some (RateLimitVerdict.ok (resource_of headers))
        else some (RateLimitVerdict.other status)
  ]
]

-- The seconds until a time, or 60 if it is past.
unfoldable pub secs_until : ℕ → ℕ → ℕ
secs_until now reset_at = if leb now reset_at then reset_at - now else 60

-- The error of a throttled response.
unfoldable pub verdict_error : (now : ℕ) → RateLimitVerdict → Option CtxfsError
verdict_error now (RateLimitVerdict.ok resource) = none
verdict_error now (secondary_throttle retry_after resource) = some (rate_limited retry_after)
verdict_error now (primary_exhausted reset_at resource) =
    some (rate_limited (secs_until now reset_at))
verdict_error now (RateLimitVerdict.other status) = none

unfoldable pub classify_response : (latest now : ℕ) → ℕ → Headers → Option (Option CtxfsError)
classify_response latest now status headers = elim (classify latest status headers) [
  | none ↦ none
  | some verdict ↦ some (verdict_error now verdict)
]
