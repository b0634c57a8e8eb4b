-- ===== src/Provider/RateLimit/Verdict.antt =====
-- The verdict on a response, its status and the gauge.
use ctxfs.Common.{
  ℕ, ◌<◌, ◌≤◌, ◌≡◌, refl, sym, subst, ap, true, false, Bool-cases, Option, none, some, Option-cases,
  ltb, ◌⊎◌, inl, inr, text, text_key, arith,
}
use ctxfs.Provider.RateLimit.{
  RateLimitGauge, Headers, header_number, or_else, system_time, reset_time, update_from_headers,
  RateLimitVerdict, primary_exhausted, secondary_throttle, is_success, throttled, exhausted,
  resource_of, classify,
}

abbrev pub Succeeds : ℕ → Type 0
Succeeds status = (200 ≤ status) × (status < 300)

-- The response asks for a wait of so many seconds.
abbrev pub IsThrottled : ℕ → Headers → ℕ → Type 0
IsThrottled status headers secs =
    ((status ≡ 429) ⊎ (status ≡ 403)) × (header_number (text "retry-after") headers ≡ some secs)

-- The response says that the budget is used up until this time.
abbrev pub IsExhausted : ℕ → Headers → ℕ → Type 0
IsExhausted status headers reset =
    (¬ Succeeds status)
    × (header_number (text "x-ratelimit-remaining") headers ≡ some 0)
    × (header_number (text "x-ratelimit-reset") headers ≡ some reset)

-- A gauge that is updated from the headers shows that nothing is left until this time.
abbrev pub Shows : ℕ → Headers → RateLimitGauge → ℕ → Type 0
Shows latest headers g reset =
    (g' : RateLimitGauge) × (update_from_headers latest headers g ≡ some g')
    × (g'.remaining ≡ some 0)
    × (g'.reset_at ≡ some reset)

-- What each verdict says of the response; `none` is a panic.
abbrev pub Tells : ℕ → ℕ → Headers → RateLimitGauge → Option RateLimitVerdict → Type 0
Tells latest status headers g none =
    ((secs : ℕ) → ¬ IsThrottled status headers secs)
    × ((reset : ℕ) × IsExhausted status headers reset × (latest < reset))
Tells latest status headers g (some (secondary_throttle retry_after resource)) =
    IsThrottled status headers retry_after × (resource ≡ resource_of headers)
Tells latest status headers g (some (primary_exhausted reset_at resource)) =
    ((secs : ℕ) → ¬ IsThrottled status headers secs)
    × IsExhausted status headers reset_at
    × (reset_at ≤ latest)
    × (resource ≡ resource_of headers)
    × Shows latest headers g reset_at
Tells latest status headers g (some (RateLimitVerdict.ok resource)) =
    ((secs : ℕ) → ¬ IsThrottled status headers secs)
    × Succeeds status
    × (resource ≡ resource_of headers)
Tells latest status headers g (some (RateLimitVerdict.other s)) =
    ((secs : ℕ) → ¬ IsThrottled status headers secs)
    × ((reset : ℕ) → ¬ IsExhausted status headers reset)
    × (¬ Succeeds status)
    × (s ≡ status)

is_success-Succeeds : (status : ℕ) → is_success status ≡ true → Succeeds status
is_success-Succeeds status h = (ground arith, ground arith)

is_success-fails : (status : ℕ) → is_success status ≡ false → ¬ Succeeds status
is_success-fails status h (le, lt) = absurd (ground arith)

Succeeds-is_success : (status : ℕ) → ¬ Succeeds status → is_success status ≡ false
Succeeds-is_success status fails = elim (Bool-cases (is_success status)) [
  | inl is ↦ absurd (fails (is_success-Succeeds status is))
  | inr is ↦ is
]

throttled-some :
    (status : ℕ) (headers : Headers) (secs : ℕ)
    → throttled status headers ≡ some secs
    → IsThrottled status headers secs
unfolding throttled
throttled-some status headers secs h = (ground arith, ground arith)

throttled-none :
    (status : ℕ) (headers : Headers)
    → throttled status headers ≡ none
    → (secs : ℕ) → ¬ IsThrottled status headers secs
unfolding throttled
throttled-none status headers h secs (inl is, found) = absurd (ground arith)
throttled-none status headers h secs (inr is, found) = absurd (ground arith)

exhausted-some :
    (status : ℕ) (headers : Headers) (reset : ℕ)
    → exhausted status headers ≡ some reset
    → IsExhausted status headers reset
unfolding exhausted
exhausted-some status headers reset h =
    elim (Option-cases (header_number (text "x-ratelimit-remaining") headers)) [
      | inl absent ↦ absurd (ground arith)
      | inr (n, found) ↦ (is_success-fails status (ground arith), ground arith, ground arith)
    ]

exhausted-none :
    (status : ℕ) (headers : Headers)
    → exhausted status headers ≡ none
    → (reset : ℕ) → ¬ IsExhausted status headers reset
unfolding exhausted
exhausted-none status headers h reset (fails, nothing, found) =
    let failed = Succeeds-is_success status fails in absurd (ground arith)

module _ (latest status : ℕ) (headers : Headers) where
  secondary :
      (secs : ℕ)
      → throttled status headers ≡ some secs
      → classify latest status headers ≡ some (secondary_throttle secs (resource_of headers))
  unfolding classify
  secondary secs h = ground arith

  primary :
      (reset : ℕ)
      → throttled status headers ≡ none
      → exhausted status headers ≡ some reset
      → reset ≤ latest
      → classify latest status headers ≡ some (primary_exhausted reset (resource_of headers))
  unfolding classify system_time
  primary reset t h le = ground arith

  panics :
      (reset : ℕ)
      → throttled status headers ≡ none
      → exhausted status headers ≡ some reset
      → latest < reset
      → classify latest status headers ≡ none
  unfolding classify system_time
  panics reset t h lt = ground arith

  success :
      throttled status headers ≡ none
      → exhausted status headers ≡ none
      → is_success status ≡ true
      → classify latest status headers ≡ some (RateLimitVerdict.ok (resource_of headers))
  unfolding classify
  success t h is = ground arith

  failure :
      throttled status headers ≡ none
      → exhausted status headers ≡ none
      → is_success status ≡ false
      → classify latest status headers ≡ some (RateLimitVerdict.other status)
  unfolding classify
  failure t h is = ground arith

  shown :
      (g : RateLimitGauge) (reset : ℕ)
      → header_number (text "x-ratelimit-remaining") headers ≡ some 0
      → header_number (text "x-ratelimit-reset") headers ≡ some reset
      → reset ≤ latest
      → Shows latest headers g reset
  unfolding update_from_headers reset_time system_time
  shown g reset r s le = (
    record g {
      limit = or_else (header_number (text "x-ratelimit-limit") headers) g.limit;
      remaining = or_else (header_number (text "x-ratelimit-remaining") headers) g.remaining;
      reset_at = some reset;
    },
    ground arith,
    ap (λ x. or_else x g.remaining) r,
    refl,
  )

  exhausted-Tells :
      (g : RateLimitGauge) (reset : ℕ)
      → throttled status headers ≡ none
      → exhausted status headers ≡ some reset
      → Tells latest status headers g (classify latest status headers)
  exhausted-Tells g reset t e =
      let unthrottled = throttled-none status headers t in
      let (fails, r, s) = exhausted-some status headers reset e in
      elim (Bool-cases (ltb latest reset)) [
        | inr below ↦
            let le : reset ≤ latest = ground arith in
            subst (Tells latest status headers g) (sym (primary reset t e le))
              (unthrottled, (fails, r, s), le, refl, shown g reset r s le)
        | inl above ↦
            let lt : latest < reset = ground arith in
            subst (Tells latest status headers g) (sym (panics reset t e lt))
              (unthrottled, (reset, (fails, r, s), lt))
      ]

  -- What `classify` returns. A status 429 or 403 with a `retry-after` of so many seconds is a
  -- throttle of these seconds, whatever the other headers are. Else a status that is no success with
  -- nothing remaining and a time of the reset is an exhausted budget until then, which a gauge
  -- that is updated from the same headers shows too, if the platform can tell the time; if it
  -- cannot, `classify` panics. Else a status from 200 to 299 is a success, and any other status
  -- is told as it is. The resource is the one that the headers name.
  pub classify-Tells :
      (g : RateLimitGauge) → Tells latest status headers g (classify latest status headers)
  classify-Tells g = elim (Option-cases (throttled status headers)) [
    | inr (secs, t) ↦
        subst (Tells latest status headers g) (sym (secondary secs t))
          (throttled-some status headers secs t, refl)
    | inl t ↦ elim (Option-cases (exhausted status headers)) [
      | inr (reset, e) ↦ exhausted-Tells g reset t e
      | inl e ↦ elim (Bool-cases (is_success status)) [
        | inl is ↦
            subst (Tells latest status headers g) (sym (success t e is))
              (throttled-none status headers t, is_success-Succeeds status is, refl)
        | inr is ↦ subst (Tells latest status headers g) (sym (failure t e is)) (
          throttled-none status headers t,
          exhausted-none status headers e,
          is_success-fails status is,
          refl,
        )
      ]
    ]
  ]
