-- ===== src/Provider/Observability.antt =====
-- crates/ctxfs-provider-common/src/observability.rs: the registry of gauges and counters. Counters are
-- shared through the registry, so a call on them is an update of their entry.
pub mod Merge
use ctxfs.Common.{ℕ, Option, none, some, List, [], ◌∷◌, Text, text, Text-discrete, ℕ_discrete}
use ctxfs.Common.Assoc.{Key, lookup, insert, remove}
use ctxfs.Provider.Counters.{
  CounterKey, counter_key, MountCounters, new_counters, merge_from_snapshot, snapshot,
}
use ctxfs.Provider.RateLimit.{
  AuthIdentity, ResourceClass, RateLimitGauge, Headers, unknown, update_from_headers,
  set_secondary_throttle,
}

abbrev pub GaugeKey : Type 0
GaugeKey = AuthIdentity × ResourceClass

unfoldable pub GaugeKey-discrete : Discrete GaugeKey
unfolding Text-discrete ℕ_discrete
GaugeKey-discrete = hlevel (Text-discrete, ℕ_discrete)

instance abbrev pub gauge_key : Key GaugeKey
gauge_key = record { eq? = GaugeKey-discrete }

pub record Observability : Type 0 where
  pub gauges : List (GaugeKey × RateLimitGauge)
  pub counters : List (CounterKey × MountCounters)

abbrev pub new : Observability
new = record { gauges = []; counters = [] }

abbrev pub counters_or_new : Option MountCounters → MountCounters
counters_or_new none = new_counters
counters_or_new (some c) = c

-- `counters_for(key)`, and a call on what it returns.
unfoldable pub counters_for :
    CounterKey → (MountCounters → MountCounters) → Observability → Observability
counters_for key call o = record o {
  counters = insert key (call (counters_or_new (lookup key o.counters))) o.counters;
}

abbrev pub gauge_or_unknown : Option RateLimitGauge → RateLimitGauge
gauge_or_unknown none = unknown
gauge_or_unknown (some g) = g

unfoldable pub gauge_for : AuthIdentity → ResourceClass → Observability → RateLimitGauge
gauge_for auth resource o = gauge_or_unknown (lookup (auth, resource) o.gauges)

-- `none` is a panic, of the time that the gauge is given.
unfoldable pub update_gauge :
    (latest : ℕ) → AuthIdentity → ResourceClass → Headers → Observability → Option Observability
update_gauge latest auth resource headers o =
    elim (update_from_headers latest headers
      (gauge_or_unknown (lookup (auth, resource) o.gauges))) [
        | none ↦ none
        | some gauge ↦ some (record o { gauges = insert (auth, resource) gauge o.gauges })
      ]

unfoldable pub mark_secondary_throttle :
    (latest now : ℕ)
    → AuthIdentity
    → ResourceClass
    → (retry_after : ℕ) → Observability
    → Option Observability
mark_secondary_throttle latest now auth resource retry_after o =
    elim (set_secondary_throttle latest now retry_after
      (gauge_or_unknown (lookup (auth, resource) o.gauges))) [
        | none ↦ none
        | some gauge ↦ some (record o { gauges = insert (auth, resource) gauge o.gauges })
      ]

unfoldable pub merge_and_drop_placeholder :
    (placeholder real : CounterKey) → Observability → Observability
merge_and_drop_placeholder placeholder real o = elim (lookup placeholder o.counters) [
  | none ↦ o
  | some ph_counters ↦
      counters_for real (merge_from_snapshot (snapshot ph_counters))
        (record o { counters = remove placeholder o.counters })
]
