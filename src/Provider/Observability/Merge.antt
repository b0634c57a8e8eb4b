-- ===== src/Provider/Observability/Merge.antt =====
-- What becomes of the counts when the bucket of a placeholder is merged.
use ctxfs.Common.{
  ℕ, ◌+◌, ◌%◌, ◌≡◌, ◌≢◌, refl, sym, subst, ap, ◌∙◌, none, some, Option-cases, inl, inr, List, [],
  ◌∷◌, arith,
}
use ctxfs.Common.Assoc.{
  lookup, insert, remove, Distinct, lookup-insert, lookup-remove, remove_absent,
}
use ctxfs.Common.Word.{add64, u64_mod}
use ctxfs.Provider.Counters.{
  CounterKey, CounterKey-discrete, counter_key, MountCounters, new_counters, merge_from_snapshot,
  snapshot,
}
use ctxfs.Provider.Observability.{
  Observability, counters_or_new, counters_for, merge_and_drop_placeholder,
}

-- One of the counters.
pub data Counter : Type 0 where
  rest_calls_total http_transfers_total bytes_total throttle_events prefetch_hits prefetch_failures
        prefetch_skipped_oversized tarball_digest_mismatch tarball_invalid_entries
        truncated_tree_fallbacks cache_hits cache_misses lfs_pointer_files :
      Counter

abbrev pub count : Counter → MountCounters → ℕ
count rest_calls_total c = c.rest_calls_total
count http_transfers_total c = c.http_transfers_total
count bytes_total c = c.bytes_total
count throttle_events c = c.throttle_events
count prefetch_hits c = c.prefetch_hits
count prefetch_failures c = c.prefetch_failures
count prefetch_skipped_oversized c = c.prefetch_skipped_oversized
count tarball_digest_mismatch c = c.tarball_digest_mismatch
count tarball_invalid_entries c = c.tarball_invalid_entries
count truncated_tree_fallbacks c = c.truncated_tree_fallbacks
count cache_hits c = c.cache_hits
count cache_misses c = c.cache_misses
count lfs_pointer_files c = c.lfs_pointer_files

-- The sum of a counter over the registry.
abbrev pub total : Counter → List (CounterKey × MountCounters) → ℕ
total i [] = 0
total i ((key, c) ∷ counters) = count i c + total i counters

count-merge :
    (i : Counter) (a b : MountCounters)
    → count i (merge_from_snapshot (snapshot a) b) ≡ add64 (count i b) (count i a)
unfolding merge_from_snapshot snapshot
count-merge rest_calls_total a b = refl
count-merge http_transfers_total a b = refl
count-merge bytes_total a b = refl
count-merge throttle_events a b = refl
count-merge prefetch_hits a b = refl
count-merge prefetch_failures a b = refl
count-merge prefetch_skipped_oversized a b = refl
count-merge tarball_digest_mismatch a b = refl
count-merge tarball_invalid_entries a b = refl
count-merge truncated_tree_fallbacks a b = refl
count-merge cache_hits a b = refl
count-merge cache_misses a b = refl
count-merge lfs_pointer_files a b = refl

count-new : (i : Counter) → count i new_counters ≡ 0
count-new rest_calls_total = refl
count-new http_transfers_total = refl
count-new bytes_total = refl
count-new throttle_events = refl
count-new prefetch_hits = refl
count-new prefetch_failures = refl
count-new prefetch_skipped_oversized = refl
count-new tarball_digest_mismatch = refl
count-new tarball_invalid_entries = refl
count-new truncated_tree_fallbacks = refl
count-new cache_hits = refl
count-new cache_misses = refl
count-new lfs_pointer_files = refl

total-insert :
    (i : Counter) (key : CounterKey) (c : MountCounters)
    (counters : List (CounterKey × MountCounters))
    → total i (insert key c counters) + count i (counters_or_new (lookup key counters))
      ≡ total i counters + count i c
unfolding insert lookup
total-insert i key c [] = let n = count-new i in ground arith
total-insert i key c ((j, d) ∷ counters) = elim (CounterKey-discrete key j) [
  | yes is ↦ ground arith
  | no ne ↦ let rest = total-insert i key c counters in ground arith
]

total-remove :
    (i : Counter) (key : CounterKey) (c : MountCounters)
    (counters : List (CounterKey × MountCounters))
    → Distinct counters
    → lookup key counters ≡ some c
    → total i (remove key counters) + count i c ≡ total i counters
unfolding remove lookup
total-remove i key c [] d h = absurd (ground arith)
total-remove i key c ((j, e) ∷ counters) d h = elim (CounterKey-discrete key j) [
  | yes is ↦
      let absent : lookup key counters ≡ none =
        subst (λ k. lookup k counters ≡ none) (sym is) d.0 in
      let gone = remove_absent key counters absent in
      let same : e ≡ c = ground arith in let counts = ap (count i) same in ground arith
  | no ne ↦ let rest = total-remove i key c counters d.1 (ground arith) in ground arith
]

merged :
    (placeholder real : CounterKey) (o : Observability) (c : MountCounters)
    → lookup placeholder o.counters ≡ some c
    → (merge_and_drop_placeholder placeholder real o).counters
      ≡ insert real
          (merge_from_snapshot
            (snapshot c)
            (counters_or_new (lookup real (remove placeholder o.counters))))
          (remove placeholder o.counters)
unfolding merge_and_drop_placeholder counters_for
merged placeholder real o c h = ground arith

not_merged :
    (placeholder real : CounterKey) (o : Observability)
    → lookup placeholder o.counters ≡ none
    → merge_and_drop_placeholder placeholder real o ≡ o
unfolding merge_and_drop_placeholder
not_merged placeholder real o h = ground arith

-- Each total is the same, and the placeholder is gone.
abbrev pub IsMerged : CounterKey → Observability → Observability → Type 0
IsMerged placeholder o o' =
    (lookup placeholder o'.counters ≡ none)
    × ((i : Counter) → total i o'.counters % u64_mod ≡ total i o.counters % u64_mod)

same_total :
    (before after removed old added : ℕ)
    → removed + added ≡ before
    → after + old ≡ removed + add64 old added
    → after % u64_mod ≡ before % u64_mod
unfolding add64
same_total before after removed old added r a = omega arith

-- In a registry that has each key once, `merge_and_drop_placeholder` into another key leaves no bucket
-- of the placeholder, and leaves the total of each counter over all buckets as it was, up to
-- the wrap-around of 64 bits.
pub merge_and_drop_placeholder-IsMerged :
    (placeholder real : CounterKey) (o : Observability)
    → placeholder ≢ real
    → Distinct o.counters
    → IsMerged placeholder o (merge_and_drop_placeholder placeholder real o)
merge_and_drop_placeholder-IsMerged placeholder real o ne d =
    elim (Option-cases (lookup placeholder o.counters)) [
      | inl absent ↦
          subst (IsMerged placeholder o) (sym (not_merged placeholder real o absent))
            (absent, λ i. refl)
      | inr (c, present) ↦
          let left = remove placeholder o.counters in
          let old = counters_or_new (lookup real left) in
          let new = merge_from_snapshot (snapshot c) old in
          let is = merged placeholder real o c present in
          let gone : lookup placeholder (insert real new left) ≡ none = ground (
            arith,
            lookup-insert real placeholder new left,
            lookup-remove placeholder placeholder o.counters,
          ) in
          (
            ap (lookup placeholder) is ∙ gone,
            λ i.
                ap (λ x. total i x % u64_mod) is
                ∙ same_total (total i o.counters) (total i (insert real new left)) (total i left)
                    (count i old) (count i c) (total-remove i placeholder c o.counters d present)
                    (total-insert i real new left
                      ∙ ap (λ x. total i left + x) (count-merge i c old)),
          )
    ]
