-- ===== src/Provider/Counters.antt =====
-- crates/ctxfs-provider-common/src/counters.rs: the usage counters of a mount, 64-bit atomics that wrap.
use ctxfs.Common.{
  ℕ, Bool, true, false, List, [], ◌∷◌, ◌++◌, Text, Text-discrete, leb, if◌then◌else◌, holds, length,
}
use ctxfs.Common.Assoc.{Key}
use ctxfs.Common.Word.{add64}

pub record CounterKey : Type 0 where
  pub source : Text
  pub repo : Text
  pub commit : Text
  pub mount_id : Text

unfoldable pub CounterKey-discrete : Discrete CounterKey
unfolding Text-discrete
CounterKey-discrete = hlevel Text-discrete

instance abbrev pub counter_key : Key CounterKey
counter_key = record { eq? = CounterKey-discrete }

-- `LfsSampleBuffer`, and its `CAP`.
abbrev pub LfsSampleBuffer : Type 0
LfsSampleBuffer = List Text

abbrev pub sample_cap : ℕ
sample_cap = 3

unfoldable pub has_sample : Text → LfsSampleBuffer → Bool
has_sample path [] = false
has_sample path (p ∷ samples) =
    let rest = has_sample path samples in if holds (Text-discrete p path) then true else rest

unfoldable pub push_sample : Text → LfsSampleBuffer → LfsSampleBuffer
push_sample path samples =
    if leb sample_cap (length samples)
    then samples
    else if has_sample path samples
    then samples
    else samples ++ (path ∷ [])

unfoldable pub push_samples : List Text → LfsSampleBuffer → LfsSampleBuffer
push_samples [] samples = samples
push_samples (path ∷ paths) samples = push_samples paths (push_sample path samples)

pub record MountCounters : Type 0 where
  pub rest_calls_total : ℕ
  pub http_transfers_total : ℕ
  pub bytes_total : ℕ
  pub throttle_events : ℕ
  pub prefetch_hits : ℕ
  pub prefetch_failures : ℕ
  pub prefetch_skipped_oversized : ℕ
  pub tarball_digest_mismatch : ℕ
  pub tarball_invalid_entries : ℕ
  pub truncated_tree_fallbacks : ℕ
  pub cache_hits : ℕ
  pub cache_misses : ℕ
  pub lfs_pointer_files : ℕ
  pub lfs_samples : LfsSampleBuffer

-- The copy that is serialized.
pub record CounterSnapshot : Type 0 where
  pub rest_calls_total : ℕ
  pub http_transfers_total : ℕ
  pub bytes_total : ℕ
  pub throttle_events : ℕ
  pub prefetch_hits : ℕ
  pub prefetch_failures : ℕ
  pub prefetch_skipped_oversized : ℕ
  pub tarball_digest_mismatch : ℕ
  pub tarball_invalid_entries : ℕ
  pub truncated_tree_fallbacks : ℕ
  pub cache_hits : ℕ
  pub cache_misses : ℕ
  pub lfs_pointer_files : ℕ
  pub lfs_pointer_sample_paths : List Text

abbrev pub new_counters : MountCounters
new_counters = record {
  rest_calls_total = 0;
  http_transfers_total = 0;
  bytes_total = 0;
  throttle_events = 0;
  prefetch_hits = 0;
  prefetch_failures = 0;
  prefetch_skipped_oversized = 0;
  tarball_digest_mismatch = 0;
  tarball_invalid_entries = 0;
  truncated_tree_fallbacks = 0;
  cache_hits = 0;
  cache_misses = 0;
  lfs_pointer_files = 0;
  lfs_samples = [];
}

unfoldable pub record_rest_call : MountCounters → MountCounters
record_rest_call c = record c { rest_calls_total = add64 c.rest_calls_total 1 }

unfoldable pub record_http_transfer : MountCounters → MountCounters
record_http_transfer c = record c { http_transfers_total = add64 c.http_transfers_total 1 }

unfoldable pub record_bytes_transferred : ℕ → MountCounters → MountCounters
record_bytes_transferred delta c = record c { bytes_total = add64 c.bytes_total delta }

unfoldable pub record_prefetch_hits : ℕ → MountCounters → MountCounters
record_prefetch_hits delta c = record c { prefetch_hits = add64 c.prefetch_hits delta }

unfoldable pub record_throttle_event : MountCounters → MountCounters
record_throttle_event c = record c { throttle_events = add64 c.throttle_events 1 }

unfoldable pub record_prefetch_hit : MountCounters → MountCounters
record_prefetch_hit c = record c { prefetch_hits = add64 c.prefetch_hits 1 }

unfoldable pub record_prefetch_failure : MountCounters → MountCounters
record_prefetch_failure c = record c { prefetch_failures = add64 c.prefetch_failures 1 }

unfoldable pub record_prefetch_skipped_oversized : MountCounters → MountCounters
record_prefetch_skipped_oversized c = record c {
  prefetch_skipped_oversized = add64 c.prefetch_skipped_oversized 1;
}

unfoldable pub record_tarball_digest_mismatch : MountCounters → MountCounters
record_tarball_digest_mismatch c = record c {
  tarball_digest_mismatch = add64 c.tarball_digest_mismatch 1;
}

unfoldable pub record_tarball_invalid_entries : MountCounters → MountCounters
record_tarball_invalid_entries c = record c {
  tarball_invalid_entries = add64 c.tarball_invalid_entries 1;
}

unfoldable pub record_truncated_tree_fallback : MountCounters → MountCounters
record_truncated_tree_fallback c = record c {
  truncated_tree_fallbacks = add64 c.truncated_tree_fallbacks 1;
}

unfoldable pub record_cache_hit : MountCounters → MountCounters
record_cache_hit c = record c { cache_hits = add64 c.cache_hits 1 }

unfoldable pub record_cache_miss : MountCounters → MountCounters
record_cache_miss c = record c { cache_misses = add64 c.cache_misses 1 }

unfoldable pub record_lfs_pointer_with_path : Text → MountCounters → MountCounters
record_lfs_pointer_with_path path c = record c {
  lfs_pointer_files = add64 c.lfs_pointer_files 1;
  lfs_samples = push_sample path c.lfs_samples;
}

unfoldable pub merge_from_snapshot : CounterSnapshot → MountCounters → MountCounters
merge_from_snapshot snap c = record {
  rest_calls_total = add64 c.rest_calls_total snap.rest_calls_total;
  http_transfers_total = add64 c.http_transfers_total snap.http_transfers_total;
  bytes_total = add64 c.bytes_total snap.bytes_total;
  throttle_events = add64 c.throttle_events snap.throttle_events;
  prefetch_hits = add64 c.prefetch_hits snap.prefetch_hits;
  prefetch_failures = add64 c.prefetch_failures snap.prefetch_failures;
  prefetch_skipped_oversized = add64 c.prefetch_skipped_oversized snap.prefetch_skipped_oversized;
  tarball_digest_mismatch = add64 c.tarball_digest_mismatch snap.tarball_digest_mismatch;
  tarball_invalid_entries = add64 c.tarball_invalid_entries snap.tarball_invalid_entries;
  truncated_tree_fallbacks = add64 c.truncated_tree_fallbacks snap.truncated_tree_fallbacks;
  cache_hits = add64 c.cache_hits snap.cache_hits;
  cache_misses = add64 c.cache_misses snap.cache_misses;
  lfs_pointer_files = add64 c.lfs_pointer_files snap.lfs_pointer_files;
  lfs_samples = push_samples snap.lfs_pointer_sample_paths c.lfs_samples;
}

unfoldable pub snapshot : MountCounters → CounterSnapshot
snapshot c = record {
  rest_calls_total = c.rest_calls_total;
  http_transfers_total = c.http_transfers_total;
  bytes_total = c.bytes_total;
  throttle_events = c.throttle_events;
  prefetch_hits = c.prefetch_hits;
  prefetch_failures = c.prefetch_failures;
  prefetch_skipped_oversized = c.prefetch_skipped_oversized;
  tarball_digest_mismatch = c.tarball_digest_mismatch;
  tarball_invalid_entries = c.tarball_invalid_entries;
  truncated_tree_fallbacks = c.truncated_tree_fallbacks;
  cache_hits = c.cache_hits;
  cache_misses = c.cache_misses;
  lfs_pointer_files = c.lfs_pointer_files;
  lfs_pointer_sample_paths = c.lfs_samples;
}
