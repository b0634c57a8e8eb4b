-- ===== src/Tests/Settings.antt =====
-- The configuration: the theorems at inputs that meet their hypotheses.
use ctxfs.Common.{ℕ, ◌≡◌, refl, Option, none, some, Text, text, Text-discrete, if◌then◌else◌, holds}
use ctxfs.Common.Number.{is_digit, parse_digits, unsigned, parse_nonempty, parse_u64}
use ctxfs.Core.Backend.{parse_backend}
use ctxfs.Core.Config.{
  ConfigFile, join_path, default_prefetch_max_bytes, default_config, recompute_derived_defaults,
  apply_file, apply_prefetch_env, env_fields, apply_env, with_file, file_of, load_config,
}
use ctxfs.Core.Config.Layers.{IsLayered, load_config-IsLayered}

abbrev file : ConfigFile
file = record {
  github_token = some (text "t");
  socket_path = none;
  pid_file = none;
  cache_dir = none;
  cache_max_bytes = some 4000;
  log_level = none;
  redis_url = none;
  latest_ttl_secs = none;
  tree_cache_max_bytes = none;
  backend = some (text "nfs");
  fskit_bundle_id = none;
  prefetch_threshold_count = some 7;
  prefetch_max_bytes = none;
  github_host = none;
}

abbrev env : Text → Option Text
env k =
    if holds (Text-discrete k (text "CTXFS_CACHE_MAX_BYTES"))
    then some (text "1000")
    else if holds (Text-discrete k (text "GITHUB_TOKEN"))
    then some (text "")
    else none

abbrev read : Text → Option Text
read path =
    if holds (Text-discrete path (text "/h/.ctxfs/config.toml")) then some (text "x") else none

abbrev home : Option Text
home = some (text "/h")

abbrev toml : Text → Option ConfigFile
toml s = some file

loaded :
    let c = load_config read toml env home in
    ◌≡◌ {A = ℕ × ℕ × Option Text × ℕ}
      (c.cache_max_bytes, c.prefetch_max_bytes, c.github_token, c.prefetch_threshold_count)
      (1000, 250, none, 7)
unfolding is_digit parse_digits unsigned parse_nonempty parse_u64 parse_backend join_path
    default_prefetch_max_bytes default_config recompute_derived_defaults apply_file
    apply_prefetch_env env_fields apply_env with_file file_of load_config Text-discrete
loaded = refl

load_config-IsLayered_example :
    IsLayered env (file_of read toml home) (default_config home) (load_config read toml env home)
load_config-IsLayered_example = load_config-IsLayered read toml env home
