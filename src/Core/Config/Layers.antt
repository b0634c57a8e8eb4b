-- ===== src/Core/Config/Layers.antt =====
-- What is loaded: for each field the environment first, then the file, then the default.
use ctxfs.Common.{◌/◌, ◌≡◌, min, Option, none, some, Text, text, arith}
use ctxfs.Core.Config.{
  ConfigFile, Config, prefetch_cap, default_prefetch_max_bytes, default_config, nonempty,
  nonempty_or, backend_of, number_of, recompute_derived_defaults, apply_file, apply_prefetch_env,
  env_fields, apply_env, with_file, file_of, load_config,
}
use ctxfs.Core.Backend.{Backend}

-- The first value that is there, of the environment and of the file, or else the default.
abbrev pub first_of {ℓ} : {A : Type ℓ} → Option A → Option A → A → A
first_of (some v) in_file default = v
first_of none (some v) default = v
first_of none none default = default

-- What a file says of one field; nothing if there is no file.
abbrev pub in_file {ℓ} : {A : Type ℓ} → (ConfigFile → Option A) → Option ConfigFile → Option A
in_file field none = none
in_file field (some file) = field file

-- A secret: a variable that is set to nothing says that there is none.
abbrev pub secret : Option Text → Option Text → Option Text
secret none from_file = from_file
secret (some v) from_file = nonempty (some v)

-- The backend of the name that comes first; none if that is not the name of a backend.
abbrev pub named : Option Text → Option Text → Option Backend
named (some v) from_file = backend_of v
named none (some v) = backend_of v
named none none = none

-- The configuration `c` is made of the variables, the file and the defaults `d`.
pub record IsLayered (env : Text → Option Text) (file : Option ConfigFile) (d c : Config)
    : Type 0 where
  pub socket_path :
      c.socket_path
      ≡ first_of (env (text "CTXFS_SOCKET")) (in_file (λ f. f.socket_path) file) d.socket_path
  pub pid_file :
      c.pid_file
      ≡ first_of (env (text "CTXFS_PID_FILE")) (in_file (λ f. f.pid_file) file) d.pid_file
  pub cache_dir :
      c.cache_dir
      ≡ first_of (env (text "CTXFS_CACHE_DIR")) (in_file (λ f. f.cache_dir) file) d.cache_dir
  pub log_level :
      c.log_level
      ≡ first_of (env (text "CTXFS_LOG_LEVEL")) (in_file (λ f. f.log_level) file) d.log_level
  pub cache_max_bytes :
      c.cache_max_bytes
      ≡ first_of
          (number_of (env (text "CTXFS_CACHE_MAX_BYTES")))
          (in_file (λ f. f.cache_max_bytes) file)
          d.cache_max_bytes
  pub latest_ttl_secs :
      c.latest_ttl_secs
      ≡ first_of
          (number_of (env (text "CTXFS_LATEST_TTL_SECS")))
          (in_file (λ f. f.latest_ttl_secs) file)
          d.latest_ttl_secs
  pub tree_cache_max_bytes :
      c.tree_cache_max_bytes
      ≡ first_of
          (number_of (env (text "CTXFS_TREE_CACHE_MAX_BYTES")))
          (in_file (λ f. f.tree_cache_max_bytes) file)
          d.tree_cache_max_bytes
  pub prefetch_threshold_count :
      c.prefetch_threshold_count
      ≡ first_of
          (number_of (env (text "CTXFS_PREFETCH_THRESHOLD_COUNT")))
          (in_file (λ f. f.prefetch_threshold_count) file)
          d.prefetch_threshold_count
  pub prefetch_max_bytes :
      c.prefetch_max_bytes
      ≡ first_of
          (number_of (env (text "CTXFS_PREFETCH_MAX_BYTES")))
          (in_file (λ f. f.prefetch_max_bytes) file)
          (min (c.cache_max_bytes / 4) prefetch_cap)
  pub github_host :
      c.github_host
      ≡ first_of
          (nonempty (env (text "CTXFS_GITHUB_HOST")))
          (in_file (λ f. nonempty f.github_host) file)
          d.github_host
  pub fskit_bundle_id :
      c.fskit_bundle_id
      ≡ nonempty_or
          (env (text "CTXFS_FSKIT_BUNDLE_ID"))
          (nonempty_or (in_file (λ f. f.fskit_bundle_id) file) d.fskit_bundle_id)
  pub github_token :
      c.github_token
      ≡ secret (env (text "GITHUB_TOKEN")) (in_file (λ f. nonempty f.github_token) file)
  pub redis_url :
      c.redis_url ≡ secret (env (text "CTXFS_REDIS_URL")) (in_file (λ f. nonempty f.redis_url) file)
  pub default_backend :
      c.default_backend
      ≡ named (nonempty (env (text "CTXFS_BACKEND"))) (in_file (λ f. f.backend) file)

recompute-IsLayered :
    (env : Text → Option Text) (home_dir : Option Text) (file : Option ConfigFile)
    → let (c, explicit) = apply_env env (with_file home_dir file) in
      IsLayered env file (default_config home_dir) (recompute_derived_defaults c explicit)
unfolding with_file recompute_derived_defaults apply_env apply_prefetch_env env_fields apply_file
    default_config default_prefetch_max_bytes
recompute-IsLayered env home_dir file = record {
  socket_path = ground arith;
  pid_file = ground arith;
  cache_dir = ground arith;
  log_level = ground arith;
  cache_max_bytes = ground arith;
  latest_ttl_secs = ground arith;
  tree_cache_max_bytes = ground arith;
  prefetch_threshold_count = ground arith;
  prefetch_max_bytes = ground arith;
  github_host = ground arith;
  fskit_bundle_id = ground arith;
  github_token = ground arith;
  redis_url = ground arith;
  default_backend = ground arith;
}

-- The loaded configuration takes each field from the environment where the variable is set and
-- meaningful, else from the file where the file can be read and has it, else from the default. An
-- empty token or Redis address in the environment clears that of the file, and a name that is
-- not a backend's leaves no default backend. The bytes that may be prefetched are, where neither
-- says them, the smaller of 256 MB and a quarter of the cache limit that is loaded.
pub load_config-IsLayered :
    (read_to_string : Text → Option Text) (toml : Text → Option ConfigFile)
    (env : Text → Option Text) (home_dir : Option Text)
    → IsLayered env
        (file_of read_to_string toml home_dir)
        (default_config home_dir)
        (load_config read_to_string toml env home_dir)
unfolding load_config
load_config-IsLayered read_to_string toml env home_dir =
    recompute-IsLayered env home_dir (file_of read_to_string toml home_dir)
