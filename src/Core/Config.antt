-- ===== src/Core/Config.antt =====
-- crates/ctxfs-core/src/config.rs: the configuration, from defaults, a file and the environment.
-- The environment and the files are functions, and TOML is the crate `toml`'s: parameters.
pub mod Layers
use ctxfs.Common.{
  ℕ, ◌/◌, min, Bool, true, false, Option, none, some, Result, ok, err, [], ◌∷◌, ◌++◌, Text, text,
  ◌==◌, if◌then◌else◌,
}
use ctxfs.Common.Number.{parse_u64}
use ctxfs.Core.Backend.{Backend, parse_backend}

pub record ConfigFile : Type 0 where
  pub github_token : Option Text
  pub socket_path : Option Text
  pub pid_file : Option Text
  pub cache_dir : Option Text
  pub cache_max_bytes : Option ℕ
  pub log_level : Option Text
  pub redis_url : Option Text
  pub latest_ttl_secs : Option ℕ
  pub tree_cache_max_bytes : Option ℕ
  pub backend : Option Text
  pub fskit_bundle_id : Option Text
  pub prefetch_threshold_count : Option ℕ
  pub prefetch_max_bytes : Option ℕ
  pub github_host : Option Text

-- `PrefetchExplicit`: whether `prefetch_max_bytes` was set.
abbrev pub PrefetchExplicit : Type 0
PrefetchExplicit = Bool

pub record Config : Type 0 where
  pub socket_path : Text
  pub pid_file : Text
  pub cache_dir : Text
  pub cache_max_bytes : ℕ
  pub log_level : Text
  pub github_token : Option Text
  pub redis_url : Option Text
  pub latest_ttl_secs : ℕ
  pub tree_cache_max_bytes : ℕ
  pub default_backend : Option Backend
  pub fskit_bundle_id : Option Text
  pub prefetch_threshold_count : ℕ
  pub prefetch_max_bytes : ℕ
  pub github_host : Text

-- `Path::join` of a relative name: a separator, unless there is one or the path is empty.
unfoldable pub join_path : Text → Text → Text
join_path [] name = name
join_path (c ∷ []) name = if c == b'/' then c ∷ name else c ∷ b'/' ∷ name
join_path (c ∷ d ∷ base) name = c ∷ join_path (d ∷ base) name

-- 256 MB
abbrev pub prefetch_cap : ℕ
prefetch_cap = 268435456

unfoldable pub default_prefetch_max_bytes : ℕ → ℕ
default_prefetch_max_bytes cache_max_bytes = min (cache_max_bytes / 4) prefetch_cap

abbrev pub home_or_tmp : Option Text → Text
home_or_tmp none = text "/tmp"
home_or_tmp (some home) = home

unfoldable pub default_config : Option Text → Config
default_config home_dir =
    let base = join_path (home_or_tmp home_dir) (text ".ctxfs") in
    record {
      socket_path = join_path base (text "ctxfs.sock");
      pid_file = join_path base (text "ctxfs.pid");
      cache_dir = join_path base (text "cache");
      cache_max_bytes = 536870912;
      log_level = text "info";
      github_token = none;
      redis_url = none;
      latest_ttl_secs = 3600;
      tree_cache_max_bytes = 524288000;
      default_backend = none;
      fskit_bundle_id = some (text "ai.ctxfs.companion.fskitext");
      prefetch_threshold_count = 30;
      prefetch_max_bytes = default_prefetch_max_bytes 536870912;
      github_host = text "api.github.com";
    }

-- `if let Some(v) = …`: a value takes the place of what was set.
abbrev pub set_if {ℓ} : {A : Type ℓ} → Option A → A → A
set_if none old = old
set_if (some v) old = v

-- A text that is there and not empty.
abbrev pub nonempty : Option Text → Option Text
nonempty none = none
nonempty (some []) = none
nonempty (some (c ∷ cs)) = some (c ∷ cs)

abbrev pub nonempty_or : Option Text → Option Text → Option Text
nonempty_or v old = elim (nonempty v) [ none ↦ old | some t ↦ some t ]

-- `v.parse().ok()`
abbrev pub backend_of : Text → Option Backend
backend_of v = elim (parse_backend v) [ ok b ↦ some b | err e ↦ none ]

-- A backend that is named replaces the old one, also by none if it is not known.
abbrev pub set_backend : Option Text → Option Backend → Option Backend
set_backend none old = old
set_backend (some v) old = backend_of v

-- `v.parse()` of a variable.
abbrev pub number_of : Option Text → Option ℕ
number_of none = none
number_of (some v) = parse_u64 v

-- A variable that is set to nothing clears the value.
abbrev pub set_or_clear : Option Text → Option Text → Option Text
set_or_clear none old = old
set_or_clear (some []) old = none
set_or_clear (some (c ∷ cs)) old = some (c ∷ cs)

abbrev pub is_set {ℓ} : {A : Type ℓ} → Option A → Bool → Bool
is_set none explicit = explicit
is_set (some v) explicit = true

unfoldable pub recompute_derived_defaults : Config → PrefetchExplicit → Config
recompute_derived_defaults config explicit =
    if explicit
    then config
    else record config { prefetch_max_bytes = default_prefetch_max_bytes config.cache_max_bytes }

unfoldable pub apply_file : ConfigFile → Config × PrefetchExplicit → Config × PrefetchExplicit
apply_file file (config, explicit) = (
  record {
    socket_path = set_if file.socket_path config.socket_path;
    pid_file = set_if file.pid_file config.pid_file;
    cache_dir = set_if file.cache_dir config.cache_dir;
    cache_max_bytes = set_if file.cache_max_bytes config.cache_max_bytes;
    log_level = set_if file.log_level config.log_level;
    github_token = nonempty_or file.github_token config.github_token;
    redis_url = nonempty_or file.redis_url config.redis_url;
    latest_ttl_secs = set_if file.latest_ttl_secs config.latest_ttl_secs;
    tree_cache_max_bytes = set_if file.tree_cache_max_bytes config.tree_cache_max_bytes;
    default_backend = set_backend file.backend config.default_backend;
    fskit_bundle_id = nonempty_or file.fskit_bundle_id config.fskit_bundle_id;
    prefetch_threshold_count = set_if file.prefetch_threshold_count config.prefetch_threshold_count;
    prefetch_max_bytes = set_if file.prefetch_max_bytes config.prefetch_max_bytes;
    github_host = set_if (nonempty file.github_host) config.github_host;
  },
  is_set file.prefetch_max_bytes explicit,
)

-- The file, if there is one, on top of the defaults.
unfoldable pub with_file : Option Text → Option ConfigFile → Config × PrefetchExplicit
with_file home_dir none = (default_config home_dir, false)
with_file home_dir (some file) = apply_file file (default_config home_dir, false)

module _ (env : Text → Option Text) where
  unfoldable pub apply_prefetch_env : Config × PrefetchExplicit → Config × PrefetchExplicit
  apply_prefetch_env (config, explicit) =
      let max_bytes = number_of (env (text "CTXFS_PREFETCH_MAX_BYTES")) in
      let count = number_of (env (text "CTXFS_PREFETCH_THRESHOLD_COUNT")) in
      (
        record config {
          prefetch_threshold_count = set_if count config.prefetch_threshold_count;
          prefetch_max_bytes = set_if max_bytes config.prefetch_max_bytes;
          github_host = set_if (nonempty (env (text "CTXFS_GITHUB_HOST"))) config.github_host;
        },
        is_set max_bytes explicit,
      )

  unfoldable pub env_fields : Config → Config
  env_fields config = record config {
    socket_path = set_if (env (text "CTXFS_SOCKET")) config.socket_path;
    pid_file = set_if (env (text "CTXFS_PID_FILE")) config.pid_file;
    cache_dir = set_if (env (text "CTXFS_CACHE_DIR")) config.cache_dir;
    cache_max_bytes =
        set_if (number_of (env (text "CTXFS_CACHE_MAX_BYTES"))) config.cache_max_bytes;
    log_level = set_if (env (text "CTXFS_LOG_LEVEL")) config.log_level;
    github_token = set_or_clear (env (text "GITHUB_TOKEN")) config.github_token;
    redis_url = set_or_clear (env (text "CTXFS_REDIS_URL")) config.redis_url;
    latest_ttl_secs =
        set_if (number_of (env (text "CTXFS_LATEST_TTL_SECS"))) config.latest_ttl_secs;
    tree_cache_max_bytes =
        set_if (number_of (env (text "CTXFS_TREE_CACHE_MAX_BYTES"))) config.tree_cache_max_bytes;
    default_backend = set_backend (nonempty (env (text "CTXFS_BACKEND"))) config.default_backend;
    fskit_bundle_id = nonempty_or (env (text "CTXFS_FSKIT_BUNDLE_ID")) config.fskit_bundle_id;
  }

  unfoldable pub apply_env : Config × PrefetchExplicit → Config × PrefetchExplicit
  apply_env (config, explicit) = apply_prefetch_env (env_fields config, explicit)

  unfoldable pub from_env : Option Text → Config
  from_env home_dir =
      let (config, explicit) = apply_env (default_config home_dir, false) in
      recompute_derived_defaults config explicit

-- What a file is read as, if it can be read, and what TOML it is, if it is any.
module _ (read_to_string : Text → Option Text) (toml : Text → Option ConfigFile) where
  unfoldable pub file_of : Option Text → Option ConfigFile
  file_of none = none
  file_of (some home) =
      elim (read_to_string (join_path (join_path home (text ".ctxfs")) (text "config.toml"))) [
        | none ↦ none
        | some contents ↦ toml contents
      ]

  unfoldable pub from_toml_str : Option Text → Text → Option Config
  from_toml_str home_dir s = elim (toml s) [
    | none ↦ none
    | some file ↦
        let (config, explicit) = apply_file file (default_config home_dir, false) in
        some (recompute_derived_defaults config explicit)
  ]

  unfoldable pub load_config : (Text → Option Text) → Option Text → Config
  load_config env home_dir =
      let (config, explicit) = apply_env env (with_file home_dir (file_of home_dir)) in
      recompute_derived_defaults config explicit
