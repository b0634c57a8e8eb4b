-- ===== src/Daemon/Resolve.antt =====
-- crates/ctxfs-daemon/src/daemon.rs: the part of `prepare_mount` that finds the repository, the
-- version and the subpath of a source.
use ctxfs.Common.{
  Bool, true, false, Option, none, some, Result, ok, err, ◌∷◌, ◌++◌, Text, text, text_key,
  Text-discrete, if◌then◌else◌, holds,
}
use ctxfs.Core.Config.{Config}
use ctxfs.Core.Error.{display}
use ctxfs.Core.Source.{ProviderType, github, npm, pypi, crate, SourceSpec, split_once}
use ctxfs.Cache.LinkedMap.{LinkedHashMap}
use ctxfs.Cache.State.{CacheEntry, RepoKey}
use ctxfs.Cache.Resolution.{ResolutionCache, get_resolution, put_resolution}
use ctxfs.Git.Prefetch.{FetchOptions}
use ctxfs.Daemon.Server.{ResolvedSource, MountOptions, Outside}

unfoldable pub is_github : ProviderType → Bool
is_github github = true
is_github npm = false
is_github pypi = false
is_github crate = false

-- `Option::or`
abbrev pub or_subpath : Option Text → Option Text → Option Text
or_subpath none other = other
or_subpath (some s) other = some s

-- The coordinates with the subpath of the request before that of the resolver.
unfoldable pub with_subpath : Option Text → ResolvedSource → ResolvedSource
with_subpath subpath r = record r { subpath = or_subpath subpath r.subpath }

unfoldable pub github_source_of : ResolvedSource → SourceSpec
github_source_of r = record {
  provider_type = github;
  name = r.owner ++ (b'/' ∷ r.repo);
  version = r.git_ref;
  subpath = r.subpath;
}

-- The coordinates of a GitHub source.
unfoldable pub github_coordinates : SourceSpec → Result ResolvedSource Text
github_coordinates source = elim (split_once b'/' source.name) [
  | none ↦ err (text "invalid github source: " ++ source.name)
  | some (o, r) ↦
      ok (record { owner = o; repo = r; git_ref = source.version; subpath = source.subpath })
]

unfoldable pub fetch_options_of : Config → MountOptions → FetchOptions
fetch_options_of config options = record {
  prefetch = options.prefetch;
  prefetch_threshold_count = config.prefetch_threshold_count;
  prefetch_max_bytes = config.prefetch_max_bytes;
}

-- The source with its version, and the coordinates; and the cache of the resolutions.
abbrev pub Resolved : Type 0
Resolved = Result (SourceSpec × ResolvedSource) Text × ResolutionCache ResolvedSource

module _ (m : LinkedHashMap Text CacheEntry) (config : Config) (o : Outside m) where
  -- A source at an exact version, by its registry; the resolution is remembered.
  unfoldable pub resolve_at : Text → Bool → SourceSpec → ResolutionCache ResolvedSource → Resolved
  resolve_at source_str is_latest source c =
      elim (o.resolve source.provider_type source.name source.version) [
        | err e ↦ (err (display e), c)
        | ok src ↦ (
          ok (source, with_subpath source.subpath src),
          (put_resolution ResolvedSource o.resolution_json o.resolution_disk o.now source_str src
              is_latest c).1,
        )
      ]

  -- A source that the cache does not know.
  unfoldable pub resolve_new : Text → SourceSpec → ResolutionCache ResolvedSource → Resolved
  resolve_new source_str source c =
      if holds (Text-discrete source.version (text "latest"))
      then elim (o.resolve_latest source.provider_type source.name) [
        | err e ↦ (err (text "failed to resolve latest: " ++ display e), c)
        | ok version ↦ resolve_at source_str true (record source { version = version }) c
      ]
      else resolve_at source_str false source c

  unfoldable pub coordinates : Text → SourceSpec → ResolutionCache ResolvedSource → Resolved
  coordinates source_str source c =
      if is_github source.provider_type
      then elim (github_coordinates source) [ err e ↦ (err e, c) | ok r ↦ (ok (source, r), c) ]
      else elim (get_resolution ResolvedSource o.now source_str c) [
        | some r ↦ (ok (source, with_subpath source.subpath r), c)
        | none ↦ resolve_new source_str source c
      ]

  unfoldable pub repo_key_of : SourceSpec → Result RepoKey Text
  repo_key_of source = elim (split_once b'/' source.name) [
    | none ↦ err (text "invalid github source name: " ++ source.name)
    | some (owner, repo) ↦ ok (record { host = config.github_host; owner = owner; repo = repo })
  ]
