-- ===== src/Core/Source.antt =====
-- crates/ctxfs-core/src/source.rs: source names such as `github:owner/repo@ref:subpath`.
pub mod Cut
pub mod RoundTrip
pub mod Parsed
use ctxfs.Common.{
  ℕ, Option, none, some, Result, ok, err, List, [], ◌∷◌, ◌++◌, Text, text, Text-discrete, ◌==◌,
  if◌then◌else◌, holds,
}
use ctxfs.Core.Error.{CtxfsError, invalid_source}

pub data ProviderType : Type 0 where
  github npm pypi crate : ProviderType

-- `Display for ProviderType`
unfoldable pub provider_name : ProviderType → Text
provider_name github = text "github"
provider_name npm = text "npm"
provider_name pypi = text "pypi"
provider_name crate = text "crate"

unfoldable pub unsupported : Text → CtxfsError
unsupported other = invalid_source (
    text "unsupported provider '"
    ++ (other ++ text "', expected 'github', 'npm', 'pypi', or 'crate'"))

-- `FromStr for ProviderType`
unfoldable pub provider_of : Text → Result ProviderType CtxfsError
provider_of s =
    if holds (Text-discrete s (text "github"))
    then ok github
    else if holds (Text-discrete s (text "npm"))
    then ok npm
    else if holds (Text-discrete s (text "pypi"))
    then ok pypi
    else if holds (Text-discrete s (text "crate"))
    then ok crate
    else err (unsupported s)

pub record SourceSpec : Type 0 where
  pub provider_type : ProviderType
  pub name : Text
  pub version : Text
  pub subpath : Option Text

-- `str::split_once` at a character.
unfoldable pub split_once : ℕ → Text → Option (Text × Text)
split_once b [] = none
split_once b (c ∷ cs) =
    let rest = split_once b cs in
    if c == b
    then some ([], cs)
    else elim rest [ none ↦ none | some (before, after) ↦ some (c ∷ before, after) ]

-- The parts before and after the position that `str::rfind` finds.
unfoldable pub rsplit_once : ℕ → Text → Option (Text × Text)
rsplit_once b [] = none
rsplit_once b (c ∷ cs) = elim (rsplit_once b cs) [
  | some (before, after) ↦ some (c ∷ before, after)
  | none ↦ if c == b then some ([], cs) else none
]

-- A part with its optional subpath after a `:`; an empty subpath is none.
unfoldable pub split_subpath : Text → Text × Option Text
split_subpath s = elim (split_once b':' s) [
  | none ↦ (s, none)
  | some (part, []) ↦ (part, none)
  | some (part, c ∷ cs) ↦ (part, some (c ∷ cs))
]

unfoldable pub invalid : Text → Text → CtxfsError
invalid what original = invalid_source (what ++ (text " in '" ++ (original ++ text "'")))

-- The last test of `parse_github`.
unfoldable pub github_spec : Text → Text → Text → Option Text → Text → Result SourceSpec CtxfsError
github_spec [] repo git_ref subpath original =
    err (invalid (text "empty owner, repo, or ref") original)
github_spec (o ∷ os) [] git_ref subpath original =
    err (invalid (text "empty owner, repo, or ref") original)
github_spec (o ∷ os) (r ∷ rs) [] subpath original =
    err (invalid (text "empty owner, repo, or ref") original)
github_spec (o ∷ os) (r ∷ rs) (g ∷ gs) subpath original = ok (record {
  provider_type = github;
  name = (o ∷ os) ++ (b'/' ∷ r ∷ rs);
  version = g ∷ gs;
  subpath = subpath;
})

unfoldable pub parse_github : Text → Text → Result SourceSpec CtxfsError
parse_github rest original =
    let (repo_ref, subpath) = split_subpath rest in
    elim (split_once b'@' repo_ref) [
      | none ↦ err (invalid (text "missing @ref") original)
      | some (owner_repo, git_ref) ↦ elim (split_once b'/' owner_repo) [
        | none ↦ err (invalid (text "missing owner/repo") original)
        | some (owner, repo) ↦ github_spec owner repo git_ref subpath original
      ]
    ]

-- The last test of `parse_registry`.
unfoldable pub registry_spec :
    ProviderType → Text → Text → Option Text → Text → Result SourceSpec CtxfsError
registry_spec provider_type name [] subpath original = err (invalid (text "empty version") original)
registry_spec provider_type name (v ∷ vs) subpath original =
    ok (record { provider_type = provider_type; name = name; version = v ∷ vs; subpath = subpath })

unfoldable pub parse_registry : ProviderType → Text → Text → Result SourceSpec CtxfsError
parse_registry provider_type rest original = elim (rsplit_once b'@' rest) [
  | none ↦ err (invalid (text "missing @version") original)
  | some ([], version_and_subpath) ↦ err (invalid (text "empty package name") original)
  | some (c ∷ name, version_and_subpath) ↦
      let (version, subpath) = split_subpath version_and_subpath in
      registry_spec provider_type (c ∷ name) version subpath original
]

-- The `match` on the provider.
unfoldable pub parse_as : ProviderType → Text → Text → Result SourceSpec CtxfsError
parse_as github rest original = parse_github rest original
parse_as npm rest original = parse_registry npm rest original
parse_as pypi rest original = parse_registry pypi rest original
parse_as crate rest original = parse_registry crate rest original

-- `SourceSpec::parse`
unfoldable pub parse : Text → Result SourceSpec CtxfsError
parse s = elim (split_once b':' s) [
  | none ↦ err (invalid (text "missing provider prefix") s)
  | some (provider_str, rest) ↦ elim (provider_of provider_str) [
    | err e ↦ err e
    | ok provider_type ↦ parse_as provider_type rest s
  ]
]

-- `str::replace` of a character.
unfoldable pub replace : ℕ → Text → Text → Text
replace b with [] = []
replace b with (c ∷ cs) = let rest = replace b with cs in if c == b then with ++ rest else c ∷ rest

-- `SourceSpec::id`
unfoldable pub id_of : SourceSpec → Text
id_of spec =
    provider_name spec.provider_type
    ++ (text "_"
        ++ (replace b'/' (text "_") (replace b'@' (text "_at_") spec.name)
            ++ (text "_" ++ spec.version)))

unfoldable pub subpath_suffix : Option Text → Text
subpath_suffix none = []
subpath_suffix (some sp) = b':' ∷ sp

-- `Display for SourceSpec`
unfoldable pub display_spec : SourceSpec → Text
display_spec spec =
    provider_name spec.provider_type
    ++ (b':' ∷ (spec.name ++ (b'@' ∷ (spec.version ++ subpath_suffix spec.subpath))))
