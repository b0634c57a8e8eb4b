-- ===== src/Provider/RepoUrl.antt =====
-- crates/ctxfs-provider-common/src/repo_url.rs: `parse_github_url`, from the trimmed URL on. `trim` also
-- takes off Unicode white space, and is a parameter.
use ctxfs.Common.{
  ◌≡◌, ◌≢◌, sym, subst, Option, none, some, Option-cases, inl, inr, List, [], ◌∷◌, Text, text,
  Text-discrete, strip_prefix, arith, if◌then◌else◌, holds,
}
use ctxfs.Core.Source.{split_once}
use ctxfs.Core.Source.Cut.{Lacks, split_once-some, split_once-none}

-- `str::strip_suffix`, or the text itself: `unwrap_or`.
unfoldable pub without_suffix : Text → Text → Text
without_suffix suffix [] = []
without_suffix suffix (c ∷ cs) =
    let rest = without_suffix suffix cs in
    if holds (Text-discrete (c ∷ cs) suffix) then [] else c ∷ rest

-- The first of the parts at `/`.
unfoldable pub first_part : Text → Text
first_part path = elim (split_once b'/' path) [ none ↦ path | some (part, rest) ↦ part ]

unfoldable pub nonempty_pair : Text → Text → Option (Text × Text)
nonempty_pair [] repo = none
nonempty_pair (c ∷ owner) [] = none
nonempty_pair (c ∷ owner) (d ∷ repo) = some (c ∷ owner, d ∷ repo)

unfoldable pub parse_owner_repo_from_path : Text → Option (Text × Text)
parse_owner_repo_from_path path = elim (split_once b'/' path) [
  | none ↦ none
  | some (owner, rest) ↦ nonempty_pair owner (first_part rest)
]

abbrev pub prefixes : List Text
prefixes =
    text "https://github.com/"
    ∷ text "http://github.com/"
    ∷ text "ssh://git@github.com/"
    ∷ text "git://github.com/"
    ∷ []

-- The loop over the prefixes.
unfoldable pub parse_with : List Text → Text → Option (Text × Text)
parse_with [] normalized = none
parse_with (prefix ∷ more) normalized =
    let others = parse_with more normalized in
    elim (strip_prefix prefix normalized) [
      | some rest ↦ parse_owner_repo_from_path (without_suffix (text ".git") rest)
      | none ↦ others
    ]

unfoldable pub without_git : Text → Text
without_git url = elim (strip_prefix (text "git+") url) [ none ↦ url | some rest ↦ rest ]

unfoldable pub parse_normalized : Text → Option (Text × Text)
parse_normalized normalized = elim (strip_prefix (text "ssh://git@github.com:") normalized) [
  | some after ↦ parse_owner_repo_from_path (without_suffix (text ".git") after)
  | none ↦ parse_with prefixes normalized
]

unfoldable pub parse_trimmed : Text → Option (Text × Text)
parse_trimmed [] = none
parse_trimmed (c ∷ url) = elim (strip_prefix (text "github:") (c ∷ url)) [
  | some rest ↦ parse_owner_repo_from_path rest
  | none ↦ parse_normalized (without_git (c ∷ url))
]

unfoldable pub parse_github_url : (trim : Text → Text) → Text → Option (Text × Text)
parse_github_url trim url = parse_trimmed (trim url)

-- A part of a path: not empty, and without `/`.
abbrev pub IsPart : Text → Type 0
IsPart s = (s ≢ []) × Lacks b'/' s

abbrev pub ArePart : Option (Text × Text) → Type 0
ArePart none = Unit
ArePart (some (owner, repo)) = IsPart owner × IsPart repo

first_part-Lacks : (path : Text) → Lacks b'/' (first_part path)
unfolding first_part
first_part-Lacks path = elim (Option-cases (split_once b'/' path)) [
  | inl absent ↦
      let is : first_part path ≡ path = ground arith in
      subst (Lacks b'/') (sym is) (split_once-none b'/' path absent)
  | inr ((part, rest), cut) ↦
      let is : first_part path ≡ part = ground arith in
      subst (Lacks b'/') (sym is) (split_once-some b'/' path part rest cut).1
]

nonempty_pair-ArePart :
    (owner repo : Text) → Lacks b'/' owner → Lacks b'/' repo → ArePart (nonempty_pair owner repo)
unfolding nonempty_pair
nonempty_pair-ArePart [] repo o r = tt
nonempty_pair-ArePart (c ∷ owner) [] o r = tt
nonempty_pair-ArePart (c ∷ owner) (d ∷ repo) o r = ((ground arith, o), (ground arith, r))

path-ArePart : (path : Text) → ArePart (parse_owner_repo_from_path path)
unfolding parse_owner_repo_from_path
path-ArePart path = elim (Option-cases (split_once b'/' path)) [
  | inl absent ↦
      let is : parse_owner_repo_from_path path ≡ none = ground arith in subst ArePart (sym is) tt
  | inr ((owner, rest), cut) ↦
      let is : parse_owner_repo_from_path path ≡ nonempty_pair owner (first_part rest) =
        ground arith in
      subst ArePart (sym is) (
        nonempty_pair-ArePart owner (first_part rest) (split_once-some b'/' path owner rest cut).1
          (first_part-Lacks rest))
]

with-ArePart : (l : List Text) (normalized : Text) → ArePart (parse_with l normalized)
unfolding parse_with
with-ArePart [] normalized = tt
with-ArePart (prefix ∷ more) normalized = elim (Option-cases (strip_prefix prefix normalized)) [
  | inl absent ↦
      let is : parse_with (prefix ∷ more) normalized ≡ parse_with more normalized = ground arith in
      subst ArePart (sym is) (with-ArePart more normalized)
  | inr (rest, cut) ↦
      let is : parse_with (prefix ∷ more) normalized
          ≡ parse_owner_repo_from_path (without_suffix (text ".git") rest) =
        ground arith in
      subst ArePart (sym is) (path-ArePart (without_suffix (text ".git") rest))
]

normalized-ArePart : (normalized : Text) → ArePart (parse_normalized normalized)
unfolding parse_normalized
normalized-ArePart normalized =
    elim (Option-cases (strip_prefix (text "ssh://git@github.com:") normalized)) [
      | inl absent ↦
          let is : parse_normalized normalized ≡ parse_with prefixes normalized = ground arith in
          subst ArePart (sym is) (with-ArePart prefixes normalized)
      | inr (after, cut) ↦
          let is : parse_normalized normalized
              ≡ parse_owner_repo_from_path (without_suffix (text ".git") after) =
            ground arith in
          subst ArePart (sym is) (path-ArePart (without_suffix (text ".git") after))
    ]

trimmed-ArePart : (url : Text) → ArePart (parse_trimmed url)
unfolding parse_trimmed
trimmed-ArePart [] = tt
trimmed-ArePart (c ∷ url) = elim (Option-cases (strip_prefix (text "github:") (c ∷ url))) [
  | inl absent ↦
      let is : parse_trimmed (c ∷ url) ≡ parse_normalized (without_git (c ∷ url)) = ground arith in
      subst ArePart (sym is) (normalized-ArePart (without_git (c ∷ url)))
  | inr (rest, cut) ↦
      let is : parse_trimmed (c ∷ url) ≡ parse_owner_repo_from_path rest = ground arith in
      subst ArePart (sym is) (path-ArePart rest)
]

-- The owner and the repository that `parse_github_url` finds are not empty and hold no `/`.
parse_github_url-ArePart : (trim : Text → Text) (url : Text) → ArePart (parse_github_url trim url)
unfolding parse_github_url
parse_github_url-ArePart trim url = trimmed-ArePart (trim url)
