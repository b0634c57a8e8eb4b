-- ===== src/Core/Source/Parsed.antt =====
-- What `SourceSpec::parse` accepts, it prints back to the same source.
use ctxfs.Common.{
  ℕ, ◌≡◌, ◌≢◌, refl, subst, sym, ◌∙◌, Option, none, some, ok, err, Result-cases, [], ◌∷◌, ◌++◌,
  Text, arith, Option-cases, inl, inr,
}
use ctxfs.Core.Error.{CtxfsError}
use ctxfs.Core.Source.{
  ProviderType, github, npm, pypi, crate, provider_of, SourceSpec, split_once, rsplit_once,
  split_subpath, github_spec, parse_github, registry_spec, parse_registry, parse_as, parse,
  display_spec,
}
use ctxfs.Core.Source.Cut.{Lacks, Lacks-append, split_once-some, split_once-none, rsplit_once-some}
use ctxfs.Core.Source.RoundTrip.{
  IsSubpath, SubpathLacks, IsPackage, IsNamed, IsSpec, parse-display_spec,
}

-- What a cut of a subpath leaves.
abbrev IsCut : Text → Text × Option Text → Type 0
IsCut x r =
    Lacks b':' r.0 × IsSubpath r.1 × ((b : ℕ) → Lacks b x → Lacks b r.0 × SubpathLacks b r.1)

IsCut-at :
    (x before after : Text) → split_once b':' x ≡ some (before, after) → IsCut x (split_subpath x)
unfolding split_subpath
IsCut-at x before [] h =
    let (is, lacks) = split_once-some b':' x before [] h in
    subst (λ r. IsCut x r) {x = (before, none)} (ground arith)
      (lacks, tt, λ b l. ((Lacks-append b before (b':' ∷ []) (subst (λ t. Lacks b t) is l)).0, tt))
IsCut-at x before (c ∷ cs) h =
    let (is, lacks) = split_once-some b':' x before (c ∷ cs) h in
    subst (λ r. IsCut x r) {x = (before, some (c ∷ cs))} (ground arith)
      (
        lacks,
        tt,
        λ b l.
            let (p, q) = Lacks-append b before (b':' ∷ c ∷ cs) (subst (λ t. Lacks b t) is l) in
            (p, q.1),
      )

uncut : (x : Text) → split_once b':' x ≡ none → IsCut x (split_subpath x)
unfolding split_subpath
uncut x h =
    subst (λ r. IsCut x r) {x = (x, none)} (ground arith)
      (split_once-none b':' x h, tt, λ b l. (l, tt))

split_subpath-IsCut : (x : Text) → IsCut x (split_subpath x)
split_subpath-IsCut x = elim (Option-cases (split_once b':' x)) [
  | inl absent ↦ uncut x absent
  | inr ((before, after), present) ↦ IsCut-at x before after present
]

-- The source that `github_spec` and `registry_spec` build.
abbrev spec_of : ProviderType → Text → Text → Option Text → SourceSpec
spec_of p name version sp = record {
  provider_type = p;
  name = name;
  version = version;
  subpath = sp;
}

github_spec-some :
    (owner repo git_ref : Text) (sp : Option Text) (original : Text) (s : SourceSpec)
    → github_spec owner repo git_ref sp original ≡ ok s
    → (owner ≢ [])
      × (repo ≢ [])
      × (git_ref ≢ [])
      × (spec_of github (owner ++ (b'/' ∷ repo)) git_ref sp ≡ s)
unfolding github_spec
github_spec-some [] repo git_ref sp original s h = absurd (ground arith)
github_spec-some (o ∷ os) [] git_ref sp original s h = absurd (ground arith)
github_spec-some (o ∷ os) (r ∷ rs) [] sp original s h = absurd (ground arith)
github_spec-some (o ∷ os) (r ∷ rs) (g ∷ gs) sp original s h =
    (λ e. ground arith, λ e. ground arith, λ e. ground arith, ground arith)

registry_spec-some :
    (p : ProviderType) (name version : Text) (sp : Option Text) (original : Text) (s : SourceSpec)
    → registry_spec p name version sp original ≡ ok s
    → (version ≢ []) × (spec_of p name version sp ≡ s)
unfolding registry_spec
registry_spec-some p name [] sp original s h = absurd (ground arith)
registry_spec-some p name (v ∷ vs) sp original s h = (λ e. ground arith, ground arith)

-- A parsed source that is of provider `p`.
abbrev IsParsed : ProviderType → SourceSpec → Type 0
IsParsed p s =
    (s.provider_type ≡ p)
    × IsNamed p s
    × (s.version ≢ [])
    × Lacks b':' s.version
    × IsSubpath s.subpath

module _ (rest original : Text) (s : SourceSpec) where
  github_no_at : split_once b'@' (split_subpath rest).0 ≡ none → parse_github rest original ≢ ok s
  unfolding parse_github
  github_no_at a h = ground arith

  github_no_slash :
      (owner_repo git_ref : Text)
      → split_once b'@' (split_subpath rest).0 ≡ some (owner_repo, git_ref)
      → split_once b'/' owner_repo ≡ none
      → parse_github rest original ≢ ok s
  unfolding parse_github
  github_no_slash owner_repo git_ref a b h = ground arith

  github_parts :
      (owner_repo git_ref owner repo : Text)
      → split_once b'@' (split_subpath rest).0 ≡ some (owner_repo, git_ref)
      → split_once b'/' owner_repo ≡ some (owner, repo)
      → parse_github rest original ≡ github_spec owner repo git_ref (split_subpath rest).1 original
  unfolding parse_github
  github_parts owner_repo git_ref owner repo a b = ground arith

  github-IsParsed :
      (owner_repo git_ref owner repo : Text)
      → split_once b'@' (split_subpath rest).0 ≡ some (owner_repo, git_ref)
      → split_once b'/' owner_repo ≡ some (owner, repo)
      → parse_github rest original ≡ ok s
      → IsParsed github s
  github-IsParsed owner_repo git_ref owner repo a b h =
      let (colon, sub, cut) = split_subpath-IsCut rest in
      let (at_is, at) = split_once-some b'@' (split_subpath rest).0 owner_repo git_ref a in
      let (slash_is, slash) = split_once-some b'/' owner_repo owner repo b in
      let (o, r, v, is) =
        github_spec-some owner repo git_ref (split_subpath rest).1 original s
          (sym (github_parts owner_repo git_ref owner repo a b) ∙ h) in
      let (front, back) =
        Lacks-append b':' owner_repo (b'@' ∷ git_ref) (subst (λ t. Lacks b':' t) at_is colon) in
      subst (λ x. IsParsed github x) is
        (
          refl,
          (
            owner,
            repo,
            refl,
            o,
            r,
            slash,
            subst (λ t. Lacks b'@' t) slash_is at,
            subst (λ t. Lacks b':' t) slash_is front,
          ),
          v,
          back.1,
          sub,
        )

  parse_github-IsParsed : parse_github rest original ≡ ok s → IsParsed github s
  parse_github-IsParsed h = elim (Option-cases (split_once b'@' (split_subpath rest).0)) [
    | inl absent ↦ absurd (github_no_at absent h)
    | inr ((owner_repo, git_ref), present) ↦ elim (Option-cases (split_once b'/' owner_repo)) [
      | inl absent ↦ absurd (github_no_slash owner_repo git_ref present absent h)
      | inr ((owner, repo), cut) ↦ github-IsParsed owner_repo git_ref owner repo present cut h
    ]
  ]

  module _ (p : ProviderType) where
    registry_no_at : rsplit_once b'@' rest ≡ none → parse_registry p rest original ≢ ok s
    unfolding parse_registry
    registry_no_at a h = ground arith

    registry_parts :
        (name after : Text)
        → rsplit_once b'@' rest ≡ some (name, after)
        → parse_registry p rest original ≡ ok s
        → (name ≢ [])
          × (registry_spec p name (split_subpath after).0 (split_subpath after).1 original ≡ ok s)
    unfolding parse_registry
    registry_parts [] after a h = absurd (ground arith)
    registry_parts (c ∷ name) after a h = (λ e. ground arith, ground arith)

    parse_registry-IsPackage :
        parse_registry p rest original ≡ ok s
        → (s.provider_type ≡ p)
          × IsPackage s
          × (s.version ≢ [])
          × Lacks b':' s.version
          × IsSubpath s.subpath
    parse_registry-IsPackage h = elim (Option-cases (rsplit_once b'@' rest)) [
      | inl absent ↦ absurd (registry_no_at absent h)
      | inr ((name, after), present) ↦
          let (n, built) = registry_parts name after present h in
          let (v, is) =
            registry_spec-some p name (split_subpath after).0 (split_subpath after).1 original s
              built in
          let (at_is, at) = rsplit_once-some b'@' rest name after present in
          let (colon, sub, cut) = split_subpath-IsCut after in
          let (at_version, at_sub) = cut b'@' at in
          subst
            (λ x.
              (x.provider_type ≡ p)
              × IsPackage x
              × (x.version ≢ [])
              × Lacks b':' x.version
              × IsSubpath x.subpath)
            is (refl, (n, at_version, at_sub), v, colon, sub)
    ]

parse_as-IsParsed :
    (p : ProviderType) (rest original : Text) (s : SourceSpec)
    → parse_as p rest original ≡ ok s
    → IsParsed p s
unfolding parse_as
parse_as-IsParsed github rest original s h = parse_github-IsParsed rest original s h
parse_as-IsParsed npm rest original s h = parse_registry-IsPackage rest original s npm h
parse_as-IsParsed pypi rest original s h = parse_registry-IsPackage rest original s pypi h
parse_as-IsParsed crate rest original s h = parse_registry-IsPackage rest original s crate h

parse_no_colon : (t : Text) (s : SourceSpec) → split_once b':' t ≡ none → parse t ≢ ok s
unfolding parse
parse_no_colon t s a h = ground arith

parse_no_provider :
    (t provider_str rest : Text) (e : CtxfsError) (s : SourceSpec)
    → split_once b':' t ≡ some (provider_str, rest)
    → provider_of provider_str ≡ err e
    → parse t ≢ ok s
unfolding parse
parse_no_provider t provider_str rest e s a b h = ground arith

parse_parts :
    (t provider_str rest : Text) (p : ProviderType)
    → split_once b':' t ≡ some (provider_str, rest)
    → provider_of provider_str ≡ ok p
    → parse t ≡ parse_as p rest t
unfolding parse
parse_parts t provider_str rest p a b = ground arith

IsParsed-IsSpec : (p : ProviderType) (s : SourceSpec) → IsParsed p s → IsSpec s
IsParsed-IsSpec p s (is, named, v, l, h) = (subst (λ q. IsNamed q s) (sym is) named, v, l, h)

-- A source that `parse` accepts has a name that fits its provider, a version that is not empty
-- and holds no `:`, and a subpath that is not an empty text.
pub parse-IsSpec : (t : Text) (s : SourceSpec) → parse t ≡ ok s → IsSpec s
parse-IsSpec t s h = elim (Option-cases (split_once b':' t)) [
  | inl absent ↦ absurd (parse_no_colon t s absent h)
  | inr ((provider_str, rest), present) ↦ elim (Result-cases (provider_of provider_str)) [
    | inl (e, fails) ↦ absurd (parse_no_provider t provider_str rest e s present fails h)
    | inr (p, is) ↦
        IsParsed-IsSpec p s
          (parse_as-IsParsed p rest t s (sym (parse_parts t provider_str rest p present is) ∙ h))
  ]
]

-- If `parse` accepts a text as a source, it also accepts what `Display` prints of that source, and
-- as the same source.
pub parse-display_spec-parse :
    (t : Text) (s : SourceSpec) → parse t ≡ ok s → parse (display_spec s) ≡ ok s
parse-display_spec-parse t s h = parse-display_spec s (parse-IsSpec t s h)
