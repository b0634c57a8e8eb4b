-- ===== src/Core/Source/RoundTrip.antt =====
-- `SourceSpec::parse` and `Display for SourceSpec` against each other.
use ctxfs.Common.{
  ℕ, ◌≡◌, ◌≢◌, refl, subst, sym, ◌∙◌, ap, Option, none, some, ok, [], ◌∷◌, ◌++◌, append_assoc,
  append-nil, Text, Text-discrete, ℕ_discrete, arith,
}
use ctxfs.Core.Source.{
  ProviderType, github, npm, pypi, crate, provider_name, provider_of, SourceSpec, split_once,
  rsplit_once, split_subpath, github_spec, parse_github, registry_spec, parse_registry, parse_as,
  parse, subpath_suffix, display_spec,
}
use ctxfs.Core.Source.Cut.{Lacks, split_once-append, split_once-Lacks, rsplit_once-append}

abbrev pub IsSubpath : Option Text → Type 0
IsSubpath none = Unit
IsSubpath (some []) = ⊥
IsSubpath (some (c ∷ cs)) = Unit

abbrev pub SubpathLacks : ℕ → Option Text → Type 0
SubpathLacks b none = Unit
SubpathLacks b (some sp) = Lacks b sp

-- The parts of a name, and what they hold none of.
abbrev pub IsGithub : SourceSpec → Type 0
IsGithub s =
    (owner : Text) × (repo : Text) × (s.name ≡ owner ++ (b'/' ∷ repo))
    × (owner ≢ [])
    × (repo ≢ [])
    × (Lacks b'/' owner)
    × (Lacks b'@' (owner ++ (b'/' ∷ repo)))
    × (Lacks b':' (owner ++ (b'/' ∷ repo)))

abbrev pub IsPackage : SourceSpec → Type 0
IsPackage s = (s.name ≢ []) × Lacks b'@' s.version × SubpathLacks b'@' s.subpath

abbrev pub IsNamed : ProviderType → SourceSpec → Type 0
IsNamed github s = IsGithub s
IsNamed npm s = IsPackage s
IsNamed pypi s = IsPackage s
IsNamed crate s = IsPackage s

-- A source that a text can name.
abbrev pub IsSpec : SourceSpec → Type 0
IsSpec s = IsNamed s.provider_type s × (s.version ≢ []) × Lacks b':' s.version × IsSubpath s.subpath

split_subpath-suffix :
    (x : Text) (sp : Option Text)
    → Lacks b':' x
    → IsSubpath sp
    → split_subpath (x ++ subpath_suffix sp) ≡ (x, sp)
unfolding split_subpath subpath_suffix
split_subpath-suffix x none l h = rw (append-nil x) (ground (arith, split_once-Lacks b':' x l))
split_subpath-suffix x (some []) l h = absurd h
split_subpath-suffix x (some (c ∷ cs)) l h = ground (arith, split_once-append b':' x (c ∷ cs) l)

provider_of-name : (p : ProviderType) → provider_of (provider_name p) ≡ ok p
unfolding provider_of provider_name Text-discrete ℕ_discrete
provider_of-name github = refl
provider_of-name npm = refl
provider_of-name pypi = refl
provider_of-name crate = refl

provider_name-Lacks : (p : ProviderType) → Lacks b':' (provider_name p)
unfolding provider_name
provider_name-Lacks github =
    (omega arith, (omega arith, (omega arith, (omega arith, (omega arith, (omega arith, tt))))))
provider_name-Lacks npm = (omega arith, (omega arith, (omega arith, tt)))
provider_name-Lacks pypi = (omega arith, (omega arith, (omega arith, (omega arith, tt))))
provider_name-Lacks crate =
    (omega arith, (omega arith, (omega arith, (omega arith, (omega arith, tt)))))

-- What follows the provider in a displayed source.
abbrev tail_of : SourceSpec → Text
tail_of s = s.name ++ (b'@' ∷ (s.version ++ subpath_suffix s.subpath))

parse-display_as :
    (s : SourceSpec)
    → parse (display_spec s) ≡ parse_as s.provider_type (tail_of s) (display_spec s)
unfolding parse display_spec
parse-display_as s = ground (
  arith,
  split_once-append b':' (provider_name s.provider_type) (tail_of s)
      (provider_name-Lacks s.provider_type),
  provider_of-name s.provider_type,
)

Lacks-joined : (b : ℕ) (x y : Text) → Lacks b x → Lacks b y → Lacks b (x ++ y)
Lacks-joined b [] y p q = q
Lacks-joined b (c ∷ x) y p q = (p.0, Lacks-joined b x y p.1 q)

tail-split :
    (s : SourceSpec) → (s.name ++ (b'@' ∷ s.version)) ++ subpath_suffix s.subpath ≡ tail_of s
tail-split s = append_assoc s.name (b'@' ∷ s.version) (subpath_suffix s.subpath)

github_cut :
    (rest original repo_ref : Text) (sp : Option Text) (owner_repo git_ref owner repo : Text)
    → split_subpath rest ≡ (repo_ref, sp)
    → split_once b'@' repo_ref ≡ some (owner_repo, git_ref)
    → split_once b'/' owner_repo ≡ some (owner, repo)
    → parse_github rest original ≡ github_spec owner repo git_ref sp original
unfolding parse_github
github_cut rest original repo_ref sp owner_repo git_ref owner repo a b c = ground arith

github_spec-ok :
    (owner repo git_ref : Text) (sp : Option Text) (original : Text)
    → owner ≢ []
    → repo ≢ []
    → git_ref ≢ []
    → github_spec owner repo git_ref sp original
      ≡ ok (record {
        provider_type = github;
        name = owner ++ (b'/' ∷ repo);
        version = git_ref;
        subpath = sp;
      })
unfolding github_spec
github_spec-ok [] repo git_ref sp original a b c = absurd (a refl)
github_spec-ok (o ∷ os) [] git_ref sp original a b c = absurd (b refl)
github_spec-ok (o ∷ os) (r ∷ rs) [] sp original a b c = absurd (c refl)
github_spec-ok (o ∷ os) (r ∷ rs) (g ∷ gs) sp original a b c = refl

github-display :
    (s : SourceSpec) (original : Text)
    → s.provider_type ≡ github
    → IsGithub s
    → s.version ≢ []
    → Lacks b':' s.version
    → IsSubpath s.subpath
    → parse_github (tail_of s) original ≡ ok s
github-display s original is (owner, repo, name, o, r, slash, at, colon) v l h =
    let repo_ref = s.name ++ (b'@' ∷ s.version) in
    let lacks : Lacks b':' repo_ref =
      Lacks-joined b':' s.name (b'@' ∷ s.version) (subst (λ x. Lacks b':' x) (sym name) colon)
        (omega arith, l) in
    let cut =
      ap split_subpath (sym (tail-split s)) ∙ split_subpath-suffix repo_ref s.subpath lacks h in
    let IsCut-at =
      split_once-append b'@' s.name s.version (subst (λ x. Lacks b'@' x) (sym name) at) in
    let cut_slash = ap (split_once b'/') name ∙ split_once-append b'/' owner repo slash in
    github_cut (tail_of s) original repo_ref s.subpath s.name s.version owner repo cut IsCut-at
      cut_slash
    ∙ github_spec-ok owner repo s.version s.subpath original o r v
    ∙ (λ i. ok (record {
      provider_type = sym is i;
      name = sym name i;
      version = s.version;
      subpath = s.subpath;
    }))

registry_cut :
    (p : ProviderType) (rest original name after version : Text) (sp : Option Text)
    → name ≢ []
    → rsplit_once b'@' rest ≡ some (name, after)
    → split_subpath after ≡ (version, sp)
    → parse_registry p rest original ≡ registry_spec p name version sp original
unfolding parse_registry
registry_cut p rest original [] after version sp n a b = absurd (n refl)
registry_cut p rest original (c ∷ cs) after version sp n a b = ground arith

registry_spec-ok :
    (p : ProviderType) (name version : Text) (sp : Option Text) (original : Text)
    → version ≢ []
    → registry_spec p name version sp original
      ≡ ok (record { provider_type = p; name = name; version = version; subpath = sp })
unfolding registry_spec
registry_spec-ok p name [] sp original v = absurd (v refl)
registry_spec-ok p name (c ∷ cs) sp original v = refl

suffix-Lacks : (sp : Option Text) → SubpathLacks b'@' sp → Lacks b'@' (subpath_suffix sp)
unfolding subpath_suffix
suffix-Lacks none h = tt
suffix-Lacks (some sp) h = (omega arith, h)

package-display :
    (s : SourceSpec) (p : ProviderType) (original : Text)
    → s.provider_type ≡ p
    → IsPackage s
    → s.version ≢ []
    → Lacks b':' s.version
    → IsSubpath s.subpath
    → parse_registry p (tail_of s) original ≡ ok s
package-display s p original is (n, at, at') v l h =
    let after = s.version ++ subpath_suffix s.subpath in
    let cut =
      rsplit_once-append b'@' s.name after
        (Lacks-joined b'@' s.version (subpath_suffix s.subpath) at (suffix-Lacks s.subpath at')) in
    registry_cut p (tail_of s) original s.name after s.version s.subpath n cut
      (split_subpath-suffix s.version s.subpath l h)
    ∙ registry_spec-ok p s.name s.version s.subpath original v
    ∙ (λ i. ok (record {
      provider_type = sym is i;
      name = s.name;
      version = s.version;
      subpath = s.subpath;
    }))

parse_as-display :
    (s : SourceSpec) (p : ProviderType) (original : Text)
    → s.provider_type ≡ p
    → IsNamed p s
    → s.version ≢ []
    → Lacks b':' s.version
    → IsSubpath s.subpath
    → parse_as p (tail_of s) original ≡ ok s
unfolding parse_as
parse_as-display s github original is named v l h = github-display s original is named v l h
parse_as-display s npm original is named v l h = package-display s npm original is named v l h
parse_as-display s pypi original is named v l h = package-display s pypi original is named v l h
parse_as-display s crate original is named v l h = package-display s crate original is named v l h

-- To parse what `Display` prints of a source gives the source back, if its version is not empty
-- and holds no `:`, its subpath is not an empty text, and its name fits the provider: on GitHub it is
-- an owner and a repository joined by `/`, neither empty nor with a `:` or `@`, the owner
-- without `/`; elsewhere it is not empty, and neither version nor subpath holds an `@`.
pub parse-display_spec : (s : SourceSpec) → IsSpec s → parse (display_spec s) ≡ ok s
parse-display_spec s (named, v, l, h) =
    parse-display_as s ∙ parse_as-display s s.provider_type (display_spec s) refl named v l h
