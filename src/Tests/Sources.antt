-- ===== src/Tests/Sources.antt =====
-- Source names: runs, and the theorems at inputs that meet their hypotheses.
use ctxfs.Common.{◌≡◌, refl, none, some, ok, Text, text, Text-discrete, ℕ_discrete}
use ctxfs.Core.Source.{
  npm, SourceSpec, provider_name, provider_of, split_once, rsplit_once, split_subpath, github_spec,
  parse_github, registry_spec, parse_registry, parse_as, parse, subpath_suffix, display_spec,
  replace, id_of,
}
use ctxfs.Core.Source.RoundTrip.{parse-display_spec, IsSpec}
use ctxfs.Core.Source.Parsed.{parse-IsSpec}

program : Unit {0}
unfolding provider_name provider_of split_once rsplit_once split_subpath github_spec parse_github
    registry_spec parse_registry parse_as parse subpath_suffix display_spec replace id_of
    Text-discrete ℕ_discrete
program = tt

abbrev core : SourceSpec
core = record {
  provider_type = npm;
  name = text "@b/core";
  version = text "7.24";
  subpath = some (text "dist");
}

abbrev written : Text
written = text "npm:@b/core@7.24:dist"

parses : parse written ≡ ok core
unfolding program
parses = refl

identifies : id_of core ≡ text "npm__at_b_core_7.24"
unfolding program
identifies = refl

-- A registry source whose subpath holds an `@` is cut there, not before the version.
cuts_subpath :
    parse (text "npm:react@19:dist/@types")
    ≡ ok (record {
      provider_type = npm;
      name = text "react@19:dist/";
      version = text "types";
      subpath = none;
    })
unfolding program
cuts_subpath = refl

core-IsSpec : IsSpec core
core-IsSpec = parse-IsSpec written core parses

parse-display_spec_example : parse (display_spec core) ≡ ok core
parse-display_spec_example = parse-display_spec core core-IsSpec

parse-IsSpec_example : IsSpec core
parse-IsSpec_example = parse-IsSpec written core parses
