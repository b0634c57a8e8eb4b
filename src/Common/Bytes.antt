-- ===== src/Common/Bytes.antt =====
-- Text is the list of its bytes, as Rust's `str` is.
use Prim.Native.Char.{code}
use Prim.Native.Nat.{ℕ}
use Prim.Native.String.{String}
use mathlib.Core.Option.{Option, none, some}
use mathlib.Core.List.{List, [], ◌∷◌}
use ctxfs.Common.Tests.{◌==◌, if◌then◌else◌}
use native.Mathlib.Decide.{ℕ_discrete}
use ctxfs.Common.Assoc.{Key}

abbrev pub Text : Type 0
Text = List ℕ

-- The bytes of an ASCII literal.
abbrev pub text : String → Text
text String.[] = []
text (String.◌∷◌ c s) = code c ∷ text s

unfoldable pub Text-discrete : Discrete Text
unfolding ℕ_discrete
Text-discrete = hlevel ℕ_discrete

instance abbrev pub text_key : Key Text
text_key = record { eq? = Text-discrete }

-- `s.split(c)`: the pieces between the separators, one more than there are separators.
unfoldable pub split_cons : ℕ → List Text → List Text
split_cons c [] = (c ∷ []) ∷ []
split_cons c (piece ∷ pieces) = (c ∷ piece) ∷ pieces

unfoldable pub split : ℕ → Text → List Text
unfolding split_cons
split sep [] = [] ∷ []
split sep (c ∷ s) = let rest = split sep s in if c == sep then [] ∷ rest else split_cons c rest

-- `str::strip_prefix`
unfoldable pub strip_prefix : Text → Text → Option Text
strip_prefix [] s = some s
strip_prefix (c ∷ cs) [] = none
strip_prefix (c ∷ cs) (d ∷ ds) =
    let rest = strip_prefix cs ds in elim (ℕ_discrete c d) [ yes _ ↦ rest | no _ ↦ none ]
