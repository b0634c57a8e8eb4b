-- ===== src/Common/Split.antt =====
-- `str::split` at a character, and `str::strip_prefix`: what the pieces say of the text.
use ctxfs.Common.Bytes.{Text, split, split_cons, strip_prefix}
use ctxfs.Common.Lists.{All}
use Prim.Native.Nat.{ℕ}
use mathlib.Core.Path.{◌≡◌, refl, sym, ap, ◌∙◌, subst}
use mathlib.Core.Logic.{◌≢◌}
use mathlib.Core.Option.{some}
use mathlib.Core.List.{List, [], ◌∷◌, ◌++◌}
use native.Mathlib.Omega.{arith}
use native.Mathlib.Decide.{ℕ_discrete}

pub split-append :
    (sep : ℕ) (x y : Text) → All (λ c. c ≢ sep) x → split sep (x ++ (sep ∷ y)) ≡ x ∷ split sep y
unfolding split split_cons
split-append sep [] y l = ground arith
split-append sep (c ∷ x) y l =
    let rest = split-append sep x y l.1 in let ne : c ≢ sep = l.0 in ground arith

-- The pieces with the separator between them.
abbrev pub join : ℕ → List Text → Text
join sep [] = []
join sep (p ∷ []) = p
join sep (p ∷ q ∷ pieces) = p ++ (sep ∷ join sep (q ∷ pieces))

join-split_cons : (sep c : ℕ) (l : List Text) → join sep (split_cons c l) ≡ c ∷ join sep l
unfolding split_cons
join-split_cons sep c [] = refl
join-split_cons sep c (p ∷ []) = refl
join-split_cons sep c (p ∷ q ∷ pieces) = refl

split-here : (sep c : ℕ) (s : Text) → c ≡ sep → split sep (c ∷ s) ≡ [] ∷ split sep s
unfolding split
split-here sep c s is = ground arith

split-there : (sep c : ℕ) (s : Text) → c ≢ sep → split sep (c ∷ s) ≡ split_cons c (split sep s)
unfolding split
split-there sep c s ne = ground arith

abbrev IsNonempty : List Text → Type 0
IsNonempty [] = ⊥
IsNonempty (p ∷ pieces) = Unit

split_cons-IsNonempty : (c : ℕ) (l : List Text) → IsNonempty (split_cons c l)
unfolding split_cons
split_cons-IsNonempty c [] = tt
split_cons-IsNonempty c (p ∷ pieces) = tt

split-IsNonempty : (sep : ℕ) (s : Text) → IsNonempty (split sep s)
unfolding split
split-IsNonempty sep [] = tt
split-IsNonempty sep (c ∷ s) = elim (ℕ_discrete c sep) [
  | yes is ↦ subst IsNonempty (sym (split-here sep c s is)) tt
  | no ne ↦ subst IsNonempty (sym (split-there sep c s ne)) (split_cons-IsNonempty c (split sep s))
]

join-empty : (sep : ℕ) (l : List Text) → IsNonempty l → join sep ([] ∷ l) ≡ sep ∷ join sep l
join-empty sep [] n = absurd n
join-empty sep (p ∷ pieces) n = refl

pub join-split : (sep : ℕ) (s : Text) → join sep (split sep s) ≡ s
unfolding split
join-split sep [] = refl
join-split sep (c ∷ s) = elim (ℕ_discrete c sep) [
  | yes is ↦
      ap (join sep) (split-here sep c s is)
      ∙ (join-empty sep (split sep s) (split-IsNonempty sep s)
          ∙ (ap (λ x. sep ∷ x) (join-split sep s) ∙ ap (λ x. x ∷ s) (sym is)))
  | no ne ↦
      ap (join sep) (split-there sep c s ne)
      ∙ (join-split_cons sep c (split sep s) ∙ ap (λ x. c ∷ x) (join-split sep s))
]

pub strip_prefix-some : (p s r : Text) → strip_prefix p s ≡ some r → s ≡ p ++ r
unfolding strip_prefix
strip_prefix-some [] s r h = ground arith
strip_prefix-some (c ∷ cs) [] r h = absurd (ground arith)
strip_prefix-some (c ∷ cs) (d ∷ ds) r h = elim (ℕ_discrete c d) [
  | yes is ↦ let rest = strip_prefix-some cs ds r (ground arith) in ground arith
  | no ne ↦ absurd (ground arith)
]

pub strip_prefix-append : (p r : Text) → strip_prefix p (p ++ r) ≡ some r
unfolding strip_prefix
strip_prefix-append [] r = refl
strip_prefix-append (c ∷ cs) r = let rest = strip_prefix-append cs r in ground arith
