-- ===== src/Core/Source/Cut.antt =====
-- Cutting a text at a character.
use ctxfs.Common.{
  ℕ, ◌≡◌, ◌≢◌, refl, subst, ◌∙◌, ap, none, some, [], ◌∷◌, ◌++◌, Text, arith, All, Option-cases, inl,
  inr,
}
use ctxfs.Core.Source.{split_once, rsplit_once}

-- The character is not in the text.
abbrev pub Lacks : ℕ → Text → Type 0
Lacks b s = All (λ c. c ≢ b) s

pub split_once-append : (b : ℕ) (x y : Text) → Lacks b x → split_once b (x ++ (b ∷ y)) ≡ some (x, y)
unfolding split_once
split_once-append b [] y lacks = ground arith
split_once-append b (c ∷ x) y lacks = ground (arith, split_once-append b x y lacks.1, lacks.0)

pub split_once-Lacks : (b : ℕ) (x : Text) → Lacks b x → split_once b x ≡ none
unfolding split_once
split_once-Lacks b [] lacks = refl
split_once-Lacks b (c ∷ x) lacks = ground (arith, split_once-Lacks b x lacks.1, lacks.0)

pub rsplit_once-Lacks : (b : ℕ) (x : Text) → Lacks b x → rsplit_once b x ≡ none
unfolding rsplit_once
rsplit_once-Lacks b [] lacks = refl
rsplit_once-Lacks b (c ∷ x) lacks = ground (arith, rsplit_once-Lacks b x lacks.1, lacks.0)

pub rsplit_once-append :
    (b : ℕ) (x y : Text) → Lacks b y → rsplit_once b (x ++ (b ∷ y)) ≡ some (x, y)
unfolding rsplit_once
rsplit_once-append b [] y lacks = ground (arith, rsplit_once-Lacks b y lacks)
rsplit_once-append b (c ∷ x) y lacks = ground (arith, rsplit_once-append b x y lacks)

-- What a cut at the first occurrence has found.
pub split_once-some :
    (b : ℕ) (s x y : Text) → split_once b s ≡ some (x, y) → (s ≡ x ++ (b ∷ y)) × Lacks b x
unfolding split_once
split_once-some b [] x y h = absurd (ground arith)
split_once-some b (c ∷ s) [] y h = (ground arith, tt)
split_once-some b (c ∷ s) (d ∷ x) y h =
    let rest : split_once b s ≡ some (x, y) = ground arith in
    let (is, lacks) = split_once-some b s x y rest in
    let same : c ≡ d = ground arith in
    let other : d ≢ b = ground arith in
    (ap (λ r. c ∷ r) is ∙ ap (λ e. e ∷ (x ++ (b ∷ y))) same, (other, lacks))

pub split_once-none : (b : ℕ) (s : Text) → split_once b s ≡ none → Lacks b s
unfolding split_once
split_once-none b [] h = tt
split_once-none b (c ∷ s) h = elim (Option-cases (split_once b s)) [
  | inl absent ↦ (ground arith, split_once-none b s absent)
  | inr ((u, v), present) ↦ absurd (ground arith)
]

pub rsplit_once-none : (b : ℕ) (s : Text) → rsplit_once b s ≡ none → Lacks b s
unfolding rsplit_once
rsplit_once-none b [] h = tt
rsplit_once-none b (c ∷ s) h = elim (Option-cases (rsplit_once b s)) [
  | inl absent ↦ (ground arith, rsplit_once-none b s absent)
  | inr ((u, v), present) ↦ absurd (ground arith)
]

-- What a cut at the last occurrence has found.
pub rsplit_once-some :
    (b : ℕ) (s x y : Text) → rsplit_once b s ≡ some (x, y) → (s ≡ x ++ (b ∷ y)) × Lacks b y
unfolding rsplit_once
rsplit_once-some b [] x y h = absurd (ground arith)
rsplit_once-some b (c ∷ s) [] y h = elim (Option-cases (rsplit_once b s)) [
  | inl absent ↦
      let here : c ≡ b = ground arith in
      let same : s ≡ y = ground arith in
      (
        ap (λ e. e ∷ s) here ∙ ap (λ r. b ∷ r) same,
        subst (λ r. Lacks b r) same (rsplit_once-none b s absent),
      )
  | inr ((u, v), present) ↦ absurd (ground arith)
]
rsplit_once-some b (c ∷ s) (d ∷ x) y h = elim (Option-cases (rsplit_once b s)) [
  | inl absent ↦ absurd (ground arith)
  | inr ((u, v), present) ↦
      let rest : rsplit_once b s ≡ some (x, y) = ground arith in
      let (is, lacks) = rsplit_once-some b s x y rest in
      let same : c ≡ d = ground arith in
      (ap (λ r. c ∷ r) is ∙ ap (λ e. e ∷ (x ++ (b ∷ y))) same, lacks)
]

-- A part of a text that lacks a character lacks it.
pub Lacks-append : (b : ℕ) (x y : Text) → Lacks b (x ++ y) → Lacks b x × Lacks b y
Lacks-append b [] y h = (tt, h)
Lacks-append b (c ∷ x) y h = let (p, q) = Lacks-append b x y h.1 in ((h.0, p), q)
