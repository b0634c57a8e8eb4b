-- ===== src/Common/Lists.antt =====
-- Lists measured by native numbers, and the predicates that the components share.
use Prim.Native.Nat.{ℕ, zero, suc, ◌+◌, ◌≤◌}
use mathlib.Core.Path.{◌≡◌, refl, ap, sym, subst}
use mathlib.Core.List.{List, [], ◌∷◌, ◌++◌}
use mathlib.Core.Logic.{◌⊎◌, inl, inr}
use native.Mathlib.Omega.{arith}

module _ {ℓ} {A : Type ℓ} where
  abbrev pub length : List A → ℕ
  length [] = 0
  length (x ∷ xs) = suc (length xs)

  abbrev pub take : ℕ → List A → List A
  take zero xs = []
  take (suc n) [] = []
  take (suc n) (x ∷ xs) = x ∷ take n xs

  abbrev pub drop : ℕ → List A → List A
  drop zero xs = xs
  drop (suc n) [] = []
  drop (suc n) (x ∷ xs) = drop n xs

  pub length-take_min : (n : ℕ) (xs : List A) → n ≤ length xs → length (take n xs) ≡ n
  length-take_min zero xs le = refl
  length-take_min (suc n) [] le = absurd (omega arith)
  length-take_min (suc n) (x ∷ xs) le = ap suc (length-take_min n xs (omega arith))

  pub take-append-drop : (n : ℕ) (xs : List A) → take n xs ++ drop n xs ≡ xs
  take-append-drop zero xs = refl
  take-append-drop (suc n) [] = refl
  take-append-drop (suc n) (x ∷ xs) = ap (◌∷◌ x) (take-append-drop n xs)

  pub length-append : (xs ys : List A) → length (xs ++ ys) ≡ length xs + length ys
  length-append [] ys = omega arith
  length-append (x ∷ xs) ys = omega (arith, length-append xs ys)

  abbrev pub All {κ} : (A → Type κ) → List A → Type κ
  All P [] = Unit
  All P (x ∷ xs) = P x × All P xs

  pub All-append {κ} : (P : A → Type κ) (xs ys : List A) → All P xs → All P ys → All P (xs ++ ys)
  All-append P [] ys p q = q
  All-append P (x ∷ xs) ys p q = (p.0, All-append P xs ys p.1 q)

module _ {A : Type 0} where
  pub All-map : (P Q : A → Type 0) (xs : List A) → ((x : A) → P x → Q x) → All P xs → All Q xs
  All-map P Q [] f h = h
  All-map P Q (x ∷ xs) f h = (f x h.0, All-map P Q xs f h.1)

-- Membership as a type that computes.
abbrev pub In : {A : Type 0} → A → List A → Type 0
In a [] = ⊥
In a (x ∷ xs) = (a ≡ x) ⊎ In a xs

pub List-cases {ℓ} :
    {A : Type ℓ} (l : List A) → (l ≡ []) ⊎ ((a : A) × (rest : List A) × (l ≡ a ∷ rest))
List-cases [] = inl refl
List-cases (a ∷ l) = inr (a, l, refl)

pub In-append-left : {A : Type 0} (x : A) (l m : List A) → In x l → In x (l ++ m)
In-append-left x [] m i = absurd i
In-append-left x (y ∷ l) m (inl e) = inl e
In-append-left x (y ∷ l) m (inr i) = inr (In-append-left x l m i)

pub In-append-right : {A : Type 0} (x : A) (l m : List A) → In x m → In x (l ++ m)
In-append-right x [] m i = i
In-append-right x (y ∷ l) m i = inr (In-append-right x l m i)

pub In-All : {A : Type 0} (P : A → Type 0) (l : List A) (x : A) → All P l → In x l → P x
In-All P [] x a i = absurd i
In-All P (y ∷ l) x a (inl is) = subst P (sym is) a.0
In-All P (y ∷ l) x a (inr i) = In-All P l x a.1 i
