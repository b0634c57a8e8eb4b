-- ===== src/Common/Sort.antt =====
-- A stable sort by a Boolean strict order, as `sort_by` is.
use mathlib.Core.Path.{◌≡◌, sym, subst}
use mathlib.Core.Bool.{Bool, true, false}
use mathlib.Core.List.{List, [], ◌∷◌}
use mathlib.Core.Logic.{◌⊎◌, inl, inr}
use native.Mathlib.Omega.{arith}
use ctxfs.Common.Tests.{if◌then◌else◌, Bool-cases}
use ctxfs.Common.Lists.{All, In}

module _ {A : Type 0} (before : A → A → Bool) where
  unfoldable pub sort_insert : A → List A → List A
  sort_insert x [] = x ∷ []
  sort_insert x (y ∷ ys) =
      let rest = sort_insert x ys in if before y x then y ∷ rest else x ∷ y ∷ ys

  unfoldable pub sort_by : List A → List A
  sort_by [] = []
  sort_by (x ∷ xs) = sort_insert x (sort_by xs)

  pub insert_later :
      (x y : A) (ys : List A) → before y x ≡ true → sort_insert x (y ∷ ys) ≡ y ∷ sort_insert x ys
  unfolding sort_insert
  insert_later x y ys h = ground arith

  pub insert_here :
      (x y : A) (ys : List A) → before y x ≡ false → sort_insert x (y ∷ ys) ≡ x ∷ y ∷ ys
  unfolding sort_insert
  insert_here x y ys h = ground arith

  All-sort_insert : (P : A → Type 0) (x : A) (l : List A) → P x → All P l → All P (sort_insert x l)
  unfolding sort_insert
  All-sort_insert P x [] p h = (p, tt)
  All-sort_insert P x (y ∷ ys) p h = elim (Bool-cases (before y x)) [
    | inl later ↦
        subst (All P) (sym (insert_later x y ys later)) (h.0, All-sort_insert P x ys p h.1)
    | inr here ↦ subst (All P) (sym (insert_here x y ys here)) (p, h)
  ]

  pub All-sort_by : (P : A → Type 0) (l : List A) → All P l → All P (sort_by l)
  unfolding sort_by
  All-sort_by P [] h = tt
  All-sort_by P (x ∷ xs) h = All-sort_insert P x (sort_by xs) h.0 (All-sort_by P xs h.1)

module _ {A : Type 0} (before : A → A → Bool) where
  In-later :
      (a x y : A) (ys rest : List A)
      → ((a ≡ x) ⊎ In a ys → In a rest)
      → (a ≡ x) ⊎ In a (y ∷ ys)
      → (a ≡ y) ⊎ In a rest
  In-later a x y ys rest go (inl e) = inr (go (inl e))
  In-later a x y ys rest go (inr (inl e)) = inl e
  In-later a x y ys rest go (inr (inr i)) = inr (go (inr i))

  In-sort_insert : (a x : A) (l : List A) → (a ≡ x) ⊎ In a l → In a (sort_insert before x l)
  unfolding sort_insert
  In-sort_insert a x [] h = h
  In-sort_insert a x (y ∷ ys) h = elim (Bool-cases (before y x)) [
    | inl later ↦
        subst (In a) (sym (insert_later before x y ys later))
          (In-later a x y ys (sort_insert before x ys) (In-sort_insert a x ys) h)
    | inr here ↦ subst (In a) (sym (insert_here before x y ys here)) h
  ]

  pub In-sort_by : (a : A) (l : List A) → In a l → In a (sort_by before l)
  unfolding sort_by
  In-sort_by a [] h = h
  In-sort_by a (x ∷ xs) (inl e) = In-sort_insert a x (sort_by before xs) (inl e)
  In-sort_by a (x ∷ xs) (inr i) = In-sort_insert a x (sort_by before xs) (inr (In-sort_by a xs i))

-- Each element stands in the relation to all that come later.
abbrev pub Pairwise : {A : Type 0} → (A → A → Type 0) → List A → Type 0
Pairwise R [] = Unit
Pairwise R (x ∷ xs) = All (R x) xs × Pairwise R xs

-- What a sort needs of a strict order and of the relation that it is to bring about.
pub record IsOrder {A : Type 0} (before : A → A → Bool) (R : A → A → Type 0)
    (Other : A → A → Type 0) : Type 0 where
  pub turned : (x y : A) → Other x y → Other y x
  pub later : (x y : A) → Other x y → before y x ≡ true → R y x
  pub here : (x y : A) → Other x y → before y x ≡ false → R x y
  pub past : (x y z : A) → Other x z → before y x ≡ false → R y z → R x z

module _ {A : Type 0} (before : A → A → Bool) (R Other : A → A → Type 0)
    (order : IsOrder before R Other) where
  All-past :
      (x y : A) (l : List A) → before y x ≡ false → All (Other x) l → All (R y) l → All (R x) l
  All-past x y [] h o r = tt
  All-past x y (z ∷ l) h o r = (order.past x y z o.0 h r.0, All-past x y l h o.1 r.1)

  Pairwise-sort_insert :
      (x : A) (l : List A) → All (Other x) l → Pairwise R l → Pairwise R (sort_insert before x l)
  unfolding sort_insert
  Pairwise-sort_insert x [] o r = (tt, tt)
  Pairwise-sort_insert x (y ∷ ys) o r = elim (Bool-cases (before y x)) [
    | inl later ↦ subst (Pairwise R) (sym (insert_later before x y ys later)) (
      All-sort_insert before (R y) x ys (order.later x y o.0 later) r.0,
      Pairwise-sort_insert x ys o.1 r.1,
    )
    | inr here ↦
        subst (Pairwise R) (sym (insert_here before x y ys here))
          ((order.here x y o.0 here, All-past x y ys here o.1 r.0), r)
  ]

  -- Elements that are all different come out in the order.
  pub Pairwise-sort_by : (l : List A) → Pairwise Other l → Pairwise R (sort_by before l)
  unfolding sort_by
  Pairwise-sort_by [] o = tt
  Pairwise-sort_by (x ∷ xs) o =
      Pairwise-sort_insert x (sort_by before xs) (All-sort_by before (Other x) xs o.0)
        (Pairwise-sort_by xs o.1)
