-- ===== src/Cache/LinkedMap.antt =====
-- What the blob cache relies on of `LinkedHashMap`, of the crate `linked-hash-map`: a map that
-- remembers an order. `iter` lists the entries, oldest first; `insert` and `get_refresh` make an
-- entry the newest, and `front` and `pop_front` take the oldest.
use mathlib.Core.List.{head?, tail}
use ctxfs.Common.{
  arith, Option-cases, inl, inr, ℕ, ◌≡◌, Option, none, some, Bool, true, false, List, [], ◌∷◌, ◌++◌,
  length,
}
use ctxfs.Common.Assoc.{Key, lookup, remove, Distinct, remove_absent, lookup-append, lookup-remove}

module _ {K V : Type 0} ⦃key : Key K⦄ where
  -- The entries after `get_refresh k`.
  unfoldable pub refresh : K → List (K × V) → List (K × V)
  refresh k l = elim (lookup k l) [ none ↦ l | some v ↦ remove k l ++ ((k, v) ∷ []) ]

abbrev pub is_nil {ℓ} : {A : Type ℓ} → List A → Bool
is_nil [] = true
is_nil (x ∷ xs) = false

pub record LinkedHashMap (K V : Type 0) ⦃key : Key K⦄ : Type 1 where
  pub Map : Type 0
  pub iter : Map → List (K × V)
  pub new : Map
  pub insert : K → V → Map → Map
  pub get : K → Map → Option V
  pub get_refresh : K → Map → Map
  pub front : Map → Option (K × V)
  pub pop_front : Map → Map
  pub len : Map → ℕ
  pub is_empty : Map → Bool
  pub iter-Distinct : (m : Map) → Distinct (iter m)
  pub iter-new : iter new ≡ []
  pub iter-insert :
      (k : K) (v : V) (m : Map) → iter (insert k v m) ≡ remove k (iter m) ++ ((k, v) ∷ [])
  pub get-iter : (k : K) (m : Map) → get k m ≡ lookup k (iter m)
  pub iter-get_refresh : (k : K) (m : Map) → iter (get_refresh k m) ≡ refresh k (iter m)
  pub front-iter : (m : Map) → front m ≡ head? (iter m)
  pub iter-pop_front : (m : Map) → iter (pop_front m) ≡ tail (iter m)
  pub len-iter : (m : Map) → len m ≡ length (iter m)
  pub is_empty-iter : (m : Map) → is_empty m ≡ is_nil (iter m)

module _ {K V : Type 0} ⦃key : Key K⦄ where
  -- The oldest of distinct entries goes to the end.
  pub refresh_front :
      (k : K) (v : V) (rest : List (K × V))
      → Distinct ((k, v) ∷ rest)
      → refresh k ((k, v) ∷ rest) ≡ rest ++ ((k, v) ∷ [])
  unfolding refresh lookup remove
  refresh_front k v rest d = ground (arith, remove_absent k rest d.0)

  -- A refresh changes the order only.
  pub lookup-refresh : (k j : K) (l : List (K × V)) → lookup j (refresh k l) ≡ lookup j l
  unfolding refresh lookup
  lookup-refresh k j l = elim (Option-cases (lookup k l)) [
    | inl e ↦ ground arith
    | inr (v, e) ↦ ground (arith, lookup-append j (remove k l) ((k, v) ∷ []), lookup-remove k j l)
  ]
