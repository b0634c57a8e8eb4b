-- ===== src/Tests/OrderedList.antt =====
-- A map that meets the interface `LinkedHashMap`: a list of distinct keys, oldest first.
use mathlib.Core.List.{head?, tail}
use ctxfs.Common.{◌≡◌, refl, ◌∙◌, Option, none, some, List, [], ◌∷◌, ◌++◌, length, arith}
use ctxfs.Common.Assoc.{Key, lookup, remove, Distinct, lookup-remove, lookup-append}
use ctxfs.Cache.LinkedMap.{LinkedHashMap, refresh, is_nil}

module _ {K V : Type 0} ⦃key : Key K⦄ where
  Distinct-remove : (k : K) (l : List (K × V)) → Distinct l → Distinct (remove k l)
  unfolding remove
  Distinct-remove k [] d = tt
  Distinct-remove k ((j, v) ∷ l) d = ground (arith, Distinct-remove k l d.1, lookup-remove k j l)

  Distinct-snoc :
      (k : K) (v : V) (l : List (K × V))
      → lookup k l ≡ none
      → Distinct l
      → Distinct (l ++ ((k, v) ∷ []))
  unfolding lookup
  Distinct-snoc k v [] h d = (refl, tt)
  Distinct-snoc k v ((j, w) ∷ l) h d =
      (ground (arith, lookup-append j l ((k, v) ∷ [])), Distinct-snoc k v l (ground arith) d.1)

  pub Distinct-renewed :
      (k : K) (v : V) (l : List (K × V)) → Distinct l → Distinct (remove k l ++ ((k, v) ∷ []))
  Distinct-renewed k v l d =
      Distinct-snoc k v (remove k l) (lookup-remove k k l ∙ ground arith) (Distinct-remove k l d)

  pub Distinct-tail : (l : List (K × V)) → Distinct l → Distinct (tail l)
  Distinct-tail [] d = tt
  Distinct-tail (x ∷ l) d = d.1

  Distinct-moved :
      (k : K) (l : List (K × V)) (o : Option V)
      → Distinct l
      → Distinct (elim o [ none ↦ l | some v ↦ remove k l ++ ((k, v) ∷ []) ])
  Distinct-moved k l none d = d
  Distinct-moved k l (some v) d = Distinct-renewed k v l d

  pub Distinct-refresh : (k : K) (l : List (K × V)) → Distinct l → Distinct (refresh k l)
  unfolding refresh
  Distinct-refresh k l d = Distinct-moved k l (lookup k l) d

abbrev pub ordered_list : (K V : Type 0) ⦃key : Key K⦄ → LinkedHashMap K V
ordered_list K V ⦃key⦄ = record {
  Map = (l : List (K × V)) × Distinct l;
  iter = λ m. m.0;
  new = ([], tt);
  insert = λ k v m. (remove k m.0 ++ ((k, v) ∷ []), Distinct-renewed k v m.0 m.1);
  get = λ k m. lookup k m.0;
  get_refresh = λ k m. (refresh k m.0, Distinct-refresh k m.0 m.1);
  front = λ m. head? m.0;
  pop_front = λ m. (tail m.0, Distinct-tail m.0 m.1);
  len = λ m. length m.0;
  is_empty = λ m. is_nil m.0;
  iter-Distinct = λ m. m.1;
  iter-new = refl;
  iter-insert = λ k v m. refl;
  get-iter = λ k m. refl;
  iter-get_refresh = λ k m. refl;
  front-iter = λ m. refl;
  iter-pop_front = λ m. refl;
  len-iter = λ m. refl;
  is_empty-iter = λ m. refl;
}
