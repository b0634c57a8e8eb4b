-- ===== src/Cache/Rebuild/Sorted.antt =====
-- A sorted map is the same map.
use ctxfs.Common.{
  ℕ, ◌+◌, ◌≡◌, ◌≢◌, refl, sym, subst, ap, ◌∙◌, Bool-cases, none, [], ◌∷◌, Text, text_key, arith,
  inl, inr,
}
use ctxfs.Common.Assoc.{lookup, Distinct}
use ctxfs.Common.Sort.{sort_by, sort_insert, insert_later, insert_here}
use ctxfs.Cache.Rebuild.{Found, Scanned, ByHex, older}

-- The sizes together.
abbrev pub bytes : ByHex → ℕ
bytes [] = 0
bytes ((hex, f) ∷ l) = f.size + bytes l

-- An insertion into a map that lacks the key is an entry more.
record IsInserted (x : Scanned) (l l' : ByHex) : Type 0 where
  pub looks : (k : Text) → lookup k l' ≡ lookup k (x ∷ l)
  pub distinct : Distinct l → Distinct l'
  pub sum : bytes l' ≡ x.1.size + bytes l

IsInserted-cons :
    (h j : Text) (f g : Found) (l l' : ByHex)
    → h ≢ j
    → IsInserted (h, f) l l'
    → IsInserted (h, f) ((j, g) ∷ l) ((j, g) ∷ l')
unfolding lookup
IsInserted-cons h j f g l l' ne i = record {
  looks = λ k. let at = i.looks k in ground arith;
  distinct = λ d. let at = i.looks j in (ground arith, i.distinct d.1);
  sum = let s = i.sum in omega arith;
}

IsInserted-here :
    (h j : Text) (f g : Found) (l : ByHex)
    → lookup h ((j, g) ∷ l) ≡ none
    → IsInserted (h, f) ((j, g) ∷ l) ((h, f) ∷ (j, g) ∷ l)
IsInserted-here h j f g l absent = record {
  looks = λ k. refl;
  distinct = λ d. (absent, d);
  sum = refl;
}

other_key :
    (h j : Text) (g : Found) (l : ByHex)
    → lookup h ((j, g) ∷ l) ≡ none
    → (h ≢ j) × (lookup h l ≡ none)
unfolding lookup
other_key h j g l absent = (ground arith, ground arith)

sort_insert-IsInserted :
    (x : Scanned) (l : ByHex) → lookup x.0 l ≡ none → IsInserted x l (sort_insert older x l)
unfolding sort_insert lookup
sort_insert-IsInserted x [] absent = record {
  looks = λ k. refl;
  distinct = λ d. (refl, tt);
  sum = refl;
}
sort_insert-IsInserted (h, f) ((j, g) ∷ l) absent =
    let (ne, absent') = other_key h j g l absent in
    elim (Bool-cases (older (j, g) (h, f))) [
      | inl later ↦
          subst (IsInserted (h, f) ((j, g) ∷ l)) (sym (insert_later older (h, f) (j, g) l later)) (
            IsInserted-cons h j f g l (sort_insert older (h, f) l) ne
              (sort_insert-IsInserted (h, f) l absent'))
      | inr here ↦
          subst (IsInserted (h, f) ((j, g) ∷ l)) (sym (insert_here older (h, f) (j, g) l here))
            (IsInserted-here h j f g l absent)
    ]

pub record IsSorted (l l' : ByHex) : Type 0 where
  pub looks : (k : Text) → lookup k l' ≡ lookup k l
  pub distinct : Distinct l'
  pub sum : bytes l' ≡ bytes l

look_cons :
    (k : Text) (x : Scanned) (l l' : ByHex)
    → lookup k l' ≡ lookup k l
    → lookup k (x ∷ l') ≡ lookup k (x ∷ l)
unfolding lookup
look_cons k (h, f) l l' e = ground arith

pub sort_by-IsSorted : (l : ByHex) → Distinct l → IsSorted l (sort_by older l)
unfolding sort_by
sort_by-IsSorted [] d = record { looks = λ k. refl; distinct = tt; sum = refl }
sort_by-IsSorted ((h, f) ∷ l) d =
    let s = sort_by-IsSorted l d.1 in
    let i = sort_insert-IsInserted (h, f) (sort_by older l) (s.looks h ∙ d.0) in
    record {
      looks = λ k. i.looks k ∙ look_cons k (h, f) l (sort_by older l) (s.looks k);
      distinct = i.distinct s.distinct;
      sum = i.sum ∙ ap (λ n. f.size + n) s.sum;
    }

sort_insert-bytes : (x : Scanned) (l : ByHex) → bytes (sort_insert older x l) ≡ x.1.size + bytes l
unfolding sort_insert
sort_insert-bytes x [] = refl
sort_insert-bytes x ((j, g) ∷ l) =
    let rest = sort_insert-bytes x l in
    elim (Bool-cases (older (j, g) x)) [ inl later ↦ ground arith | inr here ↦ ground arith ]

-- A sort keeps the bytes, whatever the keys.
pub sort_by-bytes : (l : ByHex) → bytes (sort_by older l) ≡ bytes l
unfolding sort_by
sort_by-bytes [] = refl
sort_by-bytes (x ∷ l) =
    sort_insert-bytes x (sort_by older l) ∙ ap (λ n. x.1.size + n) (sort_by-bytes l)
