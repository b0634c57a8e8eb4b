-- ===== src/Cache/Rebuild/Dedupe.antt =====
-- What `rebuild_index` keeps of the files of one hex.
use ctxfs.Common.{
  ℕ, ◌+◌, ◌≤◌, ◌≡◌, ◌≢◌, refl, sym, subst, ap, ◌∙◌, true, false, Bool-cases, none, some,
  Option-cases, ◌⊎◌, inl, inr, List, [], ◌∷◌, ◌++◌, In, In-append-left, In-append-right, Text,
  text_key, Text-discrete, arith,
}
use ctxfs.Common.Assoc.{lookup, insert, Distinct, lookup-insert, Distinct-insert}
use ctxfs.Core.Digest.{HashAlgorithm, sha1, sha256}
use ctxfs.Cache.Rebuild.{Found, Scanned, ByHex, ToDelete, is_sha1, keep_one, dedupe_one, dedupe}
use ctxfs.Cache.Rebuild.Sorted.{bytes}

-- A file has an entry: of its own algorithm; or of SHA-1, and the file is to be deleted.
abbrev pub Covers : ByHex × ToDelete → Scanned → Type 0
Covers d x =
    (f : Found) × (lookup x.0 d.0 ≡ some f)
    × ((f.algorithm ≡ x.1.algorithm) ⊎ ((f.algorithm ≡ sha1) × In (x.0, x.1.algorithm) d.1))

-- After the files of `Seen`, of this many bytes together.
pub record IsDeduped (Seen : Scanned → Type 0) (n : ℕ) (d : ByHex × ToDelete) : Type 0 where
  pub distinct : Distinct d.0
  pub sum : bytes d.0 ≤ n
  pub found : (hex : Text) (f : Found) → lookup hex d.0 ≡ some f → Seen (hex, f)
  pub covered : (x : Scanned) → Seen x → Covers d x

bytes-insert : (hex : Text) (f : Found) (l : ByHex) → bytes (insert hex f l) ≤ f.size + bytes l
unfolding insert
bytes-insert hex f [] = omega arith
bytes-insert hex f ((j, g) ∷ l) =
    let rest = bytes-insert hex f l in
    elim (Text-discrete hex j) [ yes is ↦ ground arith | no ne ↦ ground arith ]

abbrev And : (Scanned → Type 0) → Scanned → Scanned → Type 0
And Seen x y = Seen y ⊎ (y ≡ x)

pair_is : (h hex : Text) (f new : Found) → h ≡ hex → f ≡ new → ◌≡◌ {A = Scanned} (h, f) (hex, new)
pair_is h hex f new is same = ground arith

more_deleted :
    (b : ByHex) (t t' : ToDelete) (x : Scanned)
    → ((y : Text × HashAlgorithm) → In y t → In y t')
    → Covers (b, t) x
    → Covers (b, t') x
more_deleted b t t' x more (f, e, inl same) = (f, e, inl same)
more_deleted b t t' x more (f, e, inr (one, gone)) = (f, e, inr (one, more _ gone))

other_entry :
    (hex : Text) (new : Found) (b : ByHex) (t : ToDelete) (x : Scanned)
    → x.0 ≢ hex
    → Covers (b, t) x
    → Covers (insert hex new b, t) x
other_entry hex new b t x ne (f, e, rest) = (f, ground (arith, lookup-insert hex x.0 new b), rest)

module _ (Seen : Scanned → Type 0) (n : ℕ) (hex : Text) (new : Found) (b : ByHex) (t t' : ToDelete)
    (d : IsDeduped Seen n (b, t)) (more : (y : Text × HashAlgorithm) → In y t → In y t') where
  -- An entry is set: for a hex that has none, or whose files are all covered by the new one.
  set_entry :
      ((x : Scanned) → Seen x → x.0 ≡ hex → Covers (insert hex new b, t') x)
      → IsDeduped (And Seen (hex, new)) (n + new.size) (insert hex new b, t')
  set_entry covers = record {
    distinct = Distinct-insert hex new b d.distinct;
    sum = let le = bytes-insert hex new b in let s = d.sum in omega arith;
    found = λ h f e. elim (Text-discrete h hex) [
      | yes is ↦ inr (pair_is h hex f new is (ground (arith, lookup-insert hex h new b)))
      | no ne ↦ inl (d.found h f (ground (arith, lookup-insert hex h new b)))
    ];
    covered = λ x s. elim s [
      | inr is ↦
          subst (Covers (insert hex new b, t')) (sym is)
            (new, ground (arith, lookup-insert hex hex new b), inl refl)
      | inl seen ↦ elim (Text-discrete x.0 hex) [
        | yes is ↦ covers x seen is
        | no ne ↦ other_entry hex new b t' x ne (more_deleted b t t' x more (d.covered x seen))
      ]
    ];
  }

  -- The entry stays, and covers the file.
  keep_entry : Covers (b, t') (hex, new) → IsDeduped (And Seen (hex, new)) (n + new.size) (b, t')
  keep_entry covers = record {
    distinct = d.distinct;
    sum = let s = d.sum in omega arith;
    found = λ h f e. inl (d.found h f e);
    covered = λ x s. elim s [
      | inr is ↦ subst (Covers (b, t')) (sym is) covers
      | inl seen ↦ more_deleted b t t' x more (d.covered x seen)
    ];
  }

is_sha1-true : (a : HashAlgorithm) → is_sha1 a ≡ true → a ≡ sha1
unfolding is_sha1
is_sha1-true sha1 h = refl
is_sha1-true sha256 h = absurd (ground arith)

is_sha1-false : (a : HashAlgorithm) → is_sha1 a ≡ false → a ≡ sha256
unfolding is_sha1
is_sha1-false sha1 h = absurd (ground arith)
is_sha1-false sha256 h = refl

vacant :
    (hex : Text) (new : Found) (b : ByHex) (t : ToDelete)
    → lookup hex b ≡ none
    → dedupe_one (hex, new) (b, t) ≡ (insert hex new b, t)
unfolding dedupe_one
vacant hex new b t h = ground arith

first_wins :
    (hex : Text) (old new : Found) (b : ByHex) (t : ToDelete)
    → lookup hex b ≡ some old
    → (is_sha1 old.algorithm ≡ true) ⊎ (is_sha1 new.algorithm ≡ false)
    → dedupe_one (hex, new) (b, t) ≡ (b, t ++ ((hex, new.algorithm) ∷ []))
unfolding dedupe_one keep_one
first_wins hex old new b t h c = ground arith

second_wins :
    (hex : Text) (old new : Found) (b : ByHex) (t : ToDelete)
    → lookup hex b ≡ some old
    → is_sha1 old.algorithm ≡ false
    → is_sha1 new.algorithm ≡ true
    → dedupe_one (hex, new) (b, t) ≡ (insert hex new b, t ++ ((hex, old.algorithm) ∷ []))
unfolding dedupe_one keep_one
second_wins hex old new b t h o c = ground arith

file_is :
    (x : Text) (hex : Text) (a b : HashAlgorithm)
    → x ≡ hex
    → a ≡ b
    → ◌≡◌ {A = Text × HashAlgorithm} (x, a) (hex, b)
file_is x hex a b is same = ground arith

-- What SHA-256 covered, the new SHA-1 covers, and the file is to be deleted.
replaced :
    (hex : Text) (old new : Found) (b : ByHex) (t : ToDelete) (x : Scanned)
    → lookup hex b ≡ some old
    → old.algorithm ≡ sha256
    → new.algorithm ≡ sha1
    → Covers (b, t) x
    → x.0 ≡ hex
    → Covers (insert hex new b, t ++ ((hex, old.algorithm) ∷ [])) x
replaced hex old new b t x present o c (f, e, rest) is =
    let there : lookup hex b ≡ some f = subst (λ h. lookup h b ≡ some f) is e in
    let same : f ≡ old = ground arith in
    let set : lookup x.0 (insert hex new b) ≡ some new =
      ground (arith, lookup-insert hex x.0 new b) in
    elim rest [
      | inr (one, gone) ↦ absurd (ground (arith, ap (λ (y : Found). y.algorithm) same))
      | inl alg ↦ (
        new,
        set,
        inr (
          c,
          In-append-right _ t _ (
              inl (
                file_is x.0 hex x.1.algorithm old.algorithm is
                  (sym alg ∙ ap (λ (y : Found). y.algorithm) same))),
        ),
      )
    ]

dedupe_one-IsDeduped :
    (Seen : Scanned → Type 0) (n : ℕ) (hex : Text) (new : Found) (b : ByHex) (t : ToDelete)
    → IsDeduped Seen n (b, t)
    → IsDeduped (And Seen (hex, new)) (n + new.size) (dedupe_one (hex, new) (b, t))
dedupe_one-IsDeduped Seen n hex new b t d =
    let Goal : ByHex × ToDelete → Type 0 = IsDeduped (And Seen (hex, new)) (n + new.size) in
    elim (Option-cases (lookup hex b)) [
      | inl absent ↦ subst Goal (sym (vacant hex new b t absent)) (
          set_entry Seen n hex new b t t d (λ y i. i)
            (λ x seen is.
              let (f, e, rest) = d.covered x seen in
              let gone : lookup x.0 b ≡ none = subst (λ h. lookup h b ≡ none) (sym is) absent in
              absurd (ground arith)))
      | inr (old, present) ↦ elim (Bool-cases (is_sha1 old.algorithm)) [
        | inl o ↦ subst Goal (sym (first_wins hex old new b t present (inl o))) (
            keep_entry Seen n hex new b t _ d (λ y i. In-append-left y t _ i)
              (old, present, inr (is_sha1-true old.algorithm o, In-append-right _ t _ (inl refl))))
        | inr o ↦ elim (Bool-cases (is_sha1 new.algorithm)) [
          | inr c ↦ subst Goal (sym (first_wins hex old new b t present (inr c))) (
              keep_entry Seen n hex new b t _ d (λ y i. In-append-left y t _ i)
                (
                  old,
                  present,
                  inl (is_sha1-false old.algorithm o ∙ sym (is_sha1-false new.algorithm c)),
                ))
          | inl c ↦ subst Goal (sym (second_wins hex old new b t present o c)) (
              set_entry Seen n hex new b t _ d (λ y i. In-append-left y t _ i)
                (λ x seen is.
                  replaced hex old new b t x present (is_sha1-false old.algorithm o)
                    (is_sha1-true new.algorithm c) (d.covered x seen) is))
        ]
      ]
    ]

pub IsDeduped-map :
    (P Q : Scanned → Type 0) (n k : ℕ) (d : ByHex × ToDelete)
    → ((x : Scanned) → P x → Q x)
    → ((x : Scanned) → Q x → P x)
    → n ≡ k
    → IsDeduped P n d
    → IsDeduped Q k d
IsDeduped-map P Q n k d pq qp e s = record {
  distinct = s.distinct;
  sum = let le = s.sum in omega arith;
  found = λ h f l. pq (h, f) (s.found h f l);
  covered = λ x q. s.covered x (qp x q);
}

after_one :
    (Seen : Scanned → Type 0) (x y : Scanned) (xs : List Scanned)
    → And Seen x y ⊎ In y xs
    → Seen y ⊎ In y (x ∷ xs)
after_one Seen x y xs (inl (inl s)) = inl s
after_one Seen x y xs (inl (inr is)) = inr (inl is)
after_one Seen x y xs (inr i) = inr (inr i)

before_one :
    (Seen : Scanned → Type 0) (x y : Scanned) (xs : List Scanned)
    → Seen y ⊎ In y (x ∷ xs)
    → And Seen x y ⊎ In y xs
before_one Seen x y xs (inl s) = inl (inl s)
before_one Seen x y xs (inr (inl is)) = inl (inr is)
before_one Seen x y xs (inr (inr i)) = inr i

pub dedupe-IsDeduped :
    (Seen : Scanned → Type 0) (n : ℕ) (xs : List Scanned) (d : ByHex × ToDelete)
    → IsDeduped Seen n d
    → IsDeduped (λ y. Seen y ⊎ In y xs) (n + bytes xs) (dedupe xs d)
unfolding dedupe
dedupe-IsDeduped Seen n [] d s =
    IsDeduped-map Seen (λ y. Seen y ⊎ In y []) n (n + 0) d (λ x p. inl p)
      (λ x q. elim q [ inl p ↦ p | inr i ↦ absurd i ]) (omega arith) s
dedupe-IsDeduped Seen n (x ∷ xs) d s =
    IsDeduped-map (λ y. And Seen x y ⊎ In y xs) (λ y. Seen y ⊎ In y (x ∷ xs))
      (n + x.1.size + bytes xs) (n + (x.1.size + bytes xs)) (dedupe xs (dedupe_one x d))
      (λ y. after_one Seen x y xs) (λ y. before_one Seen x y xs) (omega arith)
      (dedupe-IsDeduped (And Seen x) (n + x.1.size) xs (dedupe_one x d)
        (dedupe_one-IsDeduped Seen n x.0 x.1 d.0 d.1 s))
