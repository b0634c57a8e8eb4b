-- ===== src/Git/Tree/Grouping.antt =====
-- The first loop: each directory gets the lines of the listing that have it as their parent.
use ctxfs.Common.{
  ◌≡◌, refl, sym, subst, ap, ◌∙◌, Bool, true, false, Option, none, some, Option-cases, Result, ok,
  err, Result-cases, inl, inr, List, [], ◌∷◌, ◌++◌, append_assoc, append-nil, Text, text, text_key,
  Text-discrete, holds, if◌then◌else◌, arith,
}
use ctxfs.Common.Assoc.{lookup, insert, Distinct, lookup-insert, Distinct-insert}
use ctxfs.Core.Error.{CtxfsError}
use ctxfs.Manifest.Snapshot.{DirEntry}
use ctxfs.Git.Tree.{
  TreeEntry, Utf8, Inline, Children, ensure_dir, push_entry, entries_at, dir_entry_of, ensure_dirs,
  parent_key, parent_path, place, group,
}

-- What a line gives a directory: an entry, if the directory is its parent.
abbrev pub given : Text → Text → Result (Option DirEntry) CtxfsError → List DirEntry
given p parent (err e) = []
given p parent (ok none) = []
given p parent (ok (some d)) = if holds (Text-discrete p parent) then d ∷ [] else []

-- The lines of a listing that have `p` as their parent, as entries, in the listing's order.
unfoldable pub lines_at : Utf8 → Option Inline → Text → List TreeEntry → List DirEntry
lines_at utf8 inline p [] = []
lines_at utf8 inline p (e ∷ entries) =
    given p (parent_key e.path) (dir_entry_of utf8 inline e) ++ lines_at utf8 inline p entries

entries_at-insert :
    (p k : Text) (l : List DirEntry) (dirs : Children)
    → entries_at p (insert k l dirs) ≡ (if holds (Text-discrete p k) then l else entries_at p dirs)
entries_at-insert p k l dirs = ground (arith, lookup-insert k p l dirs)

same_key : (p k : Text) (dirs : Children) → p ≡ k → entries_at p dirs ≡ entries_at k dirs
same_key p k dirs e = ap (λ x. entries_at x dirs) e

entries_at-ensure_dir :
    (p k : Text) (dirs : Children) → entries_at p (ensure_dir k dirs) ≡ entries_at p dirs
unfolding ensure_dir
entries_at-ensure_dir p k dirs = elim (Option-cases (lookup k dirs)) [
  | inl absent ↦ ground (arith, entries_at-insert p k [] dirs, same_key p k dirs)
  | inr (l, present) ↦ ground arith
]

entries_at-push_entry :
    (p k : Text) (d : DirEntry) (dirs : Children)
    → entries_at p (push_entry k d dirs)
      ≡ entries_at p dirs ++ (if holds (Text-discrete p k) then d ∷ [] else [])
unfolding push_entry
entries_at-push_entry p k d dirs = elim (Text-discrete p k) [
  | yes same ↦
      ground (arith, entries_at-insert p k (entries_at k dirs ++ (d ∷ [])) dirs, same_key p k dirs)
  | no other ↦ ground (
    arith,
    entries_at-insert p k (entries_at k dirs ++ (d ∷ [])) dirs,
    append-nil (entries_at p dirs),
  )
]

Distinct-ensure_dir : (k : Text) (dirs : Children) → Distinct dirs → Distinct (ensure_dir k dirs)
unfolding ensure_dir
Distinct-ensure_dir k dirs d = elim (Option-cases (lookup k dirs)) [
  | inl absent ↦ ground (arith, Distinct-insert k [] dirs d)
  | inr (l, present) ↦ ground arith
]

-- `ensure_dirs` adds empty directories only.
abbrev Padded : Children → Children → Type 0
Padded dirs dirs' =
    (Distinct dirs → Distinct dirs') × ((p : Text) → entries_at p dirs' ≡ entries_at p dirs)

Padded-ensure_dir :
    (k : Text) (dirs dirs' : Children) → Padded dirs dirs' → Padded dirs (ensure_dir k dirs')
Padded-ensure_dir k dirs dirs' (d, same) =
    (λ x. Distinct-ensure_dir k dirs' (d x), λ p. entries_at-ensure_dir p k dirs' ∙ same p)

Padded-if :
    (b : Bool) (k : Text) (dirs : Children) → Padded dirs (if b then ensure_dir k dirs else dirs)
Padded-if true k dirs = Padded-ensure_dir k dirs dirs ((λ d. d), (λ p. refl))
Padded-if false k dirs = ((λ d. d), (λ p. refl))

Padded-parent :
    (o : Option Text) (dirs dirs' : Children)
    → Padded dirs dirs'
    → Padded dirs (elim o [ none ↦ dirs' | some parent ↦ ensure_dir parent dirs' ])
Padded-parent none dirs dirs' h = h
Padded-parent (some k) dirs dirs' h = Padded-ensure_dir k dirs dirs' h

ensure_dirs-Padded : (e : TreeEntry) (dirs : Children) → Padded dirs (ensure_dirs e dirs)
unfolding ensure_dirs
ensure_dirs-Padded e dirs =
    Padded-parent (parent_path e.path) dirs _
      (Padded-if (holds (Text-discrete e.entry_type (text "tree"))) e.path dirs)

-- A path that has a directory.
abbrev pub Present : Text → Children → Type 0
Present p dirs = (l : List DirEntry) × (lookup p dirs ≡ some l)

pub Present-insert :
    (p k : Text) (l : List DirEntry) (dirs : Children)
    → Present p dirs
    → Present p (insert k l dirs)
Present-insert p k l dirs (old, h) = elim (Text-discrete p k) [
  | yes same ↦ (l, ground (arith, lookup-insert k p l dirs))
  | no other ↦ (old, ground (arith, lookup-insert k p l dirs))
]

Present-ensure_dir : (p k : Text) (dirs : Children) → Present p dirs → Present p (ensure_dir k dirs)
unfolding ensure_dir
Present-ensure_dir p k dirs h = elim (Option-cases (lookup k dirs)) [
  | inl absent ↦ subst (Present p) (ground arith) (Present-insert p k [] dirs h)
  | inr (l, present) ↦ subst (Present p) {x = dirs} (ground arith) h
]

Present-if :
    (b : Bool) (p k : Text) (dirs : Children)
    → Present p dirs
    → Present p (if b then ensure_dir k dirs else dirs)
Present-if true p k dirs h = Present-ensure_dir p k dirs h
Present-if false p k dirs h = h

Present-parent :
    (o : Option Text) (p : Text) (dirs : Children)
    → Present p dirs
    → Present p (elim o [ none ↦ dirs | some parent ↦ ensure_dir parent dirs ])
Present-parent none p dirs h = h
Present-parent (some k) p dirs h = Present-ensure_dir p k dirs h

pub Present-ensure_dirs :
    (p : Text) (e : TreeEntry) (dirs : Children) → Present p dirs → Present p (ensure_dirs e dirs)
unfolding ensure_dirs
Present-ensure_dirs p e dirs h =
    Present-parent (parent_path e.path) p _
      (Present-if (holds (Text-discrete e.entry_type (text "tree"))) p e.path dirs h)

ensured : (k : Text) (dirs : Children) → Present k (ensure_dir k dirs)
unfolding ensure_dir
ensured k dirs = elim (Option-cases (lookup k dirs)) [
  | inl absent ↦ ([], ground (arith, lookup-insert k k [] dirs))
  | inr (l, present) ↦ (l, ground arith)
]

ensured_parent :
    (o : Option Text) (dirs : Children)
    → Present [] dirs
    → Present
        (elim o [ none ↦ [] | some parent ↦ parent ])
        (elim o [ none ↦ dirs | some parent ↦ ensure_dir parent dirs ])
ensured_parent none dirs root = root
ensured_parent (some k) dirs root = ensured k dirs

-- The parent of a line has a directory once it is made sure of.
pub Present-ensured :
    (e : TreeEntry) (dirs : Children)
    → Present [] dirs
    → Present (parent_key e.path) (ensure_dirs e dirs)
unfolding ensure_dirs
Present-ensured e dirs root =
    ensured_parent (parent_path e.path) _
      (Present-if (holds (Text-discrete e.entry_type (text "tree"))) [] e.path dirs root)

-- A round, or the loop, has added these entries at the end of each directory.
abbrev Gathered : (Text → List DirEntry) → Children → Children → Type 0
Gathered more dirs dirs' =
    (Distinct dirs → Distinct dirs')
    × ((p : Text) → entries_at p dirs' ≡ entries_at p dirs ++ more p)

module _ (utf8 : Utf8) (inline : Option Inline) where
  placed :
      (e : TreeEntry) (dirs : Children) (r : Result (Option DirEntry) CtxfsError) (dirs' : Children)
      → dir_entry_of utf8 inline e ≡ r
      → place utf8 inline e dirs ≡ ok dirs'
      → Gathered (λ p. given p (parent_key e.path) r) dirs dirs'
  unfolding place
  placed e dirs (err x) dirs' is h = absurd (ground arith)
  placed e dirs (ok none) dirs' is h =
      let same : ensure_dirs e dirs ≡ dirs' = ground arith in
      let (d, at) = ensure_dirs-Padded e dirs in
      subst (Gathered (λ p. []) dirs) same (d, λ p. at p ∙ sym (append-nil (entries_at p dirs)))
  placed e dirs (ok (some x)) dirs' is h =
      let padded = ensure_dirs e dirs in
      let same : push_entry (parent_key e.path) x padded ≡ dirs' = ground arith in
      let (d, at) = ensure_dirs-Padded e dirs in
      subst (Gathered (λ p. given p (parent_key e.path) (ok (some x))) dirs) same (
        λ y.
            unfold push_entry in
            Distinct-insert (parent_key e.path) (entries_at (parent_key e.path) padded ++ (x ∷ []))
              padded (d y),
        λ p.
            entries_at-push_entry p (parent_key e.path) x padded
            ∙ ap (λ l. l ++ (if holds (Text-discrete p (parent_key e.path)) then x ∷ [] else []))
                (at p),
      )

  Present-place :
      (p : Text) (e : TreeEntry) (dirs : Children) (r : Result (Option DirEntry) CtxfsError)
      (dirs' : Children)
      → dir_entry_of utf8 inline e ≡ r
      → place utf8 inline e dirs ≡ ok dirs'
      → Present p dirs
      → Present p dirs'
  unfolding place push_entry
  Present-place p e dirs (err x) dirs' is h y = absurd (ground arith)
  Present-place p e dirs (ok none) dirs' is h y =
      let same : ensure_dirs e dirs ≡ dirs' = ground arith in
      subst (Present p) same (Present-ensure_dirs p e dirs y)
  Present-place p e dirs (ok (some x)) dirs' is h y =
      let padded = ensure_dirs e dirs in
      let same : insert (parent_key e.path) (entries_at (parent_key e.path) padded ++ (x ∷ []))
            padded
          ≡ dirs' =
        ground arith in
      subst (Present p) same
        (Present-insert p (parent_key e.path) _ padded (Present-ensure_dirs p e dirs y))

  pub group-Present :
      (p : Text) (entries : List TreeEntry) (dirs dirs' : Children)
      → group utf8 inline entries dirs ≡ ok dirs'
      → Present p dirs
      → Present p dirs'
  unfolding group
  group-Present p [] dirs dirs' h y =
      let same : dirs ≡ dirs' = ground arith in subst (Present p) same y
  group-Present p (e ∷ entries) dirs dirs' h y = elim (Result-cases (place utf8 inline e dirs)) [
    | inl (x, fails) ↦ absurd (ground arith)
    | inr (dirs1, places) ↦
        group-Present p entries dirs1 dirs' (ground arith)
          (Present-place p e dirs (dir_entry_of utf8 inline e) dirs1 refl places y)
  ]

  -- Where the loop over the listing succeeds, each directory has at its end the lines of which it
  -- is the parent, in order, and stands once.
  pub group-lines_at :
      (entries : List TreeEntry) (dirs dirs' : Children)
      → group utf8 inline entries dirs ≡ ok dirs'
      → (Distinct dirs → Distinct dirs')
        × ((p : Text) → entries_at p dirs' ≡ entries_at p dirs ++ lines_at utf8 inline p entries)
  unfolding group lines_at
  group-lines_at [] dirs dirs' h =
      let same : dirs ≡ dirs' = ground arith in
      subst (Gathered (λ p. []) dirs) same ((λ d. d), λ p. sym (append-nil (entries_at p dirs)))
  group-lines_at (e ∷ entries) dirs dirs' h = elim (Result-cases (place utf8 inline e dirs)) [
    | inl (x, fails) ↦ absurd (ground arith)
    | inr (dirs1, places) ↦
        let (d1, at1) = placed e dirs (dir_entry_of utf8 inline e) dirs1 refl places in
        let (d2, at2) = group-lines_at entries dirs1 dirs' (ground arith) in
        (
          λ d. d2 (d1 d),
          λ p.
              at2 p
              ∙ ap (λ l. l ++ lines_at utf8 inline p entries) (at1 p)
              ∙ append_assoc (entries_at p dirs)
                  (given p (parent_key e.path) (dir_entry_of utf8 inline e))
                  (lines_at utf8 inline p entries),
        )
  ]
