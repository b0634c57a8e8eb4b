-- ===== src/Git/Tree/Listing.antt =====
-- Which lines of a listing a directory has as its entries.
use ctxfs.Common.{
  ◌≡◌, ◌≢◌, refl, sym, subst, ap, ◌∙◌, Option, none, some, Option-cases, Result, ok, err,
  Result-cases, ◌⊎◌, inl, inr, List, [], ◌∷◌, ◌++◌, All, All-map, Text, text, text_key,
  Text-discrete, holds, arith,
}
use ctxfs.Common.Assoc.{lookup}
use ctxfs.Core.Digest.{sha1, from_sha1_hex}
use ctxfs.Core.Error.{CtxfsError}
use ctxfs.Core.Source.{rsplit_once}
use ctxfs.Core.Source.Cut.{
  Lacks, rsplit_once-some, rsplit_once-none, rsplit_once-append, rsplit_once-Lacks,
}
use ctxfs.Manifest.Snapshot.{DirEntry}
use ctxfs.Git.Tree.{
  TreeEntry, Utf8, Inline, Children, push_entry, dir_entry_of, ensure_dirs, parent_key, parent_path,
  file_name, size_or_0, inline_content_of, symlink_target, place, group,
}
use ctxfs.Git.Tree.Grouping.{
  given, lines_at, Present, Present-insert, Present-ensured, group-Present,
}

-- A path has this parent and this last name, the parent being empty at the top.
abbrev pub IsAt : Text → Text → Text → Type 0
IsAt path parent name =
    (((parent ≡ []) × (path ≡ name)) ⊎ (path ≡ parent ++ (b'/' ∷ name))) × Lacks b'/' name

IsAt-same :
    (path a b parent name : Text) → a ≡ parent → b ≡ name → IsAt path parent name → IsAt path a b
IsAt-same path a b parent name p q h = rw (p, q) h

path-IsAt : (path : Text) → IsAt path (parent_key path) (file_name path)
unfolding parent_path file_name
path-IsAt path = elim (Option-cases (rsplit_once b'/' path)) [
  | inl absent ↦
      IsAt-same path (parent_key path) (file_name path) [] path (ground arith) (ground arith)
        (inl (refl, refl), rsplit_once-none b'/' path absent)
  | inr ((parent, name), cut) ↦
      let (is, lacks) = rsplit_once-some b'/' path parent name cut in
      IsAt-same path (parent_key path) (file_name path) parent name (ground arith) (ground arith)
        (inr is, lacks)
]

IsAt-parent_key : (path parent name : Text) → IsAt path parent name → parent_key path ≡ parent
unfolding parent_path
IsAt-parent_key path parent name (inl (top, is), lacks) =
    let absent : rsplit_once b'/' path ≡ none =
      ap (rsplit_once b'/') is ∙ rsplit_once-Lacks b'/' name lacks in
    ground arith
IsAt-parent_key path parent name (inr is, lacks) =
    let cut : rsplit_once b'/' path ≡ some (parent, name) =
      ap (rsplit_once b'/') is ∙ rsplit_once-append b'/' parent name lacks in
    ground arith

-- What a symlink leads to: nothing, if no blobs were fetched ahead; else the bytes of its blob.
abbrev pub HasTarget : Utf8 → Option Inline → TreeEntry → Text → Type 0
HasTarget utf8 inline e target =
    ((inline ≡ none) × (target ≡ []))
    ⊎ ((blobs : Inline) × (inline ≡ some blobs)
        × (lookup e.sha blobs ≡ some target)
        × (utf8 target ≡ none))

-- The entry that a line becomes: a symlink by its mode, else a file or a directory by its type.
abbrev pub IsLine : Utf8 → Option Inline → TreeEntry → Text → DirEntry → Type 0
IsLine utf8 inline e name (DirEntry.symlink s) =
    (e.mode ≡ text "120000") × (s.name ≡ name) × HasTarget utf8 inline e s.target
IsLine utf8 inline e name (DirEntry.file f) =
    (e.mode ≢ text "120000")
    × (e.entry_type ≡ text "blob")
    × (f.name ≡ name)
    × (f.digest ≡ record { algorithm = sha1; hex = e.sha })
    × (f.size ≡ size_or_0 e.size)
    × (f.executable ≡ holds (Text-discrete e.mode (text "100755")))
    × (f.inline_content ≡ inline_content_of inline (size_or_0 e.size) e.sha)
IsLine utf8 inline e name (DirEntry.directory d) =
    (e.mode ≢ text "120000")
    × (e.entry_type ≡ text "tree")
    × (d.name ≡ name)
    × (d.digest ≡ record { algorithm = sha1; hex = e.sha })

-- A submodule, or another type that is not known.
abbrev pub IsSkipped : TreeEntry → Type 0
IsSkipped e = (e.mode ≢ text "120000") × (e.entry_type ≢ text "blob") × (e.entry_type ≢ text "tree")

-- The path is not in this directory.
abbrev pub IsElsewhere : Text → TreeEntry → Type 0
IsElsewhere p e = (name : Text) → ¬ IsAt e.path p name

module _ (utf8 : Utf8) (inline : Option Inline) where
  -- The entries that the lines of a directory become, in order.
  pub data Gathers (p : Text) : List TreeEntry → List DirEntry → Type 0 where
    done : Gathers p [] []
    taken :
        (e : TreeEntry) (entries : List TreeEntry) (name : Text) (d : DirEntry) (l : List DirEntry)
        → IsAt e.path p name
        → IsLine utf8 inline e name d
        → Gathers p entries l
        → Gathers p (e ∷ entries) (d ∷ l)
    passed :
        (e : TreeEntry) (entries : List TreeEntry) (l : List DirEntry)
        → IsElsewhere p e ⊎ IsSkipped e
        → Gathers p entries l
        → Gathers p (e ∷ entries) l

  target-HasTarget :
      (e : TreeEntry) (target : Text)
      → symlink_target utf8 inline e ≡ ok target
      → HasTarget utf8 inline e target
  unfolding symlink_target
  target-HasTarget e target h = elim (Option-cases inline) [
    | inl absent ↦ inl (absent, ground arith)
    | inr (blobs, there) ↦ elim (Option-cases (lookup e.sha blobs)) [
      | inl absent ↦ absurd (ground arith)
      | inr (bytes, found) ↦ elim (Option-cases (utf8 bytes)) [
        | inr (x, bad) ↦ absurd (ground arith)
        | inl good ↦
            let same : bytes ≡ target = ground arith in
            inr (blobs, there, found ∙ ap (λ b. some b) same, subst (λ b. utf8 b ≡ none) same good)
      ]
    ]
  ]

  -- What `dir_entry_of` tells of a line.
  abbrev Tells : TreeEntry → Result (Option DirEntry) CtxfsError → Type 0
  Tells e (err x) = Unit
  Tells e (ok none) = IsSkipped e
  Tells e (ok (some d)) = IsLine utf8 inline e (file_name e.path) d

  symlink-Tells : (e : TreeEntry) → e.mode ≡ text "120000" → Tells e (dir_entry_of utf8 inline e)
  unfolding dir_entry_of
  symlink-Tells e is = elim (Result-cases (symlink_target utf8 inline e)) [
    | inl (x, fails) ↦
        let what : dir_entry_of utf8 inline e ≡ err x = ground arith in
        subst (Tells e) (sym what) tt
    | inr (target, there) ↦
        let what : dir_entry_of utf8 inline e
            ≡ ok (some (DirEntry.symlink (record { name = file_name e.path; target = target }))) =
          ground arith in
        subst (Tells e) (sym what) (is, refl, target-HasTarget e target there)
  ]

  dir_entry_of-Tells : (e : TreeEntry) → Tells e (dir_entry_of utf8 inline e)
  unfolding dir_entry_of from_sha1_hex
  dir_entry_of-Tells e = elim (Text-discrete e.mode (text "120000")) [
    | yes is ↦ symlink-Tells e is
    | no other ↦ elim (Text-discrete e.entry_type (text "blob")) [
      | yes blob ↦
          let what : dir_entry_of utf8 inline e
              ≡ ok (
                  some (
                    DirEntry.file (record {
                      name = file_name e.path;
                      digest = record { algorithm = sha1; hex = e.sha };
                      size = size_or_0 e.size;
                      executable = holds (Text-discrete e.mode (text "100755"));
                      inline_content = inline_content_of inline (size_or_0 e.size) e.sha;
                    }))) =
            ground arith in
          subst (Tells e) (sym what) (other, blob, refl, refl, refl, refl, refl)
      | no other_blob ↦ elim (Text-discrete e.entry_type (text "tree")) [
        | yes tree ↦
            let what : dir_entry_of utf8 inline e
                ≡ ok (
                    some (
                      DirEntry.directory (record {
                        name = file_name e.path;
                        digest = record { algorithm = sha1; hex = e.sha };
                      }))) =
              ground arith in
            subst (Tells e) (sym what) (other, tree, refl, refl)
        | no other_tree ↦
            let what : dir_entry_of utf8 inline e ≡ ok none = ground arith in
            subst (Tells e) (sym what) (other, other_blob, other_tree)
      ]
    ]
  ]

  given_here :
      (p : Text) {q : Text} (d : DirEntry) (l : List DirEntry)
      → p ≡ q
      → given p q (ok (some d)) ++ l ≡ d ∷ l
  given_here p {q} d l is = ground arith

  given_elsewhere :
      (p : Text) {q : Text} (d : DirEntry) (l : List DirEntry)
      → p ≢ q
      → given p q (ok (some d)) ++ l ≡ l
  given_elsewhere p {q} d l ne = ground arith

  given-Gathers :
      (p : Text) (e : TreeEntry) (entries : List TreeEntry) (l : List DirEntry)
      (r : Option DirEntry)
      → Tells e (ok r)
      → Gathers p entries l
      → Gathers p (e ∷ entries) (given p (parent_key e.path) (ok r) ++ l)
  given-Gathers p e entries l none t rest = passed e entries l (inr t) rest
  given-Gathers p e entries l (some d) t rest = elim (Text-discrete p (parent_key e.path)) [
    | yes is ↦ subst (Gathers p (e ∷ entries)) (sym (given_here p d l is)) (
        taken e entries (file_name e.path) d l
          (subst (λ q. IsAt e.path q (file_name e.path)) (sym is) (path-IsAt e.path)) t rest)
    | no ne ↦
        subst (Gathers p (e ∷ entries)) (sym (given_elsewhere p d l ne))
          (passed e entries l (inl (λ name at. ne (sym (IsAt-parent_key e.path p name at)))) rest)
  ]

  place_fails :
      (e : TreeEntry) (dirs : Children) (x : CtxfsError)
      → dir_entry_of utf8 inline e ≡ err x
      → place utf8 inline e dirs ≡ err x
  unfolding place
  place_fails e dirs x h = ground arith

  -- Where the loop succeeds, the lines of each path are gathered.
  pub group-Gathers :
      (p : Text) (entries : List TreeEntry) (dirs dirs' : Children)
      → group utf8 inline entries dirs ≡ ok dirs'
      → Gathers p entries (lines_at utf8 inline p entries)
  unfolding group lines_at
  group-Gathers p [] dirs dirs' h = done
  group-Gathers p (e ∷ entries) dirs dirs' h = elim (Result-cases (place utf8 inline e dirs)) [
    | inl (x, fails) ↦ absurd (ground arith)
    | inr (dirs1, places) ↦
        let rest = group-Gathers p entries dirs1 dirs' (ground arith) in
        elim (Result-cases (dir_entry_of utf8 inline e)) [
          | inl (x, fails) ↦ absurd (ground (arith, place_fails e dirs x fails))
          | inr (r, is) ↦
              subst
                (λ y.
                  Gathers p (e ∷ entries)
                    (given p (parent_key e.path) y ++ lines_at utf8 inline p entries))
                (sym is)
                (given-Gathers p e entries (lines_at utf8 inline p entries) r
                  (subst (Tells e) is (dir_entry_of-Tells e)) rest)
        ]
  ]

  place-parent :
      (e : TreeEntry) (dirs dirs' : Children)
      → place utf8 inline e dirs ≡ ok dirs'
      → Present [] dirs
      → Present (parent_key e.path) dirs'
  unfolding place push_entry
  place-parent e dirs dirs' h root =
      let there = Present-ensured e dirs root in
      elim (Result-cases (dir_entry_of utf8 inline e)) [
        | inl (x, fails) ↦ absurd (ground arith)
        | inr (none, is) ↦
            let same : ensure_dirs e dirs ≡ dirs' = ground arith in
            subst (Present (parent_key e.path)) same there
        | inr (some d, is) ↦
            let same : push_entry (parent_key e.path) d (ensure_dirs e dirs) ≡ dirs' =
              ground arith in
            subst (Present (parent_key e.path)) same
              (Present-insert (parent_key e.path) (parent_key e.path) _ (ensure_dirs e dirs) there)
      ]

  place-root :
      (e : TreeEntry) (dirs dirs' : Children)
      → place utf8 inline e dirs ≡ ok dirs'
      → Present [] dirs
      → Present [] dirs'
  unfolding group
  place-root e dirs dirs' h root =
      group-Present utf8 inline [] (e ∷ []) dirs dirs' (ground arith) root

  -- Where the loop succeeds, the parent of each line has a directory.
  pub group-parents :
      (entries : List TreeEntry) (dirs dirs' : Children)
      → group utf8 inline entries dirs ≡ ok dirs'
      → Present [] dirs
      → All (λ (e : TreeEntry). Present (parent_key e.path) dirs') entries
  unfolding group
  group-parents [] dirs dirs' h root = tt
  group-parents (e ∷ entries) dirs dirs' h root = elim (Result-cases (place utf8 inline e dirs)) [
    | inl (x, fails) ↦ absurd (ground arith)
    | inr (dirs1, places) ↦
        let rest : group utf8 inline entries dirs1 ≡ ok dirs' = ground arith in
        (
          group-Present utf8 inline (parent_key e.path) entries dirs1 dirs' rest
              (place-parent e dirs dirs1 places root),
          group-parents entries dirs1 dirs' rest (place-root e dirs dirs1 places root),
        )
  ]

  -- A path without a directory has no line.
  pub absent-IsElsewhere :
      (p : Text) (entries : List TreeEntry) (dirs : Children)
      → lookup p dirs ≡ none
      → All (λ (e : TreeEntry). Present (parent_key e.path) dirs) entries
      → All (IsElsewhere p) entries
  absent-IsElsewhere p entries dirs absent a =
      All-map (λ (e : TreeEntry). Present (parent_key e.path) dirs) (IsElsewhere p) entries
        (λ e (l, found) name at.
          let is = IsAt-parent_key e.path p name at in
          let none_there : lookup (parent_key e.path) dirs ≡ none =
            ap (λ k. lookup k dirs) is ∙ absent in
          absurd (ground arith))
        a
