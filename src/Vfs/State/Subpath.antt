-- ===== src/Vfs/State/Subpath.antt =====
-- `new` with a subpath: which directory of the snapshot becomes the root of a mount.
use ctxfs.Common.{
  text_key, ◌≡◌, ◌≢◌, refl, sym, subst, ◌∙◌, ap, Option, none, some, Option-cases, Result, ok, err,
  Result-cases, List, [], ◌∷◌, ◌++◌, All, Text, Text-discrete, text, arith, split, ◌↔◌, ℕ, inl, inr,
}
use ctxfs.Core.Digest.{Digest}
use ctxfs.Manifest.Snapshot.{Snapshot, DirEntry, DirectoryEntry, Directory}
use ctxfs.Vfs.Types.{VfsError, root_id}
use ctxfs.Vfs.Tables.{Tables, Provider}
use ctxfs.Vfs.Populate.{IsNode, IsSound}
use ctxfs.Vfs.State.{root_tables, new_tables, walk, walk_step, find_directory}
use ctxfs.Vfs.State.Runs.{root_tables-HasRoot}

-- Not a directory of this name.
abbrev pub IsOther : Text → DirEntry → Type 0
IsOther name (DirEntry.directory d) = d.name ≢ name
IsOther name (DirEntry.file f) = Unit
IsOther name (DirEntry.symlink s) = Unit

-- The first directory of this name in a listing has this digest.
abbrev pub IsFirst : Text → List DirEntry → Digest → Type 0
IsFirst name entries digest =
    (before : List DirEntry) × (d : DirectoryEntry) × (after : List DirEntry) × (entries
      ≡ before ++ (DirEntry.directory d ∷ after))
    × (d.name ≡ name)
    × (d.digest ≡ digest)
    × All (IsOther name) before

find_directory-IsFirst :
    (name : Text) (entries : List DirEntry) (digest : Digest)
    → find_directory name entries ≡ some digest
    → IsFirst name entries digest
unfolding find_directory
find_directory-IsFirst name [] digest h = absurd (ground arith)
find_directory-IsFirst name (DirEntry.directory d ∷ entries) digest h =
    elim (Text-discrete d.name name) [
      | yes is ↦ ([], d, entries, refl, is, ground arith, tt)
      | no ne ↦
          let (b, x, a, e, n, g, o) = find_directory-IsFirst name entries digest (ground arith) in
          (DirEntry.directory d ∷ b, x, a, ap (λ l. DirEntry.directory d ∷ l) e, n, g, (ne, o))
    ]
find_directory-IsFirst name (DirEntry.file f ∷ entries) digest h =
    let (b, x, a, e, n, g, o) = find_directory-IsFirst name entries digest h in
    (DirEntry.file f ∷ b, x, a, ap (λ l. DirEntry.file f ∷ l) e, n, g, (tt, o))
find_directory-IsFirst name (DirEntry.symlink s ∷ entries) digest h =
    let (b, x, a, e, n, g, o) = find_directory-IsFirst name entries digest h in
    (DirEntry.symlink s ∷ b, x, a, ap (λ l. DirEntry.symlink s ∷ l) e, n, g, (tt, o))

find_directory-append :
    (name : Text) (before after : List DirEntry) (d : DirectoryEntry)
    → d.name ≡ name
    → All (IsOther name) before
    → find_directory name (before ++ (DirEntry.directory d ∷ after)) ≡ some d.digest
unfolding find_directory
find_directory-append name [] after d is o = ground arith
find_directory-append name (DirEntry.directory x ∷ before) after d is (ne, o) =
    let rest = find_directory-append name before after d is o in ground arith
find_directory-append name (DirEntry.file f ∷ before) after d is (u, o) =
    find_directory-append name before after d is o
find_directory-append name (DirEntry.symlink s ∷ before) after d is (u, o) =
    find_directory-append name before after d is o

IsFirst-find_directory :
    (name : Text) (entries : List DirEntry) (digest : Digest)
    → IsFirst name entries digest
    → find_directory name entries ≡ some digest
IsFirst-find_directory name entries digest (before, d, after, is, n, g, o) =
    ap (find_directory name) is ∙ find_directory-append name before after d n o ∙ ap (λ x. some x) g

module _ (p : Provider) where
  -- From one directory to another, by the listings that the provider has for the digests.
  pub data Reaches : Digest → List Text → Digest → Type 0 where
    stay : (from : Digest) → Reaches from [] from
    skip :
        (from to : Digest) (names : List Text)
        → Reaches from names to
        → Reaches from ([] ∷ names) to
    down :
        (from next to : Digest) (name : Text) (names : List Text) (content : List ℕ) (d : Directory)
        → name ≢ []
        → p.fetch_directory from ≡ ok content
        → p.parse_directory content ≡ ok d
        → IsFirst name d.entries next
        → Reaches next names to
        → Reaches from (name ∷ names) to

  walk_step-some :
      (from next : Digest) (name : Text)
      → walk_step p from name ≡ ok next
      → (content : List ℕ) × (d : Directory) × (p.fetch_directory from ≡ ok content)
        × (p.parse_directory content ≡ ok d)
        × (find_directory name d.entries ≡ some next)
  unfolding walk_step
  walk_step-some from next name h = elim (Result-cases (p.fetch_directory from)) [
    | inl (e, fails) ↦ absurd (ground arith)
    | inr (content, fetched) ↦ elim (Result-cases (p.parse_directory content)) [
      | inl (e, fails) ↦ absurd (ground arith)
      | inr (d, parsed) ↦ elim (Option-cases (find_directory name d.entries)) [
        | inl absent ↦ absurd (ground arith)
        | inr (x, found) ↦ (content, d, fetched, parsed, ground arith)
      ]
    ]
  ]

  walk_step-ok :
      (from next : Digest) (name : Text) (content : List ℕ) (d : Directory)
      → p.fetch_directory from ≡ ok content
      → p.parse_directory content ≡ ok d
      → find_directory name d.entries ≡ some next
      → walk_step p from name ≡ ok next
  unfolding walk_step
  walk_step-ok from next name content d fetched parsed found = ground arith

  walk-Reaches :
      (from to : Digest) (names : List Text) → walk p from names ≡ ok to → Reaches from names to
  unfolding walk
  walk-Reaches from to [] h = subst (Reaches from []) {x = from} (ground arith) (stay from)
  walk-Reaches from to ([] ∷ names) h = skip from to names (walk-Reaches from to names h)
  walk-Reaches from to ((c ∷ cs) ∷ names) h = elim (Result-cases (walk_step p from (c ∷ cs))) [
    | inl (e, fails) ↦ absurd (ground arith)
    | inr (next, steps) ↦
        let (content, d, fetched, parsed, found) = walk_step-some from next (c ∷ cs) steps in
        down from next to (c ∷ cs) names content d (ground arith) fetched parsed
          (find_directory-IsFirst (c ∷ cs) d.entries next found)
          (walk-Reaches next to names (ground arith))
  ]

  walk_next :
      (from next : Digest) (c : ℕ) (cs : Text) (names : List Text)
      → walk_step p from (c ∷ cs) ≡ ok next
      → walk p from ((c ∷ cs) ∷ names) ≡ walk p next names
  unfolding walk
  walk_next from next c cs names h = ground arith

  Reaches-walk :
      {from to : Digest} {names : List Text} → Reaches from names to → walk p from names ≡ ok to
  unfolding walk
  Reaches-walk (stay from) = refl
  Reaches-walk (skip from to names r) = Reaches-walk r
  Reaches-walk (down from next to [] names content d full fetched parsed first r) =
      absurd (full refl)
  Reaches-walk (down from next to (c ∷ cs) names content d full fetched parsed first r) =
      walk_next from next c cs names (
        walk_step-ok from next (c ∷ cs) content d fetched parsed
          (IsFirst-find_directory (c ∷ cs) d.entries next first))
      ∙ Reaches-walk r

  -- The names of a subpath.
  abbrev pub names_of : Option Text → List Text
  names_of none = []
  names_of (some subpath) = split b'/' subpath

  -- The tables of a mount that has this directory as its root, and nothing else yet.
  abbrev pub Opens : Snapshot → Option Text → Tables → Type 0
  Opens snapshot subpath t =
      (digest : Digest) × Reaches snapshot.root_directory (names_of subpath) digest
      × (t ≡ root_tables digest)
      × IsSound t
      × IsNode t root_id root_id (text "/")

  opened :
      (snapshot : Snapshot) (subpath : Option Text) (t : Tables) (digest : Digest)
      → Reaches snapshot.root_directory (names_of subpath) digest
      → root_tables digest ≡ t
      → Opens snapshot subpath t
  opened snapshot subpath t digest r is =
      let (sound, root) = root_tables-HasRoot digest in
      (
        digest,
        r,
        sym is,
        subst (λ x. IsSound x) is sound,
        subst (λ x. IsNode x root_id root_id (text "/")) is root,
      )

  ok_tables : (a b : Tables) → ◌≡◌ {A = Result Tables VfsError} (ok a) (ok b) → a ≡ b
  ok_tables a b h = ground arith

  new_at :
      (snapshot : Snapshot) (subpath : Text) (digest : Digest)
      → walk p snapshot.root_directory (split b'/' subpath) ≡ ok digest
      → new_tables p snapshot (some subpath) ≡ ok (root_tables digest)
  unfolding new_tables
  new_at snapshot subpath digest h = ground arith

  new_fails :
      (snapshot : Snapshot) (subpath : Text) (e : VfsError)
      → walk p snapshot.root_directory (split b'/' subpath) ≡ err e
      → new_tables p snapshot (some subpath) ≡ err e
  unfolding new_tables
  new_fails snapshot subpath e h = ground arith

  new_returns :
      (snapshot : Snapshot) (subpath : Option Text) (t : Tables)
      → new_tables p snapshot subpath ≡ ok t
      → Opens snapshot subpath t
  unfolding new_tables
  new_returns snapshot none t h =
      opened snapshot none t snapshot.root_directory (stay snapshot.root_directory)
        (ok_tables _ t h)
  new_returns snapshot (some subpath) t h =
      elim (Result-cases (walk p snapshot.root_directory (split b'/' subpath))) [
        | inl (e, fails) ↦ absurd (ground (arith, new_fails snapshot subpath e fails))
        | inr (digest, walks) ↦
            opened snapshot (some subpath) t digest
              (walk-Reaches snapshot.root_directory digest (split b'/' subpath) walks)
              (ok_tables _ t (sym (new_at snapshot subpath digest walks) ∙ h))
      ]

  only_ok : (a b : Digest) → ◌≡◌ {A = Result Digest VfsError} (ok a) (ok b) → a ≡ b
  only_ok a b h = ground arith

  reached_new :
      (snapshot : Snapshot) (subpath : Option Text) (t : Tables) (digest : Digest)
      → Reaches snapshot.root_directory (names_of subpath) digest
      → t ≡ root_tables digest
      → new_tables p snapshot subpath ≡ ok t
  unfolding new_tables walk
  reached_new snapshot none t digest r is =
      ap (λ d. ok (root_tables d)) (only_ok _ digest (Reaches-walk r)) ∙ ap (λ x. ok x) (sym is)
  reached_new snapshot (some subpath) t digest r is =
      new_at snapshot subpath digest (Reaches-walk r) ∙ ap (λ x. ok x) (sym is)

  -- `new` returns tables exactly if each name of the subpath that is not empty is, from the root of
  -- the snapshot on, the name of a directory in the listing of the one before, the first of that
  -- name; the tables are then sound, and hold the root inode alone, a node named `/` that is its own
  -- parent, has the digest of the directory that is reached, and is not populated.
  pub new_tables-Opens :
      (snapshot : Snapshot) (subpath : Option Text) (t : Tables)
      → (new_tables p snapshot subpath ≡ ok t) ↔ Opens snapshot subpath t
  new_tables-Opens snapshot subpath t = (
    new_returns snapshot subpath t,
    λ (digest, r, is, sound, root). reached_new snapshot subpath t digest r is,
  )
