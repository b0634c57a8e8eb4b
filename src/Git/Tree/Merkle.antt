-- ===== src/Git/Tree/Merkle.antt =====
-- The digests of the built directories agree with each other.
use ctxfs.Common.{
  ℕ, ◌≡◌, ◌≢◌, refl, sym, subst, ap, Option, none, some, Option-cases, inl, inr, List, [], ◌∷◌, map,
  Text, text_key, Text-discrete, arith, All, All-map,
}
use ctxfs.Common.Assoc.{lookup, insert, Distinct, lookup-insert}
use ctxfs.Common.Sort.{Pairwise, sort_by}
use ctxfs.Core.Digest.{Digest}
use ctxfs.Manifest.Snapshot.{DirEntry, DirectoryEntry, Directory}
use ctxfs.Git.Tree.{
  Hashing, compute_digest, child_path, with_digest, Digests, Directories, BuildRun, entries_of,
  build_round, build_loop, build_from, deeper, keys_of, Children, entry_before, entries_at,
}
use ctxfs.Git.Tree.Depth.{deeper-child_path, child_path-ne, IsEarlier, sorted_keys-IsEarlier}

-- The digest of an entry of this name is that of the directory, if there is one. (An entry
-- with no name is no child.)
abbrev pub AgreesAt : Text → Option Directory → Digest → Type 0
AgreesAt [] found digest = Unit
AgreesAt (c ∷ cs) none digest = Unit
AgreesAt (c ∷ cs) (some d) digest = digest ≡ d.digest

abbrev pub Agrees : Directories → Text → DirEntry → Type 0
Agrees dirs path (DirEntry.file f) = Unit
Agrees dirs path (DirEntry.symlink s) = Unit
Agrees dirs path (DirEntry.directory d) =
    AgreesAt d.name (lookup (child_path path d.name) dirs) d.digest

-- The digest of a directory is computed from its entries, and each entry that is a directory has
-- the digest of the directory of its path.
abbrev pub IsMerkle : Hashing → Directories → Text → Directory → Type 0
IsMerkle h dirs path d = (d.digest ≡ compute_digest h d.entries) × All (Agrees dirs path) d.entries

-- Between two rounds: what is done comes before what is left, and agrees.
pub record IsBuilt (h : Hashing) (r : BuildRun) (left : List Text) : Type 0 where
  pub merkle :
      (p : Text) (d : Directory) → lookup p r.directories ≡ some d → IsMerkle h r.directories p d
  pub digests :
      (p : Text)
      → lookup p r.path_to_digest
        ≡ elim (lookup p r.directories) [ none ↦ none | some d ↦ some d.digest ]
  pub earlier :
      (p : Text) (d : Directory) → lookup p r.directories ≡ some d → All (IsEarlier p) left

-- Another directory is added, which is not the child of this one.
AgreesAt-insert :
    (dirs : Directories) (q path : Text) (new : Directory) (name : Text) (digest : Digest)
    → IsEarlier path q
    → AgreesAt name (lookup (child_path path name) dirs) digest
    → AgreesAt name (lookup (child_path path name) (insert q new dirs)) digest
AgreesAt-insert dirs q path new [] digest e h = tt
AgreesAt-insert dirs q path new (c ∷ cs) digest e h =
    let other : child_path path (c ∷ cs) ≢ q =
      λ same. cc (deeper-child_path path c cs, same, e.0) in
    let is : lookup (child_path path (c ∷ cs)) (insert q new dirs)
        ≡ lookup (child_path path (c ∷ cs)) dirs =
      ground (arith, lookup-insert q (child_path path (c ∷ cs)) new dirs) in
    subst (λ found. AgreesAt (c ∷ cs) found digest) (sym is) h

Agrees-insert :
    (dirs : Directories) (q path : Text) (new : Directory)
    → IsEarlier path q
    → (e : DirEntry) → Agrees dirs path e
    → Agrees (insert q new dirs) path e
Agrees-insert dirs q path new earlier (DirEntry.file f) h = tt
Agrees-insert dirs q path new earlier (DirEntry.symlink s) h = tt
Agrees-insert dirs q path new earlier (DirEntry.directory d) h =
    AgreesAt-insert dirs q path new d.name d.digest earlier h

-- The digest that an entry is given.
abbrev taken : Digest → Option Digest → Digest
taken g none = g
taken g (some digest) = digest

taken_found :
    (c : ℕ) (cs : Text) (g : Digest) (found : Option Directory) (o : Option Digest)
    → o ≡ elim found [ none ↦ none | some d ↦ some d.digest ]
    → AgreesAt (c ∷ cs) found (taken g o)
taken_found c cs g none o h = tt
taken_found c cs g (some d) o h = ap (taken g) h

module _ (dirs : Directories) (digests : Digests) (path : Text) (new : Directory)
    (same : (p : Text)
      → lookup p digests ≡ elim (lookup p dirs) [ none ↦ none | some d ↦ some d.digest ]) where
  -- The path of a named child is not the directory's own.
  own_path :
      (c : ℕ) (cs : Text)
      → lookup (child_path path (c ∷ cs)) (insert path new dirs)
        ≡ lookup (child_path path (c ∷ cs)) dirs
  own_path c cs =
      ground
        (arith, child_path-ne path c cs, lookup-insert path (child_path path (c ∷ cs)) new dirs)

  taken-AgreesAt :
      (n : Text) (g : Digest)
      → AgreesAt n
          (lookup (child_path path n) (insert path new dirs))
          (taken g (lookup (child_path path n) digests))
  taken-AgreesAt [] g = tt
  taken-AgreesAt (c ∷ cs) g =
      subst (λ found. AgreesAt (c ∷ cs) found (taken g (lookup (child_path path (c ∷ cs)) digests)))
        (sym (own_path c cs)) (taken_found c cs g _ _ (same (child_path path (c ∷ cs))))

  with_digest_is :
      (d : DirectoryEntry)
      → with_digest path digests (DirEntry.directory d)
        ≡ DirEntry.directory
            (record d { digest = taken d.digest (lookup (child_path path d.name) digests) })
  unfolding with_digest
  with_digest_is d = elim (Option-cases (lookup (child_path path d.name) digests)) [
    | inl absent ↦ ground arith
    | inr (g, present) ↦ ground arith
  ]

  with_digest-Agrees :
      (e : DirEntry) → Agrees (insert path new dirs) path (with_digest path digests e)
  unfolding with_digest
  with_digest-Agrees (DirEntry.file f) = tt
  with_digest-Agrees (DirEntry.symlink s) = tt
  with_digest-Agrees (DirEntry.directory d) =
      subst (Agrees (insert path new dirs) path) (sym (with_digest_is d))
        (taken-AgreesAt d.name d.digest)

  fixed-Agrees :
      (l : List DirEntry)
      → All (Agrees (insert path new dirs) path) (map (with_digest path digests) l)
  fixed-Agrees [] = tt
  fixed-Agrees (e ∷ l) = (with_digest-Agrees e, fixed-Agrees l)

module _ (h : Hashing) (r : BuildRun) (path : Text) (left : List Text)
    (built : IsBuilt h r (path ∷ left)) (later : All (IsEarlier path) left) where
  abbrev new : Directory
  new = record { digest = compute_digest h (entries_of path r); entries = entries_of path r }

  new-IsMerkle : IsMerkle h (insert path new r.directories) path new
  unfolding entries_of
  new-IsMerkle = (
    refl,
    fixed-Agrees r.directories r.path_to_digest path new built.digests
        (sort_by entry_before (entries_at path r.dir_children)),
  )

  round-IsMerkle :
      (p : Text) (d : Directory)
      → lookup p (insert path new r.directories) ≡ some d
      → IsMerkle h (insert path new r.directories) p d
  round-IsMerkle p d found = elim (Text-discrete p path) [
    | yes is ↦
        let e : new ≡ d = ground (arith, lookup-insert path p new r.directories) in
        subst (λ q. IsMerkle h (insert path new r.directories) q d) (sym is)
          (subst (IsMerkle h (insert path new r.directories) path) e new-IsMerkle)
    | no other ↦
        let old : lookup p r.directories ≡ some d =
          ground (arith, lookup-insert path p new r.directories) in
        let (digest, agrees) = built.merkle p d old in
        (
          digest,
          All-map _ _ d.entries (Agrees-insert r.directories path p new (built.earlier p d old).0)
              agrees,
        )
  ]

  round-IsEarlier :
      (p : Text) (d : Directory)
      → lookup p (insert path new r.directories) ≡ some d
      → All (IsEarlier p) left
  round-IsEarlier p d found = elim (Text-discrete p path) [
    | yes is ↦ subst (λ q. All (IsEarlier q) left) (sym is) later
    | no other ↦ (built.earlier p d (ground (arith, lookup-insert path p new r.directories))).1
  ]

  round-IsBuilt : IsBuilt h (build_round h path r) left
  unfolding build_round
  round-IsBuilt = record {
    merkle = round-IsMerkle;
    digests = λ p. ground (
      arith,
      built.digests p,
      lookup-insert path p new r.directories,
      lookup-insert path p new.digest r.path_to_digest,
    );
    earlier = round-IsEarlier;
  }

build_loop-IsBuilt :
    (h : Hashing) (paths : List Text) (r : BuildRun)
    → Pairwise IsEarlier paths
    → IsBuilt h r paths
    → IsBuilt h (build_loop h paths r) []
unfolding build_loop
build_loop-IsBuilt h [] r o b = b
build_loop-IsBuilt h (path ∷ paths) r o b =
    build_loop-IsBuilt h paths (build_round h path r) o.1 (round-IsBuilt h r path paths b o.0)

start-IsBuilt :
    (h : Hashing) (dirs : Children) (left : List Text)
    → IsBuilt h (record { dir_children = dirs; path_to_digest = []; directories = [] }) left
unfolding lookup
start-IsBuilt h dirs left = record {
  merkle = λ p d e. absurd (ground arith);
  digests = λ p. refl;
  earlier = λ p d e. absurd (ground arith);
}

pub build_from-IsBuilt :
    (h : Hashing) (dirs : Children) → Distinct dirs → IsBuilt h (build_from h dirs) []
unfolding build_from
build_from-IsBuilt h dirs d =
    build_loop-IsBuilt h (sort_by deeper (keys_of dirs)) _ (sorted_keys-IsEarlier dirs d)
      (start-IsBuilt h dirs _)
