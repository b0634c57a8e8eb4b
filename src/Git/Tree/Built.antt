-- ===== src/Git/Tree/Built.antt =====
-- What `build_directories_inner` returns, against the listing that it is given.
use ctxfs.Common.{
  ◌≡◌, ◌≢◌, refl, sym, subst, ap, ◌∙◌, Option, none, some, Option-cases, Result, ok, err,
  Result-cases, ◌⊎◌, inl, inr, List, [], ◌∷◌, ◌++◌, map, In, All, Text, text_key, Text-discrete,
  arith,
}
use ctxfs.Common.Assoc.{lookup, Distinct, lookup-insert, lookup-remove}
use ctxfs.Common.Sort.{sort_by, Pairwise, All-sort_by, In-sort_by}
use ctxfs.Core.Digest.{Digest}
use ctxfs.Core.Error.{CtxfsError}
use ctxfs.Manifest.Snapshot.{DirEntry, Directory}
use ctxfs.Git.Tree.{
  TreeEntry, Utf8, Inline, Hashing, compute_digest, Children, Digests, Directories, entries_at,
  keys_of, parent_key, entry_before, with_digest, deeper, BuildRun, entries_of, build_round,
  build_loop, build_from, root_digest, group, build_directories_inner,
}
use ctxfs.Git.Tree.Depth.{IsEarlier, IsOther, absent-keys, sorted_keys-IsEarlier}
use ctxfs.Git.Tree.Merkle.{build_from-IsBuilt}
use ctxfs.Git.Tree.Listing.{IsElsewhere, Gathers, group-Gathers, group-parents, absent-IsElsewhere}
use ctxfs.Git.Tree.Grouping.{lines_at, group-lines_at, Present, group-Present}

module _ (h : Hashing) where
  -- A path that is not processed any more keeps its directory.
  build_loop-keeps :
      (p : Text) (paths : List Text) (r : BuildRun)
      → All (λ q. p ≢ q) paths
      → lookup p (build_loop h paths r).directories ≡ lookup p r.directories
  unfolding build_loop build_round
  build_loop-keeps p [] r o = refl
  build_loop-keeps p (q ∷ paths) r o =
      build_loop-keeps p paths (build_round h q r) o.1
      ∙ ground (
        arith,
        lookup-insert q p
            (record { digest = compute_digest h (entries_of q r); entries = entries_of q r })
            r.directories,
      )

  -- The directory of this path is there, with these entries but for their digests.
  abbrev pub Lists : Text → List DirEntry → Option Directory → Type 0
  Lists p l found =
      (d : Directory) × (digests : Digests) × (found ≡ some d)
      × (d.entries ≡ map (with_digest p digests) (sort_by entry_before l))

  others : (p : Text) (paths : List Text) → All (IsEarlier p) paths → All (λ q. p ≢ q) paths
  others p [] a = tt
  others p (q ∷ paths) a = (a.0.1, others p paths a.1)

  round-Lists :
      (p : Text) (r : BuildRun)
      → Lists p (entries_at p r.dir_children) (lookup p (build_round h p r).directories)
  unfolding build_round entries_of
  round-Lists p r = (
    record { digest = compute_digest h (entries_of p r); entries = entries_of p r },
    r.path_to_digest,
    ground (
      arith,
      lookup-insert p p
          (record { digest = compute_digest h (entries_of p r); entries = entries_of p r })
          r.directories,
    ),
    refl,
  )

  round-entries_at :
      (p q : Text) (r : BuildRun)
      → p ≢ q
      → entries_at p (build_round h q r).dir_children ≡ entries_at p r.dir_children
  unfolding build_round
  round-entries_at p q r ne = ground (arith, lookup-remove q p r.dir_children)

  head-Lists :
      (p q : Text) (paths : List Text) (r : BuildRun)
      → All (IsEarlier q) paths
      → p ≡ q
      → Lists p
          (entries_at p r.dir_children)
          (lookup p (build_loop h paths (build_round h q r)).directories)
  head-Lists p q paths r o is =
      subst (Lists p (entries_at p r.dir_children))
        (sym (
          build_loop-keeps p paths (build_round h q r)
            (subst (λ x. All (λ y. x ≢ y) paths) (sym is) (others q paths o))))
        (subst
          (λ x. Lists p (entries_at p r.dir_children) (lookup p (build_round h x r).directories)) is
          (round-Lists p r))

  build_loop-Lists :
      (p : Text) (paths : List Text) (r : BuildRun)
      → Pairwise IsEarlier paths
      → In p paths
      → Lists p (entries_at p r.dir_children) (lookup p (build_loop h paths r).directories)
  unfolding build_loop
  build_loop-Lists p [] r o i = absurd i
  build_loop-Lists p (q ∷ paths) r o (inl is) = head-Lists p q paths r o.0 is
  build_loop-Lists p (q ∷ paths) r o (inr i) = elim (Text-discrete p q) [
    | yes is ↦ head-Lists p q paths r o.0 is
    | no ne ↦
        subst (λ l. Lists p l (lookup p (build_loop h paths (build_round h q r)).directories))
          (round-entries_at p q r ne) (build_loop-Lists p paths (build_round h q r) o.1 i)
  ]

In-keys_of :
    (p : Text) (l : List DirEntry) (dirs : Children) → lookup p dirs ≡ some l → In p (keys_of dirs)
unfolding lookup
In-keys_of p l [] e = absurd (ground arith)
In-keys_of p l ((k, v) ∷ dirs) e = elim (Text-discrete p k) [
  | yes is ↦ inl is
  | no ne ↦ inr (In-keys_of p l dirs (ground arith))
]

-- The directory of a path: none, where no line of the listing is in the path; or one whose
-- entries are those that the lines in the path become, sorted by name, but for the digests of
-- directories.
abbrev pub IsListed : Utf8 → Option Inline → List TreeEntry → Directories → Text → Type 0
IsListed utf8 inline entries dirs p =
    ((lookup p dirs ≡ none) × All (IsElsewhere p) entries)
    ⊎ ((d : Directory) × (digests : Digests) × (l : List DirEntry) × (lookup p dirs ≡ some d)
        × Gathers utf8 inline p entries l
        × (d.entries ≡ map (with_digest p digests) (sort_by entry_before l)))

abbrev no_entries : List DirEntry
no_entries = []

abbrev pub only_root : Children
only_root = ([], no_entries) ∷ []

empty_root : (p : Text) → entries_at p only_root ≡ []
unfolding lookup
empty_root p = ground arith

root_there : lookup [] only_root ≡ some no_entries
unfolding lookup Text-discrete
root_there = refl

succeeded :
    (a b : Digest) (c d : Directories)
    → ◌≡◌ {A = Result (Digest × Directories) CtxfsError} (ok (a, c)) (ok (b, d))
    → (a ≡ b) × (c ≡ d)
succeeded a b c d e = (ground arith, ground arith)

module _ (h : Hashing) (utf8 : Utf8) (inline : Option Inline) (entries : List TreeEntry) where
  build_from-absent :
      (dirs : Children) (p : Text)
      → lookup p dirs ≡ none
      → lookup p (build_from h dirs).directories ≡ none
  unfolding build_from lookup
  build_from-absent dirs p absent =
      build_loop-keeps h p (sort_by deeper (keys_of dirs)) _
        (All-sort_by deeper (IsOther p) (keys_of dirs) (absent-keys p dirs absent))

  build_from-Lists :
      (dirs : Children) (p : Text) (l : List DirEntry)
      → Distinct dirs
      → lookup p dirs ≡ some l
      → Lists h p (entries_at p dirs) (lookup p (build_from h dirs).directories)
  unfolding build_from
  build_from-Lists dirs p l d present =
      build_loop-Lists h p (sort_by deeper (keys_of dirs)) _ (sorted_keys-IsEarlier dirs d)
        (In-sort_by deeper p (keys_of dirs) (In-keys_of p l dirs present))

  build_from-IsListed :
      (dirs : Children) (p : Text)
      → Distinct dirs
      → entries_at p dirs ≡ lines_at utf8 inline p entries
      → Gathers utf8 inline p entries (lines_at utf8 inline p entries)
      → All (λ (e : TreeEntry). Present (parent_key e.path) dirs) entries
      → IsListed utf8 inline entries (build_from h dirs).directories p
  build_from-IsListed dirs p d at gathers parents = elim (Option-cases (lookup p dirs)) [
    | inl absent ↦ inl (
      build_from-absent dirs p absent,
      absent-IsElsewhere utf8 inline p entries dirs absent parents,
    )
    | inr (l, present) ↦
        let (dir, digests, found, is) = build_from-Lists dirs p l d present in
        inr (
          dir,
          digests,
          lines_at utf8 inline p entries,
          found,
          gathers,
          is ∙ ap (λ x. map (with_digest p digests) (sort_by entry_before x)) at,
        )
  ]

  root_at :
      (r : BuildRun) (d : Directory)
      → lookup [] r.directories ≡ some d
      → lookup [] r.path_to_digest
        ≡ elim (lookup [] r.directories) [ none ↦ none | some x ↦ some x.digest ]
      → root_digest h r.path_to_digest ≡ d.digest
  unfolding root_digest
  root_at r d found same = ground arith

  build_fails :
      (e : CtxfsError)
      → group utf8 inline entries only_root ≡ err e
      → build_directories_inner h utf8 entries inline ≡ err e
  unfolding build_directories_inner
  build_fails e g = ground arith

  pub build_succeeds :
      (dirs : Children)
      → group utf8 inline entries only_root ≡ ok dirs
      → build_directories_inner h utf8 entries inline
        ≡ ok (root_digest h (build_from h dirs).path_to_digest, (build_from h dirs).directories)
  unfolding build_directories_inner
  build_succeeds dirs g = ground arith

  -- A successful build comes from children that stand once, and are the lines of the listing.
  parts :
      (root : Digest) (dirs : Directories)
      → build_directories_inner h utf8 entries inline ≡ ok (root, dirs)
      → (c : Children) × Distinct c
        × ((p : Text) → entries_at p c ≡ lines_at utf8 inline p entries)
        × Present [] c
        × ((p : Text) → Gathers utf8 inline p entries (lines_at utf8 inline p entries))
        × All (λ (e : TreeEntry). Present (parent_key e.path) c) entries
        × (root_digest h (build_from h c).path_to_digest ≡ root)
        × ((build_from h c).directories ≡ dirs)
  unfolding lookup
  parts root dirs built = elim (Result-cases (group utf8 inline entries only_root)) [
    | inl (e, fails) ↦ absurd (ground (arith, build_fails e fails))
    | inr (c, groups) ↦
        let (d, at) = group-lines_at utf8 inline entries only_root c groups in
        let (r, is) = succeeded _ root _ dirs (sym (build_succeeds c groups) ∙ built) in
        (
          c,
          d (refl, tt),
          λ p. at p ∙ ap (λ l. l ++ lines_at utf8 inline p entries) (empty_root p),
          group-Present utf8 inline [] entries only_root c groups ([], root_there),
          λ p. group-Gathers utf8 inline p entries only_root c groups,
          group-parents utf8 inline entries only_root c groups ([], root_there),
          r,
          is,
        )
  ]

  -- If `build_directories_inner` returns directories, then for every path: either there is no
  -- directory, and no line of the listing has the path as its parent; or there is one, and its
  -- entries, sorted by name, are what the lines with this parent become, without those that are
  -- neither symlinks by their mode nor blobs nor trees, which are skipped. A line becomes a
  -- symlink with the target that was fetched, a file or a directory, with the last name of its
  -- path, its SHA-1, size and mode; an entry that is a directory may then have another digest.
  pub build_directories_inner-IsListed :
      (root : Digest) (dirs : Directories) (p : Text)
      → build_directories_inner h utf8 entries inline ≡ ok (root, dirs)
      → IsListed utf8 inline entries dirs p
  build_directories_inner-IsListed root dirs p built =
      let (c, d, at, there, gathers, parents, r, is) = parts root dirs built in
      subst (λ x. IsListed utf8 inline entries x p) is
        (build_from-IsListed c p d (at p) (gathers p) parents)

  -- If `build_directories_inner` returns directories, there is one of the empty path, and the digest
  -- that is returned is its digest.
  pub build_directories_inner-root :
      (root : Digest) (dirs : Directories)
      → build_directories_inner h utf8 entries inline ≡ ok (root, dirs)
      → (d : Directory) × (lookup [] dirs ≡ some d) × (root ≡ d.digest)
  build_directories_inner-root root dirs built =
      let (c, distinct, at, (l, there), gathers, parents, r, is) = parts root dirs built in
      let (d, digests, found, listed) = build_from-Lists c [] l distinct there in
      let digest = (build_from-IsBuilt h c distinct).digests [] in
      (d, ap (lookup []) (sym is) ∙ found, sym r ∙ root_at (build_from h c) d found digest)
