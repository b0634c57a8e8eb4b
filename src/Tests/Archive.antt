-- ===== src/Tests/Archive.antt =====
-- Listings and archives: the theorems at inputs that meet their hypotheses.
use ctxfs.Common.{
  ℕ, ◌↔◌, Text-discrete, ℕ_discrete, arith, ◌≡◌, refl, none, some, ok, List, [], ◌∷◌, ◌++◌, Text,
  text, append_assoc, split, split_cons,
}
use ctxfs.Core.Source.{split_once}
use ctxfs.Git.Tree.{TreeEntry, Utf8}
use ctxfs.Git.Tar.{
  other, any_byte, starts_with_slash, has_dot_dot, tar_path_error, strip_wrapper,
  validate_tar_entry_path,
}
use ctxfs.Git.Tar.Safe.{IsSafe, validate_tar_entry_path-IsSafe}
use ctxfs.Git.Walk.{Subtrees}
use ctxfs.Git.BlobSha1.{
  Sha1, Streams, finalize_hex, updates, new, hash, blob_object, finalize_hex-updates,
}
use ctxfs.Git.Prefetch.{FetchOptions, auto_gate}
use ctxfs.Git.Prefetch.Gate.{Elects, auto_gate-Elects}
use ctxfs.Provider.Fetcher.{tarball, auto}

abbrev utf8 : Utf8
utf8 bytes = none

accepted : validate_tar_entry_path utf8 (text "w/a/b") other ≡ ok (text "a/b")
unfolding any_byte starts_with_slash has_dot_dot tar_path_error strip_wrapper
    validate_tar_entry_path split_once split split_cons Text-discrete ℕ_discrete
accepted = refl

-- What follows the wrapper may start with `/`.
absolute : validate_tar_entry_path utf8 (text "w//a") other ≡ ok (text "/a")
unfolding any_byte starts_with_slash has_dot_dot tar_path_error strip_wrapper
    validate_tar_entry_path split_once split split_cons Text-discrete ℕ_discrete
absolute = refl

validate_tar_entry_path-IsSafe_example : IsSafe (text "w/a/b") (text "a/b")
validate_tar_entry_path-IsSafe_example =
    validate_tar_entry_path-IsSafe utf8 (text "w/a/b") other (text "a/b") accepted

abbrev tree_entry : Text → Text → Text → TreeEntry
tree_entry path entry_type sha = record {
  path = path;
  mode = text "100644";
  entry_type = entry_type;
  sha = sha;
  size = some 3;
}

-- A root, of SHA `r`, with a tree of SHA `s`; every other tree has one blob.
abbrev root_entries : List TreeEntry
root_entries =
    tree_entry (text "d") (text "tree") (text "s")
    ∷ tree_entry (text "f") (text "blob") (text "b")
    ∷ []

abbrev inner_entries : List TreeEntry
inner_entries = tree_entry (text "g") (text "blob") (text "c") ∷ []

abbrev subtrees : Subtrees
subtrees sha = elim (Text-discrete sha (text "r")) [
  | yes _ ↦ ok root_entries
  | no _ ↦ ok inner_entries
]

abbrev options : FetchOptions
options = record { prefetch = auto; prefetch_threshold_count = 1; prefetch_max_bytes = 3 }

auto_gate-Elects_example :
    (auto_gate options root_entries ≡ tarball 3 1) ↔ Elects options root_entries 3 1
unfolding Text-discrete ℕ_discrete
auto_gate-Elects_example = auto_gate-Elects options root_entries 3 1 (omega arith)

-- A hasher that keeps its bytes.
abbrev keep : List ℕ → List ℕ → List ℕ
keep bytes h = h ++ bytes

abbrev same_text : List ℕ → Text
same_text h = h

abbrev sha1 : Sha1
sha1 = record { Hasher = List ℕ; new = []; update = keep; finalize_hex = same_text }

sha1-Streams : Streams sha1
sha1-Streams a b h = append_assoc h a b

finalize_hex-updates_example :
    finalize_hex sha1 (updates sha1 ((7 ∷ []) ∷ (8 ∷ []) ∷ []) (new sha1 2))
    ≡ hash sha1 (blob_object sha1 2 (7 ∷ 8 ∷ []))
finalize_hex-updates_example = finalize_hex-updates sha1 sha1-Streams 2 ((7 ∷ []) ∷ (8 ∷ []) ∷ [])
