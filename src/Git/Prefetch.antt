-- ===== src/Git/Prefetch.antt =====
-- crates/ctxfs-provider-git/src/github.rs: what of a listing is fetched ahead of the reads. The
-- requests to the server are not modelled.
pub mod Gate
use ctxfs.Common.{
  ℕ, Bool, true, false, Option, none, some, Result, ok, err, List, [], ◌∷◌, ◌++◌, Text, text,
  text_key, Text-discrete, ltb, leb, if◌then◌else◌, holds, length, not,
}
use ctxfs.Common.Assoc.{insert}
use ctxfs.Core.Digest.{Digest, from_sha1_hex}
use ctxfs.Core.Error.{CtxfsError, invalid_source}
use ctxfs.Core.Source.{SourceSpec, split_once}
use ctxfs.Git.Tree.{TreeEntry, mode_symlink, small_blob_threshold_bytes, text_before}
use ctxfs.Provider.Fetcher.{
  ContentRequest, ContentKind, PrefetchPolicy, auto, force, disabled, PrefetchPolicy-discrete,
  FetchPolicy, known_bytes, decide_policy,
}

unfoldable pub owner_repo : SourceSpec → Result (Text × Text) CtxfsError
owner_repo source = elim (split_once b'/' source.name) [
  | none ↦ err (
      invalid_source
        (text "expected owner/repo in name '" ++ (source.name ++ text "', got no '/'")))
  | some pair ↦ ok pair
]

-- `FetchOptions`, and its default.
pub record FetchOptions : Type 0 where
  pub prefetch : PrefetchPolicy
  pub prefetch_threshold_count : ℕ
  pub prefetch_max_bytes : ℕ

abbrev pub default_options : FetchOptions
default_options = record {
  prefetch = disabled;
  prefetch_threshold_count = 30;
  prefetch_max_bytes = 268435456;
}

abbrev pub is_blob : TreeEntry → Bool
is_blob entry = holds (Text-discrete entry.entry_type (text "blob"))

unfoldable pub is_small : Option ℕ → Bool
is_small none = false
is_small (some n) = leb n small_blob_threshold_bytes

-- `BTreeSet::insert` of texts: a list in strict order.
unfoldable pub set_insert : Text → List Text → List Text
set_insert s [] = s ∷ []
set_insert s (t ∷ seen) =
    let rest = set_insert s seen in
    if text_before s t
    then s ∷ t ∷ seen
    else if holds (Text-discrete s t)
    then t ∷ seen
    else t ∷ rest

unfoldable pub small_blob_shas_from : List Text → List TreeEntry → List Text
small_blob_shas_from seen [] = seen
small_blob_shas_from seen (e ∷ entries) =
    small_blob_shas_from
      (if not (is_blob e) then seen else if is_small e.size then set_insert e.sha seen else seen)
      entries

unfoldable pub small_blob_shas : List TreeEntry → List Text
small_blob_shas entries = small_blob_shas_from [] entries

-- The set of the SHAs of symlinks, as a list.
unfoldable pub symlink_shas : List TreeEntry → List Text
symlink_shas [] = []
symlink_shas (e ∷ entries) =
    let rest = symlink_shas entries in
    if not (is_blob e)
    then rest
    else if holds (Text-discrete e.mode mode_symlink)
    then e.sha ∷ rest
    else rest

-- Has a blob no size?
unfoldable pub any_unknown : List TreeEntry → Bool
any_unknown [] = false
any_unknown (e ∷ entries) =
    let rest = any_unknown entries in
    if not (is_blob e) then rest else elim e.size [ none ↦ true | some n ↦ rest ]

unfoldable pub effective_prefetch_policy : List TreeEntry → PrefetchPolicy → PrefetchPolicy
effective_prefetch_policy entries policy =
    if not (holds (PrefetchPolicy-discrete policy auto))
    then policy
    else if any_unknown entries
    then disabled
    else policy

unfoldable pub tree_entry_to_request : TreeEntry → Option ContentRequest
tree_entry_to_request entry =
    if not (is_blob entry)
    then none
    else some (record {
      path = entry.path;
      digest = some (from_sha1_hex entry.sha);
      size = entry.size;
      kind =
          if holds (Text-discrete entry.mode mode_symlink)
          then ContentKind.symlink
          else ContentKind.file;
    })

-- `tree.iter().filter_map(Self::tree_entry_to_request)`
unfoldable pub requests_of : List TreeEntry → List ContentRequest
requests_of [] = []
requests_of (e ∷ entries) =
    let rest = requests_of entries in
    elim (tree_entry_to_request e) [ none ↦ rest | some r ↦ r ∷ rest ]

abbrev pub or_0 : Option ℕ → ℕ
or_0 none = 0
or_0 (some n) = n

-- A later request of the same path replaces an earlier one.
unfoldable pub index_requests :
    List (Text × (Text × ℕ)) → List ContentRequest → List (Text × (Text × ℕ))
index_requests index [] = index
index_requests index (r ∷ requests) = elim r.digest [
  | none ↦ index_requests index requests
  | some digest ↦ index_requests (insert r.path (digest.hex, or_0 r.size) index) requests
]

unfoldable pub build_path_to_sha_size_from_requests : List ContentRequest → List (Text × (Text × ℕ))
build_path_to_sha_size_from_requests requests = index_requests [] requests

-- The decision of `fetch_snapshot_inner` on the archive of a listing.
unfoldable pub auto_gate : FetchOptions → List TreeEntry → FetchPolicy
auto_gate options entries =
    if holds (PrefetchPolicy-discrete options.prefetch disabled)
    then FetchPolicy.lazy
    else let requests = requests_of entries in
      decide_policy (length requests) (known_bytes requests)
        (effective_prefetch_policy entries options.prefetch) options.prefetch_threshold_count
        options.prefetch_max_bytes
