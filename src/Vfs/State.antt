-- ===== src/Vfs/State.antt =====
-- crates/ctxfs-vfs/src/state.rs: the operations of `VfsState`. Each returns its result and the
-- state after; an operation that reads files has `none` for a panic.
pub mod Names
pub mod Lookup
pub mod Listed
pub mod Reading
pub mod Runs
pub mod Subpath
use ctxfs.Common.{
  ℕ, ◌+◌, ◌*◌, ◌%◌, ◌-◌, Bool, true, false, Option, none, some, Result, ok, err, List, [], ◌∷◌,
  ◌++◌, Text, text, text_key, Text-discrete, holds, length, min, ltb, if◌then◌else◌, take, drop,
  split,
}
use ctxfs.Common.Assoc.{lookup, insert}
use ctxfs.Common.Word.{add64, u64_mod}
use ctxfs.Core.Digest.{Digest, FilePath}
use ctxfs.Core.Error.{CtxfsError}
use ctxfs.Cache.LinkedMap.{LinkedHashMap}
use ctxfs.Cache.State.{CacheEntry}
use ctxfs.Cache.Blob.{BlobCache, Bytes, Os, WriteOutcome}
use ctxfs.Cache.Blob
use ctxfs.Manifest.Snapshot.{DirEntry, Directory, Snapshot}
use ctxfs.Vfs.Types.{
  Node, NodeAttr, NodeType, NodeKind, StatFsResult, VfsError, provider_err_to_vfs, node_to_attr,
  node_type, root_id, block_size, not_found, not_dir, is_dir, invalid, io,
}
use ctxfs.Vfs.Tables.{Tables, Provider, id_key, name_key, ensure_populated}

unfoldable pub getattr : ℕ → Tables → Result NodeAttr VfsError
getattr inode t = elim (lookup inode t.nodes) [
  | none ↦ err not_found
  | some node ↦ ok (node_to_attr node)
]

-- The node of an id that `lookup` has found.
unfoldable pub found : ℕ → Tables → Result (ℕ × NodeAttr) VfsError
found id t = elim (lookup id t.nodes) [
  | none ↦ err not_found
  | some node ↦ ok (id, node_to_attr node)
]

unfoldable pub lookup_cached : ℕ → Text → Tables → Result (ℕ × NodeAttr) VfsError
lookup_cached parent name t = elim (lookup (parent, name) t.dir_cache) [
  | none ↦ err not_found
  | some id ↦ found id t
]

unfoldable pub parent_of : ℕ → Tables → ℕ
parent_of parent t = elim (lookup parent t.nodes) [ none ↦ root_id | some n ↦ n.parent ]

-- `lookup` of a name that is neither `.` nor `..`
unfoldable pub lookup_name : Provider → ℕ → Text → Tables → Result (ℕ × NodeAttr) VfsError × Tables
lookup_name p parent name t = elim (lookup (parent, name) t.dir_cache) [
  | some id ↦ (found id t, t)
  | none ↦
      let (populated, t') = ensure_populated p parent t in
      elim populated [ err e ↦ (err e, t') | ok ids ↦ (lookup_cached parent name t', t') ]
]

unfoldable pub lookup_node : Provider → ℕ → Text → Tables → Result (ℕ × NodeAttr) VfsError × Tables
lookup_node p parent name t =
    if holds (Text-discrete name (text "."))
    then (found parent t, t)
    else if holds (Text-discrete name (text ".."))
    then (found (parent_of parent t) t, t)
    else lookup_name p parent name t

-- The entries of the children that are in the table.
unfoldable pub list_nodes : Tables → List ℕ → List (ℕ × Text × NodeType)
list_nodes t [] = []
list_nodes t (child_id ∷ child_ids) =
    let rest = list_nodes t child_ids in
    elim (lookup child_id t.nodes) [
      | none ↦ rest
      | some node ↦ (node.id, node.name, node_type node.kind) ∷ rest
    ]

unfoldable pub readdir :
    Provider → ℕ → Tables → Result (List (ℕ × Text × NodeType)) VfsError × Tables
readdir p inode t =
    let (populated, t') = ensure_populated p inode t in
    elim populated [ err e ↦ (err e, t') | ok child_ids ↦ (ok (list_nodes t' child_ids), t') ]

unfoldable pub link_target : NodeKind → Result Text VfsError
link_target (NodeKind.symlink target) = ok target
link_target (NodeKind.directory digest populated) = err invalid
link_target (NodeKind.file digest size executable inline_content) = err invalid

unfoldable pub readlink : ℕ → Tables → Result Text VfsError
readlink inode t = elim (lookup inode t.nodes) [
  | none ↦ err not_found
  | some node ↦ link_target node.kind
]

unfoldable pub statfs : Tables → StatFsResult
statfs t = record {
  total_bytes = 1024 * 1024 * 1024;
  free_bytes = 0;
  block_size = block_size;
  total_files = length t.nodes;
}

-- The digest of the first directory entry of this name.
unfoldable pub find_directory : Text → List DirEntry → Option Digest
find_directory component [] = none
find_directory component (DirEntry.directory d ∷ entries) =
    if holds (Text-discrete d.name component)
    then some d.digest
    else find_directory component entries
find_directory component (DirEntry.file f ∷ entries) = find_directory component entries
find_directory component (DirEntry.symlink s ∷ entries) = find_directory component entries

unfoldable pub walk_step : Provider → Digest → Text → Result Digest VfsError
walk_step p current component = elim (p.fetch_directory current) [
  | err e ↦ err (provider_err_to_vfs e (text "fetch_directory_for_subpath"))
  | ok content ↦ elim (p.parse_directory content) [
    | err e ↦ err (io (text "parsing directory: " ++ e))
    | ok directory ↦ elim (find_directory component directory.entries) [
      | none ↦ err not_found
      | some digest ↦ ok digest
    ]
  ]
]

-- The loop of `resolve_subpath` over the components that are not empty.
unfoldable pub walk : Provider → Digest → List Text → Result Digest VfsError
walk p current [] = ok current
walk p current ([] ∷ components) = walk p current components
walk p current ((c ∷ cs) ∷ components) = elim (walk_step p current (c ∷ cs)) [
  | err e ↦ err e
  | ok next ↦ walk p next components
]

abbrev pub root_node : Digest → Node
root_node digest = record {
  id = root_id;
  parent = root_id;
  name = text "/";
  kind = NodeKind.directory digest false;
}

abbrev pub root_tables : Digest → Tables
root_tables digest = record {
  next_id = 2;
  nodes = (root_id, root_node digest) ∷ [];
  dir_cache = [];
  dir_children = [];
}

-- `new`: the root alone, moved to the subpath if there is one.
unfoldable pub new_tables : Provider → Snapshot → Option Text → Result Tables VfsError
new_tables p snapshot none = ok (root_tables snapshot.root_directory)
new_tables p snapshot (some subpath) = elim (walk p snapshot.root_directory (split b'/' subpath)) [
  | err e ↦ err e
  | ok digest ↦ ok (root_tables digest)
]

-- `data[start..end]`, which panics if the end is before the start; `offset + count` is in 64 bits.
unfoldable pub slice : Bytes → ℕ → ℕ → Option Bytes
slice content offset count =
    let total = length content in
    let start = min offset total in
    let end = min (add64 offset count) total in
    if ltb end start then none else some (take (end - start) (drop start content))

module _ (m : LinkedHashMap Text CacheEntry) (os : Os) where
  -- What is not inlined comes from the cache, or from the provider and then goes to the cache;
  -- that this write may fail is only logged.
  unfoldable pub fetch_blob :
      Provider → WriteOutcome → BlobCache m → Digest → Option (Result Bytes VfsError × BlobCache m)
  fetch_blob p outcome c digest = elim (Blob.get m os c digest) [
    | none ↦ none
    | some (some content, c') ↦ some (ok content, c')
    | some (none, c') ↦ elim (p.fetch_blob digest) [
      | err e ↦ some (err (provider_err_to_vfs e (text "fetch_blob")), c')
      | ok content ↦ elim (Blob.put m os outcome c' digest content) [
        | none ↦ none
        | some (r, c'') ↦ some (ok content, c'')
      ]
    ]
  ]

  unfoldable pub fetch_file_bytes :
      Provider
      → WriteOutcome
      → BlobCache m
      → NodeKind
      → Option (Result Bytes VfsError × BlobCache m)
  fetch_file_bytes p outcome c (NodeKind.file digest size executable (some content)) =
      some (ok content, c)
  fetch_file_bytes p outcome c (NodeKind.file digest size executable none) =
      fetch_blob p outcome c digest
  fetch_file_bytes p outcome c (NodeKind.directory digest populated) = some (err is_dir, c)
  fetch_file_bytes p outcome c (NodeKind.symlink target) = some (err is_dir, c)

  unfoldable pub read :
      Provider
      → WriteOutcome
      → ℕ
      → ℕ
      → ℕ
      → Tables
      → BlobCache m
      → Option (Result Bytes VfsError × BlobCache m)
  read p outcome inode offset count t c = elim (lookup inode t.nodes) [
    | none ↦ some (err not_found, c)
    | some node ↦ elim (fetch_file_bytes p outcome c node.kind) [
      | none ↦ none
      | some (err e, c') ↦ some (err e, c')
      | some (ok content, c') ↦ elim (slice content offset count) [
        | none ↦ none
        | some piece ↦ some (ok piece, c')
      ]
    ]
  ]
