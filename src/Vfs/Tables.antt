-- ===== src/Vfs/Tables.antt =====
-- crates/ctxfs-vfs/src/state.rs: the inode tables, and the population of a directory. An
-- operation takes the provider as it answers during that operation.
use ctxfs.Common.{
  ℕ, true, false, none, some, Result, ok, err, List, [], ◌∷◌, ◌++◌, Text, text, text_key,
}
use ctxfs.Common.Assoc.{lookup, insert}
use ctxfs.Common.Word.{add64}
pub use ctxfs.Common.Keys.{id_key, Name, name_key}
unfoldable pub use ctxfs.Common.Keys.{Name-discrete}
use ctxfs.Core.Digest.{Digest}
use ctxfs.Core.Error.{CtxfsError}
use ctxfs.Manifest.Snapshot.{DirEntry, Directory, entry_name}
use ctxfs.Vfs.Types.{Node, NodeKind, VfsError, provider_err_to_vfs, not_found, not_dir, io}

-- What a mount asks of the outside: the provider's listings and blobs, and JSON.
pub record Provider : Type 0 where
  pub fetch_directory : Digest → Result (List ℕ) CtxfsError
  pub fetch_blob : Digest → Result (List ℕ) CtxfsError
  pub parse_directory : List ℕ → Result Directory Text

pub record Tables : Type 0 where
  pub next_id : ℕ
  pub nodes : List (ℕ × Node)
  pub dir_cache : List (Name × ℕ)
  pub dir_children : List (ℕ × List ℕ)

-- The node of a directory entry.
unfoldable pub entry_kind : DirEntry → NodeKind
entry_kind (DirEntry.file f) = NodeKind.file f.digest f.size f.executable f.inline_content
entry_kind (DirEntry.directory d) = NodeKind.directory d.digest false
entry_kind (DirEntry.symlink s) = NodeKind.symlink s.target

-- One round of the loop over the entries: the child's id, new or known.
unfoldable pub add_child : ℕ → DirEntry → Tables → Tables × ℕ
add_child dirid entry t = elim (lookup (dirid, entry_name entry) t.dir_cache) [
  | some existing ↦ (t, existing)
  | none ↦ (
    record t {
      next_id = add64 t.next_id 1;
      nodes =
          insert t.next_id
            (record {
              id = t.next_id;
              parent = dirid;
              name = entry_name entry;
              kind = entry_kind entry;
            })
            t.nodes;
      dir_cache = insert (dirid, entry_name entry) t.next_id t.dir_cache;
    },
    t.next_id,
  )
]

unfoldable pub add_children : ℕ → List DirEntry → Tables → Tables × List ℕ
add_children dirid [] t = (t, [])
add_children dirid (entry ∷ entries) t =
    let (t1, child_id) = add_child dirid entry t in
    let (t2, child_ids) = add_children dirid entries t1 in (t2, child_id ∷ child_ids)

unfoldable pub populated_kind : NodeKind → NodeKind
populated_kind (NodeKind.directory digest populated) = NodeKind.directory digest true
populated_kind (NodeKind.file digest size executable inline_content) =
    NodeKind.file digest size executable inline_content
populated_kind (NodeKind.symlink target) = NodeKind.symlink target

unfoldable pub marked : Node → Node
marked node = record node { kind = populated_kind node.kind }

-- `*populated = true`, if the node is there and a directory.
unfoldable pub mark_populated : ℕ → List (ℕ × Node) → List (ℕ × Node)
mark_populated dirid nodes = elim (lookup dirid nodes) [
  | none ↦ nodes
  | some node ↦ insert dirid (marked node) nodes
]

-- The children are in the tables: mark the directory and keep their list.
unfoldable pub populate : ℕ → List DirEntry → Tables → Tables × List ℕ
populate dirid entries t =
    let (t', child_ids) = add_children dirid entries t in
    (
      record t' {
        nodes = mark_populated dirid t'.nodes;
        dir_children = insert dirid child_ids t'.dir_children;
      },
      child_ids,
    )

unfoldable pub fetch_and_populate :
    Provider → ℕ → Digest → Tables → Result (List ℕ) VfsError × Tables
fetch_and_populate p dirid digest t = elim (p.fetch_directory digest) [
  | err e ↦ (err (provider_err_to_vfs e (text "fetch_directory")), t)
  | ok content ↦ elim (p.parse_directory content) [
    | err e ↦ (err (io (text "parse directory: " ++ e)), t)
    | ok directory ↦ let (t', child_ids) = populate dirid directory.entries t in (ok child_ids, t')
  ]
]

unfoldable pub ensure_populated : Provider → ℕ → Tables → Result (List ℕ) VfsError × Tables
ensure_populated p dirid t = elim (lookup dirid t.nodes) [
  | none ↦ (err not_found, t)
  | some node ↦ elim node.kind [
    | NodeKind.directory digest true ↦ elim (lookup dirid t.dir_children) [
      | some children ↦ (ok children, t)
      | none ↦ fetch_and_populate p dirid digest t
    ]
    | NodeKind.directory digest false ↦ fetch_and_populate p dirid digest t
    | _ ↦ (err not_dir, t)
  ]
]
