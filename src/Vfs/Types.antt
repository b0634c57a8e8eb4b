-- ===== src/Vfs/Types.antt =====
-- crates/ctxfs-vfs/src/types.rs, and the nodes of src/state.rs.
use ctxfs.Common.{ℕ, Bool, false, Option, List, ◌++◌, Text, text, length}
use ctxfs.Core.Digest.{Digest}
use ctxfs.Core.Error.{CtxfsError, display}

pub data NodeType : Type 0 where
  file directory symlink : NodeType

pub record NodeAttr : Type 0 where
  pub inode : ℕ
  pub parent_inode : ℕ
  pub size : ℕ
  pub kind : NodeType
  pub executable : Bool

pub record StatFsResult : Type 0 where
  pub total_bytes : ℕ
  pub free_bytes : ℕ
  pub block_size : ℕ
  pub total_files : ℕ

pub data VfsError : Type 0 where
  not_found not_dir is_dir invalid read_only : VfsError
  io : Text → VfsError
  rate_limited : (retry_after_secs : ℕ) → VfsError

-- `provider_err_to_vfs`
unfoldable pub provider_err_to_vfs : CtxfsError → Text → VfsError
provider_err_to_vfs (CtxfsError.rate_limited n) ctx = VfsError.rate_limited n
provider_err_to_vfs (CtxfsError.provider e) ctx =
    io (ctx ++ (text ": " ++ display (CtxfsError.provider e)))
provider_err_to_vfs other ctx = io (ctx ++ (text ": " ++ display other))

abbrev pub root_id : ℕ
root_id = 1

abbrev pub block_size : ℕ
block_size = 4096

pub data NodeKind : Type 0 where
  directory : Digest → Bool → NodeKind
  file : Digest → ℕ → Bool → Option (List ℕ) → NodeKind
  symlink : Text → NodeKind

pub record Node : Type 0 where
  pub id : ℕ
  pub parent : ℕ
  pub name : Text
  pub kind : NodeKind

-- `node_to_attr`
unfoldable pub attr_of : ℕ → ℕ → NodeKind → NodeAttr
attr_of id parent (NodeKind.directory digest populated) = record {
  inode = id;
  parent_inode = parent;
  size = block_size;
  kind = NodeType.directory;
  executable = false;
}
attr_of id parent (NodeKind.file digest size executable inline_content) = record {
  inode = id;
  parent_inode = parent;
  size = size;
  kind = NodeType.file;
  executable = executable;
}
attr_of id parent (NodeKind.symlink target) = record {
  inode = id;
  parent_inode = parent;
  size = length target;
  kind = NodeType.symlink;
  executable = false;
}

unfoldable pub node_to_attr : Node → NodeAttr
node_to_attr node = attr_of node.id node.parent node.kind

unfoldable pub node_type : NodeKind → NodeType
node_type (NodeKind.directory digest populated) = NodeType.directory
node_type (NodeKind.file digest size executable inline_content) = NodeType.file
node_type (NodeKind.symlink target) = NodeType.symlink
