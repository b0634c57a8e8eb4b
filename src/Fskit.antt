-- ===== src/Fskit.antt =====
-- crates/ctxfs-fskit/src/adapter.rs: nodes and errors in the terms of FSKit. The ids of the user and the
-- group, and the numbers of errors and item types, are those of the system and of `fskit_rs`.
use ctxfs.Common.{ℕ, ◌+◌, ◌-◌, ◌<◌, ◌≤◌, ◌≡◌, Bool, Text, ltb, leb, if◌then◌else◌, arith}
use ctxfs.Common.Word.{u64_mod}
use ctxfs.Vfs.Types.{NodeType, NodeAttr, VfsError}

abbrev pub fskit_root_id : ℕ
fskit_root_id = 2

-- `saturating_add(1)` in 64 bits.
unfoldable pub vfs_to_fskit_inode : ℕ → ℕ
vfs_to_fskit_inode vfs_id = if ltb (vfs_id + 1) u64_mod then vfs_id + 1 else vfs_id

-- The assertion is for debugging only.
unfoldable pub fskit_to_vfs_inode : ℕ → ℕ
fskit_to_vfs_inode fskit_id = if leb 1 (fskit_id - 1) then fskit_id - 1 else 1

pub data ItemType : Type 0 where
  file directory symlink : ItemType

unfoldable pub node_type_to_item_type : NodeType → ItemType
node_type_to_item_type NodeType.file = ItemType.file
node_type_to_item_type NodeType.directory = ItemType.directory
node_type_to_item_type NodeType.symlink = ItemType.symlink

-- The fields that are set; the others are the default.
pub record ItemAttributes : Type 0 where
  pub file_id : ℕ
  pub parent_id : ℕ
  pub item_type : ItemType
  pub mode : ℕ
  pub uid : ℕ
  pub gid : ℕ
  pub link_count : ℕ
  pub size : ℕ
  pub alloc_size : ℕ

-- 0o555, 0o444 and 0o777.
unfoldable pub mode_of : NodeType → Bool → ℕ
mode_of NodeType.directory executable = 365
mode_of NodeType.file executable = if executable then 365 else 292
mode_of NodeType.symlink executable = 511

unfoldable pub link_count_of : NodeType → ℕ
link_count_of NodeType.directory = 2
link_count_of NodeType.file = 1
link_count_of NodeType.symlink = 1

unfoldable pub node_attr_to_item_attributes : (uid gid : ℕ) → NodeAttr → ItemAttributes
node_attr_to_item_attributes uid gid attr = record {
  file_id = vfs_to_fskit_inode attr.inode;
  parent_id = vfs_to_fskit_inode attr.parent_inode;
  item_type = node_type_to_item_type attr.kind;
  mode = mode_of attr.kind attr.executable;
  uid = uid;
  gid = gid;
  link_count = link_count_of attr.kind;
  size = attr.size;
  alloc_size = attr.size;
}

pub record Item : Type 0 where
  pub name : Text
  pub attributes : ItemAttributes

unfoldable pub make_item : (uid gid : ℕ) → Text → NodeAttr → Item
make_item uid gid name attr = record {
  name = name;
  attributes = node_attr_to_item_attributes uid gid attr;
}

-- The numbers of `libc`.
pub data Errno : Type 0 where
  enoent enotdir eisdir einval erofs eio eagain : Errno

unfoldable pub vfs_err_to_fskit : VfsError → Errno
vfs_err_to_fskit VfsError.not_found = enoent
vfs_err_to_fskit VfsError.not_dir = enotdir
vfs_err_to_fskit VfsError.is_dir = eisdir
vfs_err_to_fskit VfsError.invalid = einval
vfs_err_to_fskit VfsError.read_only = erofs
vfs_err_to_fskit (VfsError.io e) = eio
vfs_err_to_fskit (VfsError.rate_limited n) = eagain

-- Every inode from the root on, but the last of 64 bits, is the image of itself, and its image is an
-- inode that FSKit does not reserve.
fskit_to_vfs_inode-vfs_to_fskit_inode :
    (id : ℕ)
    → 1 ≤ id
    → id + 1 < u64_mod
    → (fskit_to_vfs_inode (vfs_to_fskit_inode id) ≡ id) × (fskit_root_id ≤ vfs_to_fskit_inode id)
unfolding fskit_to_vfs_inode vfs_to_fskit_inode
fskit_to_vfs_inode-vfs_to_fskit_inode id le fits = (ground arith, ground arith)

-- Two inodes that an item shows as one are one, where they are not the last of 64 bits.
vfs_to_fskit_inode-injective :
    (a b : ℕ)
    → a + 1 < u64_mod
    → b + 1 < u64_mod
    → vfs_to_fskit_inode a ≡ vfs_to_fskit_inode b
    → a ≡ b
unfolding vfs_to_fskit_inode
vfs_to_fskit_inode-injective a b fa fb h = ground arith
