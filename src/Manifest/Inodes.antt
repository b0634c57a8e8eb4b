-- ===== src/Manifest/Inodes.antt =====
-- crates/ctxfs-manifest/src/inode.rs: the inode table of a file system. Each method holds its locks
-- to the end of what it changes, and is one step here.
pub mod Order
pub mod Allocate
pub mod Built
use ctxfs.Common.{ℕ, Bool, true, false, Option, none, some, List, [], ◌∷◌, ◌++◌, Text, length}
use ctxfs.Common.Assoc.{lookup, insert}
use ctxfs.Common.Keys.{id_key, Name, name_key}
use ctxfs.Common.Word.{add64}
use ctxfs.Core.Digest.{Digest}

pub data InodeKind : Type 0 where
  directory : (digest : Digest) (children : List ℕ) (populated : Bool) → InodeKind
  file :
      (digest : Digest) (size : ℕ) (executable : Bool) (inline_content : Option (List ℕ))
      → InodeKind
  symlink : (target : Text) → InodeKind

pub record InodeEntry : Type 0 where
  pub ino : ℕ
  pub parent : ℕ
  pub name : Text
  pub kind : InodeKind

unfoldable pub is_dir_kind : InodeKind → Bool
is_dir_kind (directory digest children populated) = true
is_dir_kind (file digest size executable inline_content) = false
is_dir_kind (symlink target) = false

unfoldable pub is_file_kind : InodeKind → Bool
is_file_kind (directory digest children populated) = false
is_file_kind (file digest size executable inline_content) = true
is_file_kind (symlink target) = false

unfoldable pub is_symlink_kind : InodeKind → Bool
is_symlink_kind (directory digest children populated) = false
is_symlink_kind (file digest size executable inline_content) = false
is_symlink_kind (symlink target) = true

-- `InodeEntry::size`
unfoldable pub kind_size : InodeKind → ℕ
kind_size (directory digest children populated) = 0
kind_size (file digest size executable inline_content) = size
kind_size (symlink target) = length target

-- `InodeEntry::digest`
unfoldable pub kind_digest : InodeKind → Option Digest
kind_digest (directory digest children populated) = some digest
kind_digest (file digest size executable inline_content) = some digest
kind_digest (symlink target) = none

pub record InodeTable : Type 0 where
  pub inodes : List (ℕ × InodeEntry)
  pub next_ino : ℕ
  pub lookup_table : List (Name × ℕ)

-- `InodeTable::new`
abbrev pub new_table : InodeTable
new_table = record { inodes = []; next_ino = 2; lookup_table = [] }

abbrev pub root_entry : Digest → InodeEntry
root_entry digest = record { ino = 1; parent = 1; name = []; kind = directory digest [] false }

unfoldable pub insert_root : Digest → InodeTable → InodeTable
insert_root digest t = record t { inodes = insert 1 (root_entry digest) t.inodes }

-- `children.push(ino)`, for a directory.
unfoldable pub adopt : ℕ → InodeKind → InodeKind
adopt ino (directory digest children populated) =
    directory digest (children ++ (ino ∷ [])) populated
adopt ino (file digest size executable inline_content) = file digest size executable inline_content
adopt ino (symlink target) = symlink target

-- What `get_mut` is used for: the entry of this number is changed, if there is one.
unfoldable pub modify : ℕ → (InodeKind → InodeKind) → List (ℕ × InodeEntry) → List (ℕ × InodeEntry)
modify ino f inodes = elim (lookup ino inodes) [
  | none ↦ inodes
  | some entry ↦ insert ino (record entry { kind = f entry.kind }) inodes
]

unfoldable pub allocate_inode : ℕ → Text → InodeKind → InodeTable → ℕ × InodeTable
allocate_inode parent name kind t = (
  t.next_ino,
  record {
    inodes = modify parent (adopt t.next_ino) (
        insert t.next_ino (record { ino = t.next_ino; parent = parent; name = name; kind = kind })
          t.inodes);
    next_ino = add64 t.next_ino 1;
    lookup_table = insert (parent, name) t.next_ino t.lookup_table;
  },
)

-- `get` and `lookup`
unfoldable pub get_inode : ℕ → InodeTable → Option InodeEntry
get_inode ino t = lookup ino t.inodes

unfoldable pub lookup_child : ℕ → Text → InodeTable → Option ℕ
lookup_child parent name t = lookup (parent, name) t.lookup_table

unfoldable pub child_inos : InodeKind → List ℕ
child_inos (directory digest children populated) = children
child_inos (file digest size executable inline_content) = []
child_inos (symlink target) = []

-- The `filter_map` of `children`.
unfoldable pub entries_of : List (ℕ × InodeEntry) → List ℕ → List InodeEntry
entries_of inodes [] = []
entries_of inodes (ino ∷ inos) =
    let rest = entries_of inodes inos in
    elim (lookup ino inodes) [ none ↦ rest | some entry ↦ entry ∷ rest ]

unfoldable pub children_of : ℕ → InodeTable → List InodeEntry
children_of parent t = elim (lookup parent t.inodes) [
  | none ↦ []
  | some entry ↦ entries_of t.inodes (child_inos entry.kind)
]

unfoldable pub populated_of : InodeKind → Bool
populated_of (directory digest children populated) = populated
populated_of (file digest size executable inline_content) = false
populated_of (symlink target) = false

unfoldable pub is_populated : ℕ → InodeTable → Bool
is_populated ino t = elim (lookup ino t.inodes) [
  | none ↦ false
  | some entry ↦ populated_of entry.kind
]

unfoldable pub set_populated : InodeKind → InodeKind
set_populated (directory digest children populated) = directory digest children true
set_populated (file digest size executable inline_content) =
    file digest size executable inline_content
set_populated (symlink target) = symlink target

-- `mark_populated`
unfoldable pub mark_inode_populated : ℕ → InodeTable → InodeTable
mark_inode_populated ino t = record t { inodes = modify ino set_populated t.inodes }
