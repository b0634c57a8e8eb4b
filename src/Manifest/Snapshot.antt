-- ===== src/Manifest/Snapshot.antt =====
-- crates/ctxfs-manifest/src/snapshot.rs. JSON is `serde_json`'s, and a parameter where it is used.
use ctxfs.Common.{ℕ, Bool, Option, List, Text}
use ctxfs.Core.Digest.{Digest}

pub record Snapshot : Type 0 where
  pub source : Text
  pub commit_sha : Text
  pub root_directory : Digest
  pub created_at : Text

pub record FileEntry : Type 0 where
  pub name : Text
  pub digest : Digest
  pub size : ℕ
  pub executable : Bool
  pub inline_content : Option (List ℕ)

pub record DirectoryEntry : Type 0 where
  pub name : Text
  pub digest : Digest

pub record SymlinkEntry : Type 0 where
  pub name : Text
  pub target : Text

pub data DirEntry : Type 0 where
  file : FileEntry → DirEntry
  directory : DirectoryEntry → DirEntry
  symlink : SymlinkEntry → DirEntry

-- `DirEntry::name`
unfoldable pub entry_name : DirEntry → Text
entry_name (file f) = f.name
entry_name (directory d) = d.name
entry_name (symlink s) = s.name

pub record Directory : Type 0 where
  pub digest : Digest
  pub entries : List DirEntry
