-- ===== src/Nfs.antt =====
-- crates/ctxfs-nfs/src/fs.rs: the file system of a mount as an NFS server. That a name is UTF-8 is
-- `std::str`'s test, and a parameter of `nfs_lookup`.
pub mod Paging
use ctxfs.Common.{
  ℕ, ◌+◌, Bool, true, false, ◌||◌, Option, none, some, Result, ok, err, List, [], ◌∷◌, ◌++◌, Text,
  text_key, length, leb, ◌==◌, if◌then◌else◌,
}
use ctxfs.Common.Word.{add64}
use ctxfs.Cache.LinkedMap.{LinkedHashMap}
use ctxfs.Cache.State.{CacheEntry}
use ctxfs.Cache.Blob.{BlobCache, Bytes, Os, WriteOutcome}
use ctxfs.Vfs.Types.{NodeAttr, NodeType, VfsError, block_size}
use ctxfs.Vfs.Tables.{Tables, Provider}
use ctxfs.Vfs.State.{getattr, lookup_node, readdir, readlink, read}

pub data NfsStat : Type 0 where
  noent notdir isdir inval rofs io_error jukebox : NfsStat

pub data FileType : Type 0 where
  nf3dir nf3reg nf3lnk : FileType

-- `fattr3`, without the fields that are the same for every file.
pub record Fattr3 : Type 0 where
  pub ftype : FileType
  pub mode : ℕ
  pub nlink : ℕ
  pub size : ℕ
  pub used : ℕ
  pub fileid : ℕ

-- The modes are 0o555, 0o444 and 0o777.
unfoldable pub fattr3_of : NodeType → NodeAttr → Fattr3
fattr3_of NodeType.directory attr = record {
  ftype = nf3dir;
  mode = 365;
  nlink = 2;
  size = block_size;
  used = block_size;
  fileid = attr.inode;
}
fattr3_of NodeType.file attr = record {
  ftype = nf3reg;
  mode = if attr.executable then 365 else 292;
  nlink = 1;
  size = attr.size;
  used = attr.size;
  fileid = attr.inode;
}
fattr3_of NodeType.symlink attr = record {
  ftype = nf3lnk;
  mode = 511;
  nlink = 1;
  size = attr.size;
  used = attr.size;
  fileid = attr.inode;
}

unfoldable pub attr_to_fattr3 : NodeAttr → Fattr3
attr_to_fattr3 attr = fattr3_of attr.kind attr

unfoldable pub vfs_err_to_nfs : VfsError → NfsStat
vfs_err_to_nfs VfsError.not_found = noent
vfs_err_to_nfs VfsError.not_dir = notdir
vfs_err_to_nfs VfsError.is_dir = isdir
vfs_err_to_nfs VfsError.invalid = inval
vfs_err_to_nfs VfsError.read_only = rofs
vfs_err_to_nfs (VfsError.io e) = io_error
vfs_err_to_nfs (VfsError.rate_limited n) = jukebox

-- `?` after `map_err(vfs_err_to_nfs)`.
unfoldable pub nfs_result : {A : Type 0} → Result A VfsError → Result A NfsStat
nfs_result (ok a) = ok a
nfs_result (err e) = err (vfs_err_to_nfs e)

unfoldable pub nfs_lookup :
    (List ℕ → Bool) → Provider → ℕ → List ℕ → Tables → Result ℕ NfsStat × Tables
nfs_lookup is_utf8 p dirid filename t = elim (is_utf8 filename) [
  | false ↦ (err inval, t)
  | true ↦
      let (r, t') = lookup_node p dirid filename t in
      elim r [ err e ↦ (err (vfs_err_to_nfs e), t') | ok found ↦ (ok found.0, t') ]
]

unfoldable pub nfs_getattr : ℕ → Tables → Result Fattr3 NfsStat
nfs_getattr id t = elim (getattr id t) [
  | err e ↦ err (vfs_err_to_nfs e)
  | ok attr ↦ ok (attr_to_fattr3 attr)
]

unfoldable pub nfs_readlink : ℕ → Tables → Result Text NfsStat
nfs_readlink id t = nfs_result (readlink id t)

pub record NfsDirEntry : Type 0 where
  pub fileid : ℕ
  pub name : Text
  pub attr : Fattr3

pub record ReadDirResult : Type 0 where
  pub entries : List NfsDirEntry
  pub end : Bool

abbrev pub Child : Type 0
Child = ℕ × Text × NodeType

-- The loop of `readdir` over the children.
unfoldable pub page_loop :
    Tables → ℕ → ℕ → Bool → List NfsDirEntry → List Child → Result (List NfsDirEntry) NfsStat
page_loop t start_after max_entries started entries [] = ok entries
page_loop t start_after max_entries false entries ((child_id, name, kind) ∷ children) =
    page_loop t start_after max_entries (child_id == start_after) entries children
page_loop t start_after max_entries true entries ((child_id, name, kind) ∷ children) =
    elim (leb max_entries (length entries)) [
      | true ↦ ok entries
      | false ↦ elim (getattr child_id t) [
        | err e ↦ err (vfs_err_to_nfs e)
        | ok attr ↦
            page_loop t start_after max_entries true
              (entries
                ++ (record { fileid = child_id; name = name; attr = attr_to_fattr3 attr } ∷ []))
              children
      ]
    ]

unfoldable pub last_fileid : List NfsDirEntry → Option ℕ
last_fileid [] = none
last_fileid (e ∷ []) = some e.fileid
last_fileid (e ∷ f ∷ es) = last_fileid (f ∷ es)

unfoldable pub last_child : List Child → Option ℕ
last_child [] = none
last_child (c ∷ []) = some c.0
last_child (c ∷ d ∷ cs) = last_child (d ∷ cs)

-- The `match` that sets `end`.
unfoldable pub at_end : Option ℕ → Option ℕ → Bool
at_end none total_last = true
at_end (some last) none = true
at_end (some last) (some total_last) = last == total_last

unfoldable pub nfs_readdir : Provider → ℕ → ℕ → ℕ → Tables → Result ReadDirResult NfsStat × Tables
nfs_readdir p dirid start_after max_entries t =
    let (listed, t') = readdir p dirid t in
    elim listed [
      | err e ↦ (err (vfs_err_to_nfs e), t')
      | ok children ↦ elim (page_loop t' start_after max_entries (start_after == 0) [] children) [
        | err e ↦ (err e, t')
        | ok entries ↦ (
          ok (record {
            entries = entries;
            end = at_end (last_fileid entries) (last_child children);
          }),
          t',
        )
      ]
    ]

module _ (m : LinkedHashMap Text CacheEntry) (os : Os) where
  -- `read`, with its end-of-file flag.
  unfoldable pub nfs_read :
      Provider
      → WriteOutcome
      → ℕ
      → ℕ
      → ℕ
      → Tables
      → BlobCache m
      → Option (Result (Bytes × Bool) NfsStat × BlobCache m)
  nfs_read p outcome id offset count t c = elim (getattr id t) [
    | err e ↦ some (err (vfs_err_to_nfs e), c)
    | ok attr ↦ elim (read m os p outcome id offset count t c) [
      | none ↦ none
      | some (err e, c') ↦ some (err (vfs_err_to_nfs e), c')
      | some (ok content, c') ↦
          some (ok (content, leb attr.size (add64 offset (length content))), c')
    ]
  ]
