-- ===== src/Git/Tree.antt =====
-- crates/ctxfs-provider-git/src/github.rs: `build_directories_inner`, from the flat listing of a tree
-- to its directories. JSON, SHA-256 and the UTF-8 test are parameters.
pub mod Depth
pub mod Merkle
pub mod Grouping
pub mod Listing
pub mod Built
pub mod Total
use ctxfs.Common.{
  ℕ, ◌+◌, Bool, true, false, Option, none, some, Result, ok, err, List, [], ◌∷◌, ◌++◌, map, Text,
  text, text_key, Text-discrete, ltb, leb, ◌==◌, if◌then◌else◌, holds, length,
}
use ctxfs.Common.Assoc.{lookup, insert, remove}
use ctxfs.Common.Sort.{sort_by}
use ctxfs.Core.Digest.{Digest, sha256, from_sha1_hex}
use ctxfs.Core.Error.{CtxfsError, provider}
use ctxfs.Core.Source.{rsplit_once}
use ctxfs.Manifest.Snapshot.{
  DirEntry, FileEntry, DirectoryEntry, SymlinkEntry, Directory, entry_name,
}

pub record TreeEntry : Type 0 where
  pub path : Text
  pub mode : Text
  pub entry_type : Text
  pub sha : Text
  pub size : Option ℕ

-- `str::from_utf8`: the text of its error, if the bytes are not UTF-8.
abbrev pub Utf8 : Type 0
Utf8 = List ℕ → Option Text

-- `serde_json::to_vec` of entries, and SHA-256 in hexadecimal.
pub record Hashing : Type 0 where
  pub to_json : List DirEntry → List ℕ
  pub sha256_hex : List ℕ → Text

-- `Directory::compute_digest`
unfoldable pub compute_digest : Hashing → List DirEntry → Digest
compute_digest h entries = record { algorithm = sha256; hex = h.sha256_hex (h.to_json entries) }

unfoldable pub parent_path : Text → Option Text
parent_path path = elim (rsplit_once b'/' path) [ none ↦ none | some (parent, name) ↦ some parent ]

unfoldable pub file_name : Text → Text
file_name path = elim (rsplit_once b'/' path) [ none ↦ path | some (parent, name) ↦ name ]

abbrev pub mode_symlink : Text
mode_symlink = text "120000"

abbrev pub mode_executable : Text
mode_executable = text "100755"

abbrev pub small_blob_threshold_bytes : ℕ
small_blob_threshold_bytes = 4096

-- The prefetched blobs by their SHA.
abbrev pub Inline : Type 0
Inline = List (Text × List ℕ)

-- `dir_children`
abbrev pub Children : Type 0
Children = List (Text × List DirEntry)

-- `dir_children.entry(path).or_default()`
unfoldable pub ensure_dir : Text → Children → Children
ensure_dir path dirs = elim (lookup path dirs) [ none ↦ insert path [] dirs | some entries ↦ dirs ]

abbrev pub entries_at : Text → Children → List DirEntry
entries_at path dirs = elim (lookup path dirs) [ none ↦ [] | some entries ↦ entries ]

-- `dir_children.entry(path).or_default().push(entry)`
unfoldable pub push_entry : Text → DirEntry → Children → Children
push_entry path entry dirs = insert path (entries_at path dirs ++ (entry ∷ [])) dirs

unfoldable pub missing_symlink : TreeEntry → CtxfsError
missing_symlink entry = provider (
    text "symlink sha "
    ++ (entry.sha
        ++ (text " (path '"
            ++ (entry.path
                ++ text "') missing from inline map; prefetch must include all symlink SHAs"))))

unfoldable pub invalid_symlink : TreeEntry → Text → CtxfsError
invalid_symlink entry e = provider (
    text "symlink target for '"
    ++ (entry.path ++ (text "' (sha " ++ (entry.sha ++ (text ") is not valid UTF-8: " ++ e)))))

-- The target of a symlink: with no map it is left empty.
unfoldable pub symlink_target : Utf8 → Option Inline → TreeEntry → Result Text CtxfsError
symlink_target utf8 none entry = ok []
symlink_target utf8 (some inline) entry = elim (lookup entry.sha inline) [
  | none ↦ err (missing_symlink entry)
  | some bytes ↦ elim (utf8 bytes) [ some e ↦ err (invalid_symlink entry e) | none ↦ ok bytes ]
]

abbrev pub size_or_0 : Option ℕ → ℕ
size_or_0 none = 0
size_or_0 (some n) = n

unfoldable pub inline_content_of : Option Inline → ℕ → Text → Option (List ℕ)
inline_content_of none size sha = none
inline_content_of (some inline) size sha =
    if leb size small_blob_threshold_bytes then lookup sha inline else none

-- The entry that a line of the listing becomes; a submodule or an unknown type is skipped.
unfoldable pub dir_entry_of : Utf8 → Option Inline → TreeEntry → Result (Option DirEntry) CtxfsError
dir_entry_of utf8 inline entry =
    if holds (Text-discrete entry.mode mode_symlink)
    then elim (symlink_target utf8 inline entry) [
      | err e ↦ err e
      | ok target ↦
          ok (some (DirEntry.symlink (record { name = file_name entry.path; target = target })))
    ]
    else if holds (Text-discrete entry.entry_type (text "blob"))
    then ok (
        some (
          DirEntry.file (record {
            name = file_name entry.path;
            digest = from_sha1_hex entry.sha;
            size = size_or_0 entry.size;
            executable = holds (Text-discrete entry.mode mode_executable);
            inline_content = inline_content_of inline (size_or_0 entry.size) entry.sha;
          })))
    else if holds (Text-discrete entry.entry_type (text "tree"))
    then ok (
        some (
          DirEntry.directory
            (record { name = file_name entry.path; digest = from_sha1_hex entry.sha })))
    else ok none

-- `parent.unwrap_or_default()`
abbrev pub parent_key : Text → Text
parent_key path = elim (parent_path path) [ none ↦ [] | some parent ↦ parent ]

-- The directories that a line makes sure of: its own, if it is a tree, and its parent.
unfoldable pub ensure_dirs : TreeEntry → Children → Children
ensure_dirs entry dirs =
    let own =
      if holds (Text-discrete entry.entry_type (text "tree"))
      then ensure_dir entry.path dirs
      else dirs in
    elim (parent_path entry.path) [ none ↦ own | some parent ↦ ensure_dir parent own ]

-- One round of the loop over the listing.
unfoldable pub place : Utf8 → Option Inline → TreeEntry → Children → Result Children CtxfsError
place utf8 inline entry dirs = elim (dir_entry_of utf8 inline entry) [
  | err e ↦ err e
  | ok none ↦ ok (ensure_dirs entry dirs)
  | ok (some dir_entry) ↦ ok (push_entry (parent_key entry.path) dir_entry (ensure_dirs entry dirs))
]

unfoldable pub group : Utf8 → Option Inline → List TreeEntry → Children → Result Children CtxfsError
group utf8 inline [] dirs = ok dirs
group utf8 inline (entry ∷ entries) dirs = elim (place utf8 inline entry dirs) [
  | err e ↦ err e
  | ok dirs' ↦ group utf8 inline entries dirs'
]

-- `matches('/').count()`
unfoldable pub depth : Text → ℕ
depth [] = 0
depth (c ∷ cs) = (if c == b'/' then 1 else 0) + depth cs

-- Deepest first, and longer first at the same depth.
unfoldable pub deeper : Text → Text → Bool
deeper a b = if depth a == depth b then ltb (length b) (length a) else ltb (depth b) (depth a)

-- The order of `str`, by bytes.
unfoldable pub text_before : Text → Text → Bool
text_before a [] = false
text_before [] (d ∷ ds) = true
text_before (c ∷ cs) (d ∷ ds) = let rest = text_before cs ds in if c == d then rest else ltb c d

unfoldable pub entry_before : DirEntry → DirEntry → Bool
entry_before a b = text_before (entry_name a) (entry_name b)

unfoldable pub child_path : Text → Text → Text
child_path [] name = name
child_path (c ∷ cs) name = (c ∷ cs) ++ (b'/' ∷ name)

abbrev pub Digests : Type 0
Digests = List (Text × Digest)

abbrev pub Directories : Type 0
Directories = List (Text × Directory)

-- A directory entry takes the digest that has been computed for its path.
unfoldable pub with_digest : Text → Digests → DirEntry → DirEntry
with_digest path digests (DirEntry.file f) = DirEntry.file f
with_digest path digests (DirEntry.symlink s) = DirEntry.symlink s
with_digest path digests (DirEntry.directory d) = elim (lookup (child_path path d.name) digests) [
  | none ↦ DirEntry.directory d
  | some digest ↦ DirEntry.directory (record d { digest = digest })
]

-- The variables of the second loop.
pub record BuildRun : Type 0 where
  pub dir_children : Children
  pub path_to_digest : Digests
  pub directories : Directories

unfoldable pub entries_of : Text → BuildRun → List DirEntry
entries_of path r =
    map (with_digest path r.path_to_digest) (sort_by entry_before (entries_at path r.dir_children))

unfoldable pub build_round : Hashing → Text → BuildRun → BuildRun
build_round h path r =
    let entries = entries_of path r in
    record {
      dir_children = remove path r.dir_children;
      path_to_digest = insert path (compute_digest h entries) r.path_to_digest;
      directories =
          insert path (record { digest = compute_digest h entries; entries = entries })
            r.directories;
    }

unfoldable pub build_loop : Hashing → List Text → BuildRun → BuildRun
build_loop h [] r = r
build_loop h (path ∷ paths) r = build_loop h paths (build_round h path r)

abbrev pub keys_of : Children → List Text
keys_of dirs = map (λ (x : Text × List DirEntry). x.0) dirs

unfoldable pub root_digest : Hashing → Digests → Digest
root_digest h digests = elim (lookup [] digests) [
  | none ↦ record { algorithm = sha256; hex = h.sha256_hex (text "empty") }
  | some digest ↦ digest
]

unfoldable pub build_from : Hashing → Children → BuildRun
build_from h dirs =
    build_loop h (sort_by deeper (keys_of dirs))
      (record { dir_children = dirs; path_to_digest = []; directories = [] })

-- `build_directories_inner`
unfoldable pub build_directories_inner :
    Hashing → Utf8 → List TreeEntry → Option Inline → Result (Digest × Directories) CtxfsError
build_directories_inner h utf8 entries inline = elim (group utf8 inline entries (([], []) ∷ [])) [
  | err e ↦ err e
  | ok dirs ↦ let r = build_from h dirs in ok (root_digest h r.path_to_digest, r.directories)
]
