-- ===== src/Cache/Tree.antt =====
-- crates/ctxfs-cache/src/tree.rs: `TreeCache`, the listings of repositories on disk. JSON and base64 are
-- parameters. Paths are relative to the root; an owner, a repository and a commit are one name
-- each. What the disk decides is an argument.
pub mod Oldest
use ctxfs.Common.{
  ℕ, ◌-◌, ◌==◌, Bool, true, false, not, Option, none, some, Result, ok, err, List, [], ◌∷◌, ◌++◌,
  Text, text, Text-discrete, ltb, leb, if◌then◌else◌, holds, length,
}
use ctxfs.Common.Assoc.{Key, lookup, insert, remove}
use ctxfs.Common.Sort.{sort_by}
use ctxfs.Common.Word.{add64}
use ctxfs.Core.Digest.{FilePath}
use ctxfs.Core.Source.{rsplit_once}
use ctxfs.Cache.Blob.{path_key}

abbrev pub schema_version : ℕ
schema_version = 3

-- A file with the time of its last write.
abbrev pub TreeFiles : Type 0
TreeFiles = List (FilePath × (List ℕ × ℕ))

pub record TreeCache : Type 0 where
  pub max_bytes : ℕ
  pub files : TreeFiles

-- `serde_json` on values and on `VersionedTree`, and the base64 string of other bytes.
pub record TreeJson : Type 1 where
  pub Value : Type 0
  pub from_slice : List ℕ → Option Value
  pub to_vec : Value → Option (List ℕ)
  pub read_versioned : List ℕ → Option (ℕ × Value)
  pub write_versioned : ℕ → Value → Result (List ℕ) Text
  pub base64_string : List ℕ → Value

unfoldable pub file_path : Text → Text → Text → FilePath
file_path owner repo commit_sha = owner ∷ repo ∷ (commit_sha ++ text ".json") ∷ []

unfoldable pub tmp_path : Text → Text → Text → FilePath
tmp_path owner repo commit_sha = owner ∷ repo ∷ (commit_sha ++ text ".tmp") ∷ []

-- Is the extension of the name `json`?
unfoldable pub is_json_name : Text → Bool
is_json_name name = elim (rsplit_once b'.' name) [
  | none ↦ false
  | some ([], extension) ↦ false
  | some (c ∷ cs, extension) ↦ holds (Text-discrete extension (text "json"))
]

unfoldable pub is_json : FilePath → Bool
is_json [] = false
is_json (name ∷ []) = is_json_name name
is_json (dir ∷ name ∷ path) = is_json (name ∷ path)

pub record WalkedFile : Type 0 where
  pub path : FilePath
  pub size : ℕ
  pub mtime : ℕ

unfoldable pub walk_files : TreeFiles → List WalkedFile
walk_files [] = []
walk_files ((path, (content, mtime)) ∷ files) =
    let rest = walk_files files in
    if is_json path
    then record { path = path; size = length content; mtime = mtime } ∷ rest
    else rest

unfoldable pub total_from : ℕ → List WalkedFile → ℕ
total_from sum [] = sum
total_from sum (f ∷ files) = total_from (add64 sum f.size) files

unfoldable pub stats : TreeCache → ℕ × ℕ
stats c = (length (walk_files c.files), total_from 0 (walk_files c.files))

unfoldable pub older_file : WalkedFile → WalkedFile → Bool
older_file a b = ltb a.mtime b.mtime

-- The loop over the files, oldest first; a removal that fails is ignored.
unfoldable pub evict_files :
    (FilePath → Bool) → (max_bytes remaining : ℕ) → List WalkedFile → TreeFiles → TreeFiles
evict_files removable max_bytes remaining [] files = files
evict_files removable max_bytes remaining (f ∷ sorted) files =
    let rest =
      evict_files removable max_bytes (remaining - f.size) sorted
        (if removable f.path then remove f.path files else files) in
    if leb remaining max_bytes then files else rest

unfoldable pub maybe_evict : (FilePath → Bool) → TreeCache → TreeCache
maybe_evict removable c =
    let total = total_from 0 (walk_files c.files) in
    if leb total c.max_bytes then c else record c {
      files =
          evict_files removable c.max_bytes total (sort_by older_file (walk_files c.files)) c.files;
    }

module _ (json : TreeJson) where
  -- `get`, where the file can be read; a file of another version is removed.
  unfoldable pub get_tree :
      (readable removable : Bool) → Text → Text → Text → TreeCache → Option (List ℕ) × TreeCache
  get_tree readable removable owner repo commit_sha c =
      elim (if readable then lookup (file_path owner repo commit_sha) c.files else none) [
        | none ↦ (none, c)
        | some (raw, mtime) ↦ elim (json.read_versioned raw) [
          | none ↦ (none, c)
          | some (version, value) ↦
              if not (version == schema_version)
              then (
                none,
                if removable
                    then record c { files = remove (file_path owner repo commit_sha) c.files }
                    else c,
              )
              else (json.to_vec value, c)
        ]
      ]

-- What becomes of the steps of a write; a failed write may leave part of the temporary file.
pub data TreeWrite : Type 0 where
  mkdir_fails : Text → TreeWrite
  write_fails : Text → Option (List ℕ) → TreeWrite
  rename_fails : Text → TreeWrite
  written : TreeWrite

module _ (json : TreeJson) where
  unfoldable pub json_data : List ℕ → json.Value
  json_data content = elim (json.from_slice content) [
    | none ↦ json.base64_string content
    | some value ↦ value
  ]

  -- The steps after the directory is there.
  unfoldable pub write_tree :
      TreeWrite
      → (FilePath → Bool)
      → (now : ℕ) → (path tmp : FilePath) → List ℕ
      → TreeCache
      → Result (Unit {0}) Text × TreeCache
  write_tree (mkdir_fails e) removable now path tmp serialized c = (err e, c)
  write_tree (write_fails e none) removable now path tmp serialized c = (err e, c)
  write_tree (write_fails e (some left)) removable now path tmp serialized c =
      (err e, record c { files = insert tmp (left, now) c.files })
  write_tree (rename_fails e) removable now path tmp serialized c =
      (err e, record c { files = insert tmp (serialized, now) c.files })
  write_tree written removable now path tmp serialized c = (
    ok tt,
    maybe_evict removable (record c { files = insert path (serialized, now) (remove tmp c.files) }),
  )

  unfoldable pub put_serialized :
      TreeWrite
      → (FilePath → Bool)
      → (now : ℕ) → (path tmp : FilePath) → Result (List ℕ) Text
      → TreeCache
      → Result (Unit {0}) Text × TreeCache
  put_serialized (mkdir_fails e) removable now path tmp serialized c = (err e, c)
  put_serialized outcome removable now path tmp (err e) c = (err e, c)
  put_serialized outcome removable now path tmp (ok serialized) c =
      write_tree outcome removable now path tmp serialized c

  unfoldable pub put_tree :
      TreeWrite
      → (FilePath → Bool)
      → (now : ℕ) → (owner repo commit_sha : Text) → List ℕ
      → TreeCache
      → Result (Unit {0}) Text × TreeCache
  put_tree outcome removable now owner repo commit_sha content c =
      put_serialized outcome removable now (file_path owner repo commit_sha)
        (tmp_path owner repo commit_sha) (json.write_versioned schema_version (json_data content)) c

-- `prune_all`, where the disk takes it.
unfoldable pub prune_all : Option Text → TreeCache → Result (Unit {0}) Text × TreeCache
prune_all (some e) c = (err e, c)
prune_all none c = (ok tt, record c { files = [] })
