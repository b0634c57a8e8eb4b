-- ===== src/Cache/Blob/Runs.antt =====
-- crates/ctxfs-cache/src/lib.rs: `put`, `commit_atomic`, `finalize` of a writer, `get`, `prune`,
-- `prune_blobs`, `set_max_bytes`, `register_mount`, `unregister_mount` and `add_owners` on a cache,
-- one after another, beside the plain map from paths to bytes that the cache stands for.
pub mod Keeping
pub mod Serving
pub mod Steps
use ctxfs.Common.{
  ℕ, ◌+◌, ◌≡◌, Option, none, some, List, [], ◌∷◌, Text, text_key, Text-discrete, length,
  if◌then◌else◌, holds,
}
use ctxfs.Common.Assoc.{insert}
use ctxfs.Core.Digest.{Digest, FilePath}
use ctxfs.Cache.LinkedMap.{LinkedHashMap}
use ctxfs.Cache.State.{CacheEntry, RepoKey}
use ctxfs.Cache.Reserve.{register_mount, unregister_mount, add_owners}
use ctxfs.Cache.Blob.{
  Bytes, Os, WriteOutcome, mkdir_fails, write_fails, written, CommitOutcome, step_fails, committed,
  BlobCache, Files, path_key, blob_path, put, get, commit_atomic, finalize, prune, prune_blobs,
  set_max_bytes,
}

-- A call of the cache, with what the operating system does during it.
pub data Op : Type 0 where
  puts : (os : Os) (outcome : WriteOutcome) (digest : Digest) (content : Bytes) → Op
  commits :
      (os : Os) (sha256_hex : Bytes → Text) (outcome : CommitOutcome) (digest : Digest)
      (content : Bytes)
      → Op
  gets : (os : Os) (digest : Digest) → Op
  finalizes : (os : Os) (outcome : CommitOutcome) (digest : Digest) (content : Bytes) → Op
  prunes : (os : Os) (limit : Option ℕ) → Op
  shrinks : (os : Os) (target_bytes : ℕ) → Op
  limits : (os : Os) (new_max : ℕ) → Op
  registers : (key : RepoKey) (bytes : Option ℕ) (hexes : List Text) → Op
  unregisters : (key : RepoKey) → Op
  owns : (key : RepoKey) (hexes : List Text) → Op

-- The cache after an operation that returned.
unfoldable pub after {ℓ} : {A : Type ℓ} {C : Type 0} → Option (A × C) → Option C
after none = none
after (some (a, c)) = some c

-- The map: a write that succeeds sets the bytes of its path, and nothing else does.
unfoldable pub store : FilePath → Digest → Bytes → Files → Files
store root digest content spec = elim (blob_path root digest) [
  | none ↦ spec
  | some path ↦ insert path content spec
]

unfoldable pub spec_step : FilePath → Op → Files → Files
spec_step root (puts os written digest content) spec = store root digest content spec
spec_step root (puts os (mkdir_fails e) digest content) spec = spec
spec_step root (puts os (write_fails e left) digest content) spec = spec
spec_step root (commits os sha256_hex committed digest content) spec =
    if holds (Text-discrete (sha256_hex content) digest.hex)
    then store root digest content spec
    else spec
spec_step root (commits os sha256_hex (step_fails e) digest content) spec = spec
spec_step root (gets os digest) spec = spec
spec_step root (finalizes os committed digest content) spec = store root digest content spec
spec_step root (finalizes os (step_fails e) digest content) spec = spec
spec_step root (prunes os limit) spec = spec
spec_step root (shrinks os target_bytes) spec = spec
spec_step root (limits os new_max) spec = spec
spec_step root (registers key bytes hexes) spec = spec
spec_step root (unregisters key) spec = spec
spec_step root (owns key hexes) spec = spec

unfoldable pub spec_run : FilePath → List Op → Files → Files
spec_run root [] spec = spec
spec_run root (op ∷ ops) spec = spec_run root ops (spec_step root op spec)

-- How many bytes an operation may add.
unfoldable pub incoming : List Op → ℕ
incoming [] = 0
incoming (puts os outcome digest content ∷ ops) = length content + incoming ops
incoming (commits os sha256_hex outcome digest content ∷ ops) = length content + incoming ops
incoming (gets os digest ∷ ops) = incoming ops
incoming (finalizes os outcome digest content ∷ ops) = length content + incoming ops
incoming (prunes os limit ∷ ops) = incoming ops
incoming (shrinks os target_bytes ∷ ops) = incoming ops
incoming (limits os new_max ∷ ops) = incoming ops
incoming (registers key bytes hexes ∷ ops) = incoming ops
incoming (unregisters key ∷ ops) = incoming ops
incoming (owns key hexes ∷ ops) = incoming ops

-- The digest of a write has a path, and no write stops midway.
abbrev pub IsWhole : FilePath → Op → Type 0
IsWhole root (puts os (mkdir_fails e) digest content) =
    (path : FilePath) × (blob_path root digest ≡ some path)
IsWhole root (puts os (write_fails e left) digest content) = ⊥
IsWhole root (puts os written digest content) =
    (path : FilePath) × (blob_path root digest ≡ some path)
IsWhole root (commits os sha256_hex outcome digest content) =
    (path : FilePath) × (blob_path root digest ≡ some path)
IsWhole root (finalizes os outcome digest content) =
    (path : FilePath) × (blob_path root digest ≡ some path)
IsWhole root _ = Unit

module _ (m : LinkedHashMap Text CacheEntry) where
  unfoldable pub op_step : Op → BlobCache m → Option (BlobCache m)
  op_step (puts os outcome digest content) c = after (put m os outcome c digest content)
  op_step (commits os sha256_hex outcome digest content) c =
      after (commit_atomic m os sha256_hex outcome c digest content)
  op_step (gets os digest) c = after (get m os c digest)
  op_step (finalizes os outcome digest content) c = after (finalize m os outcome c digest content)
  op_step (prunes os limit) c = after (prune m os limit c)
  op_step (shrinks os target_bytes) c = after (prune_blobs m os target_bytes c)
  op_step (limits os new_max) c = set_max_bytes m os new_max c
  op_step (registers key bytes hexes) c =
      some (record c { state = register_mount m c.max_bytes key bytes hexes c.state })
  op_step (unregisters key) c =
      some (record c { state = unregister_mount m c.max_bytes key c.state })
  op_step (owns key hexes) c = some (record c { state = add_owners m key hexes c.state })

  unfoldable pub op_run : List Op → BlobCache m → Option (BlobCache m)
  op_run [] c = some c
  op_run (op ∷ ops) c = elim (op_step op c) [ none ↦ none | some c' ↦ op_run ops c' ]
