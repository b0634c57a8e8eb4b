-- ===== src/Cache/Blob.antt =====
-- crates/ctxfs-cache/src/lib.rs: `BlobCache`, the index with the files that it stands for.
-- What the operating system decides (does a write, a read, a removal succeed?) is an argument.
-- `none` of an operation is a panic: the path of a hex of fewer than two bytes.
pub mod Paths
pub mod Backed
pub mod Store
pub mod Shrink
pub mod Runs
pub mod Writer
pub mod Reserved
use ctxfs.Common.{
  ℕ, ◌+◌, ◌-◌, ◌%◌, Bool, true, false, not, Option, none, some, Result, ok, err, List, [], ◌∷◌,
  ◌++◌, Text, text, text_key, Text-discrete, length, if◌then◌else◌, holds,
}
use ctxfs.Common.Assoc.{Key, lookup, insert, remove}
use ctxfs.Common.Word.{u64_mod, add64}
use ctxfs.Core.Digest.{HashAlgorithm, Digest, FilePath, to_path, sha256}
use ctxfs.Core.Error.{CtxfsError, cache}
use ctxfs.Cache.LinkedMap.{LinkedHashMap}
use ctxfs.Cache.State.{CacheEntry, CacheState, RepoKey}
use ctxfs.Cache.Evict.{EvictRun, lru_insert_evict}
use ctxfs.Cache.Reserve.{add_owner}
use ctxfs.Cache.Prune.{Evicted, prune_state, shrink_state}

abbrev pub Bytes : Type 0
Bytes = List ℕ

unfoldable pub FilePath-discrete : Discrete FilePath
FilePath-discrete = hlevel Text-discrete

instance abbrev pub path_key : Key FilePath
path_key = record { eq? = FilePath-discrete }

abbrev pub Files : Type 0
Files = List (FilePath × Bytes)

-- Whether a file can be read, and whether it can be removed.
pub record Os : Type 0 where
  pub readable : FilePath → Bool
  pub removable : FilePath → Bool

-- What becomes of a `create_dir_all` and `fs::write`; a failed write may leave part of the data.
pub data WriteOutcome : Type 0 where
  mkdir_fails : Text → WriteOutcome
  write_fails : Text → Option Bytes → WriteOutcome
  written : WriteOutcome

-- What becomes of the steps of a commit up to its rename: one fails, or none.
pub data CommitOutcome : Type 0 where
  step_fails : Text → CommitOutcome
  committed : CommitOutcome

-- `blob_path`
unfoldable pub blob_path : FilePath → Digest → Option FilePath
blob_path root digest = elim (to_path digest) [ none ↦ none | some path ↦ some (root ++ path) ]

unfoldable pub set_file : FilePath → Option Bytes → Files → Files
set_file path none files = remove path files
set_file path (some content) files = insert path content files

unfoldable pub remove_file : Os → FilePath → Files → Files
remove_file os path files = if os.removable path then remove path files else files

-- The loop of `remove_blob_file` over the evicted entries.
unfoldable pub remove_files : Os → FilePath → List (Text × HashAlgorithm) → Files → Option Files
remove_files os root [] files = some files
remove_files os root ((hex, algorithm) ∷ evicted) files =
    elim (blob_path root (record { algorithm = algorithm; hex = hex })) [
      | none ↦ none
      | some path ↦ remove_files os root evicted (remove_file os path files)
    ]

unfoldable pub digest_mismatch : Text → Text → CtxfsError
digest_mismatch expected got =
    cache (text "blob digest mismatch: expected " ++ (expected ++ (text ", got " ++ got)))

unfoldable pub victims : List Evicted → List (Text × HashAlgorithm)
victims [] = []
victims ((hex, size, algorithm) ∷ evicted) = (hex, algorithm) ∷ victims evicted

unfoldable pub freed_bytes : List Evicted → ℕ
freed_bytes [] = 0
freed_bytes ((hex, size, algorithm) ∷ evicted) = size + freed_bytes evicted

module _ (m : LinkedHashMap Text CacheEntry) where
  pub record BlobCache : Type 0 where
    pub root : FilePath
    pub max_bytes : ℕ
    pub state : CacheState m
    pub eviction_blocked_total : ℕ
    pub files : Files

  abbrev pub Done : Type 0
  Done = Option (Result (Unit {0}) CtxfsError × BlobCache)

  module _ (os : Os) where
    -- The file is looked up with the algorithm of the index, not of the caller.
    unfoldable pub get : BlobCache → Digest → Option (Option Bytes × BlobCache)
    get c digest = elim (m.get digest.hex c.state.entries) [
      | none ↦ some (none, c)
      | some entry ↦
          let c' = record c {
            state = record (c.state) { entries = m.get_refresh digest.hex c.state.entries };
          } in
          elim (blob_path c.root (record { algorithm = entry.algorithm; hex = digest.hex })) [
            | none ↦ none
            | some path ↦ some (if os.readable path then lookup path c.files else none, c')
          ]
    ]

    -- The new file is on disk; the index takes the entry, and the files of the evicted go.
    unfoldable pub track : BlobCache → Digest → ℕ → Files → Done
    track c digest size files =
        elim (lru_insert_evict m c.max_bytes digest.hex size digest.algorithm c.state) [
          | none ↦ none
          | some r ↦ elim (remove_files os c.root r.evicted files) [
            | none ↦ none
            | some files' ↦ some (
              ok tt,
              record c {
                state = r.state;
                eviction_blocked_total = add64 c.eviction_blocked_total r.blocked;
                files = files';
              },
            )
          ]
        ]

    unfoldable pub put : WriteOutcome → BlobCache → Digest → Bytes → Done
    put outcome c digest content = elim (blob_path c.root digest) [
      | none ↦ none
      | some path ↦ elim outcome [
        | mkdir_fails e ↦ some (err (cache (text "mkdir failed: " ++ e)), c)
        | write_fails e left ↦ some (
          err (cache (text "write failed: " ++ e)),
          record c { files = set_file path left c.files },
        )
        | written ↦ track c digest (length content) (insert path content c.files)
      ]
    ]

    -- `put_for`: ownership is recorded after a put that succeeded.
    unfoldable pub put_for : WriteOutcome → BlobCache → RepoKey → Digest → Bytes → Done
    put_for outcome c repo_key digest content = elim (put outcome c digest content) [
      | none ↦ none
      | some (err e, c') ↦ some (err e, c')
      | some (ok u, c') ↦
          some (ok u, record c' { state = add_owner m repo_key digest.hex c'.state })
    ]

    -- `BlobTempWriter::finalize` of a writer that was given `content`.
    unfoldable pub finalize : CommitOutcome → BlobCache → Digest → Bytes → Done
    finalize (step_fails e) c expected content = some (err (cache e), c)
    finalize committed c expected content = elim (blob_path c.root expected) [
      | none ↦ none
      | some dest ↦ track c expected (length content) (insert dest content c.files)
    ]

    -- `commit_atomic`, over the hash function `sha256_hex`.
    unfoldable pub commit_atomic :
        (Bytes → Text) → CommitOutcome → BlobCache → Digest → Bytes → Done
    commit_atomic sha256_hex outcome c digest content =
        if holds (Text-discrete (sha256_hex content) digest.hex)
        then finalize outcome c digest content
        else some (err (digest_mismatch digest.hex (sha256_hex content)), c)

    unfoldable pub prune : Option ℕ → BlobCache → Option (ℕ × BlobCache)
    prune limit? c =
        let limit : ℕ = elim limit? [ none ↦ c.max_bytes | some limit ↦ limit ] in
        elim (prune_state m limit c.state) [
          | none ↦ none
          | some (s, evicted) ↦ elim (remove_files os c.root (victims evicted) c.files) [
            | none ↦ none
            | some files ↦
                some (freed_bytes evicted % u64_mod, record c { state = s; files = files })
          ]
        ]

    -- What `prune_blobs` and `set_max_bytes` share: evict down to a target, remove the files.
    unfoldable pub shrink : ℕ → BlobCache → Option (BlobCache)
    shrink target_bytes c = elim (shrink_state m target_bytes c.state) [
      | none ↦ none
      | some (s, evicted) ↦ elim (remove_files os c.root (victims evicted) c.files) [
        | none ↦ none
        | some files ↦ some (record c { state = s; files = files })
      ]
    ]

    unfoldable pub prune_blobs : ℕ → BlobCache → Option (ℕ × BlobCache)
    prune_blobs target_bytes c = elim (shrink target_bytes c) [
      | none ↦ none
      | some c' ↦ some (c.state.total_bytes - c'.state.total_bytes, c')
    ]

    unfoldable pub set_max_bytes : ℕ → BlobCache → Option BlobCache
    set_max_bytes new_max c = shrink new_max (record c { max_bytes = new_max })

  -- `contains`
  unfoldable pub contains_blob : BlobCache → Digest → Bool
  contains_blob c digest = elim (m.get digest.hex c.state.entries) [ none ↦ false | some e ↦ true ]

  unfoldable pub contains_all : BlobCache → List Digest → Bool
  contains_all c [] = true
  contains_all c (d ∷ digests) = if contains_blob c d then contains_all c digests else false
