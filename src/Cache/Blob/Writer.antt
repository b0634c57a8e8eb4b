-- ===== src/Cache/Blob/Writer.antt =====
-- crates/ctxfs-cache/src/lib.rs and reservation.rs: the writer of a blob that comes in pieces, the sweep
-- of the files that a crash left, and the handle of one mount.
use ctxfs.Common.{
  ℕ, ◌+◌, ◌<◌, ◌≡◌, refl, ◌∙◌, arith, length-append, length-take_min, Bool, false, Option, none,
  some, Result, ok, err, List, [], ◌∷◌, ◌++◌, Text, text, text_key, ltb, if◌then◌else◌, length,
  take, min,
}
use ctxfs.Common.Assoc.{insert}
use ctxfs.Common.Word.{u64_mod, add64, add64-eq}
use ctxfs.Core.Digest.{Digest}
use ctxfs.Core.Error.{CtxfsError, cache}
use ctxfs.Cache.LinkedMap.{LinkedHashMap}
use ctxfs.Cache.State.{CacheEntry, RepoKey, working_set_bytes_for}
use ctxfs.Cache.Reserve.{add_owner}
use ctxfs.Cache.Blob.{
  Bytes, Os, WriteOutcome, CommitOutcome, step_fails, committed, BlobCache, Done, blob_path,
  path_key, track, put_for, finalize,
}

-- `BlobTempWriter`: what is in its temporary file.
pub record BlobTempWriter : Type 0 where
  pub content : Bytes
  pub bytes_written : ℕ

-- `commit_atomic_with_writer`; the directory or the file may fail to be created.
unfoldable pub commit_atomic_with_writer :
    Option Text → Option Text → Result BlobTempWriter CtxfsError
commit_atomic_with_writer (some e) temp = err (cache (text "mkdir tmp failed: " ++ e))
commit_atomic_with_writer none (some e) = err (cache (text "tmp file create: " ++ e))
commit_atomic_with_writer none none = ok (record { content = []; bytes_written = 0 })

-- `write`: the system takes the first bytes of the buffer, `taken` at most, or fails.
unfoldable pub write : Result ℕ Text → Bytes → BlobTempWriter → Result ℕ Text × BlobTempWriter
write (err e) buf w = (err e, w)
write (ok taken) buf w =
    let n = min taken (length buf) in
    (ok n, record { content = w.content ++ take n buf; bytes_written = add64 w.bytes_written n })

-- The count of a writer stays that of its bytes, as long as it fits 64 bits.
pub bytes_written-write :
    (result : Result ℕ Text) (buf : Bytes) (w : BlobTempWriter)
    → w.bytes_written ≡ length w.content
    → w.bytes_written + length buf < u64_mod
    → (write result buf w).1.bytes_written ≡ length (write result buf w).1.content
unfolding write
bytes_written-write (err e) buf w counted room = counted
bytes_written-write (ok taken) buf w counted room =
    let n = min taken (length buf) in
    let sum = length-append w.content (take n buf) in
    let part = length-take_min n buf (omega arith) in
    add64-eq w.bytes_written n (omega arith) ∙ omega arith

-- A file of the directory of temporary files: its age is none if it is newer than the clock.
pub record TempFile : Type 0 where
  pub is_file : Bool
  pub age : Option ℕ
  pub removes : Bool

unfoldable pub is_orphan : ℕ → TempFile → Bool
is_orphan older_than f = elim f.age [
  | none ↦ false
  | some age ↦ if f.is_file then if ltb older_than age then f.removes else false else false
]

-- The loop: how many were removed, and what is left.
unfoldable pub sweep : ℕ → ℕ → List TempFile → ℕ × List TempFile
sweep older_than cleared [] = (cleared, [])
sweep older_than cleared (f ∷ fs) =
    let orphan = is_orphan older_than f in
    let (n, left) = sweep older_than (if orphan then add64 cleared 1 else cleared) fs in
    (n, if orphan then left else f ∷ left)

-- `cleanup_orphan_temps` of a directory that is missing, cannot be read, or can.
unfoldable pub cleanup_orphan_temps :
    ℕ → Option (Result (List TempFile) Text) → Result ℕ CtxfsError × List TempFile
cleanup_orphan_temps older_than none = (ok 0, [])
cleanup_orphan_temps older_than (some (err e)) = (err (cache (text "read_dir tmp: " ++ e)), [])
cleanup_orphan_temps older_than (some (ok files)) =
    let (n, left) = sweep older_than 0 files in (ok n, left)

module _ (m : LinkedHashMap Text CacheEntry) where
  -- `stats`, with `count` and `total_bytes`.
  unfoldable pub cache_stats : BlobCache m → ℕ × ℕ
  cache_stats c = (c.state.total_bytes, m.len c.state.entries)

  unfoldable pub working_set_bytes : BlobCache m → RepoKey → ℕ
  working_set_bytes c key =
      working_set_bytes_for (λ k. m.get k c.state.entries) c.state.blob_owners key

  -- `BlobTempWriter::finalize`: the size is what the writer has counted.
  unfoldable pub finalize_writer :
      Os → CommitOutcome → BlobCache m → Digest → BlobTempWriter → Done m
  finalize_writer os (step_fails e) c expected w = some (err (cache e), c)
  finalize_writer os committed c expected w = elim (blob_path c.root expected) [
    | none ↦ none
    | some dest ↦ track m os c expected w.bytes_written (insert dest w.content c.files)
  ]

  -- A writer that has counted its bytes is finalized as its content is.
  pub finalize_writer-finalize :
      (os : Os) (outcome : CommitOutcome) (c : BlobCache m) (expected : Digest) (w : BlobTempWriter)
      → w.bytes_written ≡ length w.content
      → finalize_writer os outcome c expected w ≡ finalize m os outcome c expected w.content
  unfolding finalize_writer finalize
  finalize_writer-finalize os (step_fails e) c expected w counted = refl
  finalize_writer-finalize os committed c expected w counted = rw counted refl

  -- `MountCacheView`: the cache, at the repository of one mount.
  module _ (repo_key : RepoKey) where
    unfoldable pub view_put : Os → WriteOutcome → BlobCache m → Digest → Bytes → Done m
    view_put os outcome c digest content = put_for m os outcome c repo_key digest content

    unfoldable pub record_ownership_after_finalize : BlobCache m → Digest → BlobCache m
    record_ownership_after_finalize c digest = record c {
      state = add_owner m repo_key digest.hex c.state;
    }
