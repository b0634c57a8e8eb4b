-- ===== src/Cache/Rebuild.antt =====
-- crates/ctxfs-cache/src/lib.rs: `rebuild_index`, the index of the files that a new cache finds on disk.
-- What the scan of the directories finds, or its error, is an argument.
pub mod Dedupe
pub mod Sorted
pub mod Index
use ctxfs.Common.{
  ℕ, Bool, true, false, Option, none, some, Result, ok, err, List, [], ◌∷◌, ◌++◌, Text, text_key,
  ltb, if◌then◌else◌,
}
use ctxfs.Common.Assoc.{lookup, insert}
use ctxfs.Common.Sort.{sort_by}
use ctxfs.Common.Word.{add64}
use ctxfs.Core.Digest.{HashAlgorithm, sha1, sha256}
use ctxfs.Core.Error.{CtxfsError}
use ctxfs.Cache.LinkedMap.{LinkedHashMap}
use ctxfs.Cache.State.{CacheEntry, CacheState}
use ctxfs.Cache.Blob.{BlobCache, Done, Os, remove_files}

-- The values of `by_hex`.
pub record Found : Type 0 where
  pub algorithm : HashAlgorithm
  pub size : ℕ
  pub mtime : ℕ

-- One file of the scan.
abbrev pub Scanned : Type 0
Scanned = Text × Found

abbrev pub ByHex : Type 0
ByHex = List (Text × Found)

-- The files to delete, in their order.
abbrev pub ToDelete : Type 0
ToDelete = List (Text × HashAlgorithm)

unfoldable pub is_sha1 : HashAlgorithm → Bool
is_sha1 sha1 = true
is_sha1 sha256 = false

-- By `mtime`.
unfoldable pub older : Scanned → Scanned → Bool
older x y = ltb x.1.mtime y.1.mtime

-- The occupied entry of a hex: which of the two files stays?
unfoldable pub keep_one : Text → (existing new : Found) → ByHex × ToDelete → ByHex × ToDelete
keep_one hex existing new (by_hex, to_delete) =
    if is_sha1 existing.algorithm
    then (by_hex, to_delete ++ ((hex, new.algorithm) ∷ []))
    else if is_sha1 new.algorithm
    then (insert hex new by_hex, to_delete ++ ((hex, existing.algorithm) ∷ []))
    else (by_hex, to_delete ++ ((hex, new.algorithm) ∷ []))

unfoldable pub dedupe_one : Scanned → ByHex × ToDelete → ByHex × ToDelete
dedupe_one (hex, new) (by_hex, to_delete) = elim (lookup hex by_hex) [
  | none ↦ (insert hex new by_hex, to_delete)
  | some existing ↦ keep_one hex existing new (by_hex, to_delete)
]

unfoldable pub dedupe : List Scanned → ByHex × ToDelete → ByHex × ToDelete
dedupe [] d = d
dedupe (x ∷ xs) d = dedupe xs (dedupe_one x d)

-- `by_hex` and `to_delete`, after the loop over the files, oldest first.
unfoldable pub deduped : List Scanned → ByHex × ToDelete
deduped scanned = dedupe (sort_by older scanned) ([], [])

abbrev pub entry_of : Found → CacheEntry
entry_of f = record { size = f.size; algorithm = f.algorithm }

module _ (m : LinkedHashMap Text CacheEntry) where
  -- The loop that fills the index.
  unfoldable pub fill_index : ByHex → m.Map → ℕ → m.Map × ℕ
  fill_index [] entries total = (entries, total)
  fill_index ((hex, f) ∷ sorted) entries total =
      fill_index sorted (m.insert hex (entry_of f) entries) (add64 total f.size)

  -- `clear` leaves the empty map.
  unfoldable pub rebuild_state : List Scanned → CacheState m → CacheState m
  rebuild_state scanned s =
      let (entries, total) = fill_index (sort_by older (deduped scanned).0) m.new 0 in
      record s { entries = entries; total_bytes = total }

  unfoldable pub rebuild_index : Os → Result (List Scanned) CtxfsError → BlobCache m → Done m
  rebuild_index os (err e) c = some (err e, c)
  rebuild_index os (ok scanned) c = elim (remove_files os c.root (deduped scanned).1 c.files) [
    | none ↦ none
    | some files ↦ some (ok tt, record c { state = rebuild_state scanned c.state; files = files })
  ]
