-- ===== src/Tests/Rebuilt.antt =====
-- A cache that is opened again, and the tree cache: the theorems at inputs that meet their hypotheses.
use ctxfs.Common.{◌<◌, ◌≡◌, refl, Text-discrete, ℕ_discrete, arith, List, [], ◌∷◌, text, text_key}
use ctxfs.Core.Digest.{sha1, sha256}
use ctxfs.Cache.State.{CacheState}
use ctxfs.Cache.Rebuild.{Scanned, rebuild_state}
use ctxfs.Cache.Rebuild.Index.{IsRebuilt, rebuild_state-IsRebuilt}
use ctxfs.Common.Sort.{sort_by, Pairwise}
use ctxfs.Common.Word.{u64_mod}
use ctxfs.Core.Source.{rsplit_once}
use ctxfs.Cache.Tree.{TreeCache, walk_files, is_json, is_json_name, older_file, maybe_evict}
use ctxfs.Cache.Tree.Oldest.{weight, IsOlder, IsEvicted, all_removable, maybe_evict-IsEvicted}
use ctxfs.Tests.Eviction.{index}

-- A blob of both algorithms, and another.
abbrev scanned : List Scanned
scanned =
    (text "aa1", record { algorithm = sha256; size = 4; mtime = 1 })
    ∷ (text "aa1", record { algorithm = sha1; size = 5; mtime = 3 })
    ∷ (text "bb2", record { algorithm = sha1; size = 6; mtime = 2 })
    ∷ []

abbrev empty : CacheState index
empty = record { entries = index.new; total_bytes = 0; blob_owners = []; reservations = [] }

rebuild_state-IsRebuilt_example : IsRebuilt index scanned (rebuild_state index scanned empty)
rebuild_state-IsRebuilt_example = rebuild_state-IsRebuilt index scanned empty (omega arith)

-- Two trees of two bytes, with room for one.
abbrev trees : TreeCache
trees = record {
  max_bytes = 3;
  files =
      (text "o" ∷ text "r" ∷ text "b.json" ∷ [], (1 ∷ 2 ∷ [], 9))
      ∷ (text "o" ∷ text "r" ∷ text "a.json" ∷ [], (3 ∷ 4 ∷ [], 8))
      ∷ [];
}

trees_weight : weight (walk_files trees.files) ≡ 4
unfolding walk_files is_json is_json_name rsplit_once Text-discrete ℕ_discrete
trees_weight = refl

trees_fit : weight (walk_files trees.files) < u64_mod
trees_fit = omega (arith, trees_weight)

maybe_evict-IsEvicted_example :
    Pairwise IsOlder (sort_by older_file (walk_files trees.files))
    × IsEvicted 3
        (sort_by older_file (walk_files trees.files))
        trees.files
        (maybe_evict all_removable trees).files
maybe_evict-IsEvicted_example = maybe_evict-IsEvicted trees trees_fit
