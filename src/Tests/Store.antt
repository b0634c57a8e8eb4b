-- ===== src/Tests/Store.antt =====
-- The blob store: the theorems at inputs that meet their hypotheses.
use ctxfs.Common.{
  ◌-◌, ◌+◌, ◌<◌, ◌≡◌, All, refl, subst, true, some, Result, ok, err, List, [], ◌∷◌, ◌++◌, Text,
  text, text_key, Text-discrete, arith,
}
use ctxfs.Common.Assoc.{lookup, insert, remove}
use ctxfs.Common.Word.{u64_mod, add64, sub64}
use ctxfs.Core.Digest.{sha1, Digest, FilePath, to_path, algorithm_name}
use ctxfs.Core.Error.{cache, CtxfsError}
use ctxfs.Cache.LinkedMap.{refresh}
use ctxfs.Cache.State.{CacheEntry}
use ctxfs.Cache.Evict.{evict_round, evict_loop, lru_insert, total_without, lru_insert_evict}
use ctxfs.Cache.Prune.Order.{IsPruned}
use ctxfs.Cache.Blob.{
  Bytes, Os, write_fails, written, committed, BlobCache, blob_path, path_key, remove_files, track,
  put, get, finalize, commit_atomic, prune, set_max_bytes,
}
use ctxfs.Cache.Blob.Backed.{IsBacked}
use ctxfs.Cache.Blob.Store.{put-Stored, get-put, get-put_torn}
use ctxfs.Cache.Blob.Shrink.{prune-IsPruned, set_max_bytes-IsPruned}
use ctxfs.Cache.Evict.Accounting.{sizes}
use ctxfs.Cache.Blob.Runs.{
  Op, puts, commits, gets, limits, owns, IsWhole, incoming, op_run, spec_run,
}
use ctxfs.Cache.Blob.Runs.Serving.{Serves}
use ctxfs.Cache.Blob.Runs.Steps.{op_run-Serves, get-op_run}
use ctxfs.Tests.Eviction.{index, repo, empty, one, one-IsAccounted}

program : Unit {0}
unfolding lookup insert remove refresh evict_round evict_loop lru_insert total_without
    lru_insert_evict add64 sub64 Text-discrete algorithm_name to_path blob_path remove_files track
    put finalize commit_atomic
program = tt

abbrev os : Os
os = record { readable = λ p. true; removable = λ p. true }

abbrev digest : Digest
digest = record { algorithm = sha1; hex = text "aa1" }

abbrev content : Bytes
content = text "sixsix"

abbrev path : FilePath
path = text "/c" ∷ text "sha1" ∷ text "aa" ∷ text "1" ∷ []

abbrev fresh : BlobCache index
fresh = record {
  root = text "/c" ∷ [];
  max_bytes = 10;
  state = empty;
  eviction_blocked_total = 0;
  files = [];
}

abbrev filled : BlobCache index
filled = record fresh { state = one; files = (path, content) ∷ [] }

path_at : blob_path fresh.root digest ≡ some path
unfolding program
path_at = refl

digest_path : to_path digest ≡ some (text "sha1" ∷ text "aa" ∷ text "1" ∷ [])
unfolding program
digest_path = refl

fresh-IsBacked : IsBacked index fresh
unfolding program
fresh-IsBacked = record { files = λ hex e h. absurd (ground arith) }

put-filled : put index os written fresh digest content ≡ some (ok tt, filled)
unfolding program
put-filled = refl

filled-IsBacked : IsBacked index filled
filled-IsBacked =
    let (c', done, stored) = put-Stored index os fresh digest path content fresh-IsBacked path_at in
    subst (λ (x : BlobCache index). IsBacked index x) (same c' done) stored.backed
  where
    same :
        (c' : BlobCache index)
        → put index os written fresh digest content ≡ some (ok tt, c')
        → c' ≡ filled
    same c' done = ground (arith, put-filled)

filled_entry :
    index.get digest.hex filled.state.entries ≡ some (record { size = 6; algorithm = sha1 })
unfolding program
filled_entry = refl

get-put_example : (c'' : BlobCache index) × (get index os filled digest ≡ some (some content, c''))
get-put_example =
    get-put index os fresh filled digest path content (record { size = 6; algorithm = sha1 })
      fresh-IsBacked path_at refl put-filled filled_entry

abbrev succeeded : Result (Unit {0}) CtxfsError
succeeded = ok tt

commit_filled :
    commit_atomic index os (λ b. text "aa1") committed fresh digest content ≡ some (ok tt, filled)
unfolding program
commit_filled = refl

prune-IsPruned_example :
    (c' : BlobCache index) × (gone : List (Text × CacheEntry)) × (prune index os (some 4) filled
      ≡ some (filled.state.total_bytes - c'.state.total_bytes, c'))
    × IsPruned index 4 filled.state c'.state gone
    × IsBacked index c'
prune-IsPruned_example = prune-IsPruned index os filled filled-IsBacked (some 4) one-IsAccounted

set_max_bytes-IsPruned_example :
    (c' : BlobCache index) × (gone : List (Text × CacheEntry)) × (set_max_bytes index os 4 filled
      ≡ some c')
    × IsPruned index 4 filled.state c'.state gone
    × IsBacked index c'
    × (c'.max_bytes ≡ 4)
set_max_bytes-IsPruned_example =
    set_max_bytes-IsPruned index os filled 4 filled-IsBacked one-IsAccounted

-- A put, a commit of other content that its hash refuses, a claim, and a lower limit.
abbrev calls : List Op
calls =
    puts os written digest content
    ∷ commits os (λ b. text "bb2") committed digest (text "other")
    ∷ owns repo (text "aa1" ∷ [])
    ∷ limits os 7
    ∷ gets os digest
    ∷ []

fresh-Serves : Serves index fresh.root [] fresh
unfolding sizes lookup
fresh-Serves = record {
  same_root = refl;
  backed = record { files = λ hex e h. absurd (cc) };
  accounted = record { sums = refl; fits = omega arith };
  agrees = record { holds = λ p b h. absurd (cc) };
}

calls-IsWhole : All (IsWhole fresh.root) calls
calls-IsWhole = ((path, path_at), ((path, path_at), (tt, (tt, (tt, tt)))))

calls_room : fresh.state.total_bytes + incoming calls < u64_mod
unfolding incoming
calls_room = omega arith

op_run-Serves_example :
    (c' : BlobCache index) × (op_run index calls fresh ≡ some c')
    × Serves index fresh.root (spec_run fresh.root calls []) c'
op_run-Serves_example =
    op_run-Serves index fresh.root calls [] fresh fresh-Serves calls-IsWhole calls_room

get-op_run_example :
    (c' : BlobCache index) × (op_run index calls fresh ≡ some c')
    × ((o : Os) (d : Digest) (e : CacheEntry)
        → index.get d.hex c'.state.entries ≡ some e
        → ((p : FilePath)
            → blob_path fresh.root (record { algorithm = e.algorithm; hex = d.hex }) ≡ some p
            → o.readable p ≡ true)
        → (p : FilePath) × (b : Bytes) × (c'' : BlobCache index) × (blob_path fresh.root
              (record { algorithm = e.algorithm; hex = d.hex })
            ≡ some p)
          × (get index o c' d ≡ some (some b, c''))
          × (lookup p (spec_run fresh.root calls []) ≡ some b))
get-op_run_example =
    get-op_run index fresh.root calls [] fresh fresh-Serves calls-IsWhole calls_room

cached_one :
    index.get digest.hex filled.state.entries ≡ some (record { size = 6; algorithm = sha1 })
unfolding program
cached_one = refl

get-put_torn_example :
    (c' : BlobCache index) × (c'' : BlobCache index) × (put index os
        (write_fails (text "full") (some (text "six")))
        filled
        digest
        content
      ≡ some (err (cache (text "write failed: " ++ text "full")), c'))
    × (c'.state ≡ filled.state)
    × (get index os c' digest ≡ some (some (text "six"), c''))
get-put_torn_example =
    get-put_torn index os filled digest path content (text "six") (text "full")
      (record { size = 6; algorithm = sha1 }) path_at refl cached_one refl
