-- ===== src/Cache/Blob/Runs/Steps.antt =====
-- Any operations on a cache in order: they return, and the cache serves the map.
use ctxfs.Common.{
  ℕ, ◌+◌, ◌<◌, ◌≤◌, ◌≡◌, refl, sym, ap, ◌∙◌, Option, Option-cases, inl, inr, some, List, [], ◌∷◌,
  Text, text_key, Text-discrete, All, true, arith, length,
}
use ctxfs.Common.Assoc.{lookup, insert}
use ctxfs.Common.Word.{u64_mod}
use ctxfs.Core.Digest.{Digest, FilePath}
use ctxfs.Cache.LinkedMap.{LinkedHashMap}
use ctxfs.Cache.State.{CacheEntry, RepoKey}
use ctxfs.Cache.Reserve.{register_mount, unregister_mount, drop_mount, add_owners}
use ctxfs.Cache.Blob.{
  Bytes, Os, mkdir_fails, write_fails, written, CommitOutcome, step_fails, committed, BlobCache,
  Files, path_key, blob_path, track, put, get, finalize, commit_atomic, shrink, prune_blobs,
}
use ctxfs.Cache.Blob.Store.{put-written, get_found}
use ctxfs.Cache.Blob.Runs.{
  Op, puts, commits, gets, finalizes, prunes, shrinks, limits, registers, unregisters, owns, after,
  store, spec_step, spec_run, incoming, IsWhole, op_step, op_run,
}
use ctxfs.Cache.Blob.Runs.Serving.{
  Serves, Steps, track-Steps, same-Steps, unchanged, get-Steps, prune-Steps, shrink-Steps,
  limit-Steps,
}

store-at :
    (root : FilePath) (digest : Digest) (content : Bytes) (spec : Files) (path : FilePath)
    → blob_path root digest ≡ some path
    → store root digest content spec ≡ insert path content spec
unfolding store
store-at root digest content spec path at = ground arith

module _ (m : LinkedHashMap Text CacheEntry) (root : FilePath) (spec : Files) (c : BlobCache m)
    (served : Serves m root spec c) where
  put-Steps :
      (os : Os) (digest : Digest) (content : Bytes) (path : FilePath)
      → blob_path root digest ≡ some path
      → c.state.total_bytes + length content < u64_mod
      → Steps m root spec c served
          (after (put m os written c digest content))
          (store root digest content spec)
          (length content)
  put-Steps os digest content path at room =
      let here = ap (λ r. blob_path r digest) served.same_root ∙ at in
      rw (put-written m os c digest path content here, store-at root digest content spec path at)
        (track-Steps m root spec c served os digest path content at room)

  put_fails :
      (os : Os) (e : Text) (digest : Digest) (content : Bytes) (path : FilePath)
      → blob_path root digest ≡ some path
      → after (put m os (mkdir_fails e) c digest content) ≡ some c
  unfolding put after
  put_fails os e digest content path at =
      let here : blob_path c.root digest ≡ some path =
        ap (λ r. blob_path r digest) served.same_root ∙ at in
      ground arith

  commit_good :
      (os : Os) (sha256_hex : Bytes → Text) (digest : Digest) (content : Bytes) (path : FilePath)
      → blob_path root digest ≡ some path
      → sha256_hex content ≡ digest.hex
      → commit_atomic m os sha256_hex committed c digest content
        ≡ track m os c digest (length content) (insert path content c.files)
  unfolding commit_atomic finalize
  commit_good os sha256_hex digest content path at same =
      let here : blob_path c.root digest ≡ some path =
        ap (λ r. blob_path r digest) served.same_root ∙ at in
      ground arith

  commit_bad :
      (os : Os) (sha256_hex : Bytes → Text) (outcome : CommitOutcome) (digest : Digest)
      (content : Bytes)
      → ¬ (sha256_hex content ≡ digest.hex)
      → after (commit_atomic m os sha256_hex outcome c digest content) ≡ some c
  unfolding commit_atomic after
  commit_bad os sha256_hex outcome digest content other = ground arith

  commit_stops :
      (os : Os) (sha256_hex : Bytes → Text) (e : Text) (digest : Digest) (content : Bytes)
      → after (commit_atomic m os sha256_hex (step_fails e) c digest content) ≡ some c
  unfolding commit_atomic finalize after
  commit_stops os sha256_hex e digest content = ground arith

  entries-unregister :
      (key : RepoKey)
      → let s = unregister_mount m c.max_bytes key c.state in
        (s.entries ≡ c.state.entries) × (s.total_bytes ≡ c.state.total_bytes)
  unfolding unregister_mount drop_mount
  entries-unregister key = ground arith

  wider :
      (result : Option (BlobCache m)) (spec' : Files) (size size' : ℕ)
      → size ≤ size'
      → Steps m root spec c served result spec' size
      → Steps m root spec c served result spec' size'
  wider result spec' size size' le (c', done, serves, small) =
      (c', done, serves, omega (arith, le, small))

  spec_commit_good :
      (os : Os) (sha256_hex : Bytes → Text) (digest : Digest) (content : Bytes)
      → sha256_hex content ≡ digest.hex
      → spec_step root (commits os sha256_hex committed digest content) spec
        ≡ store root digest content spec
  unfolding spec_step
  spec_commit_good os sha256_hex digest content same = ground arith

  spec_commit_bad :
      (os : Os) (sha256_hex : Bytes → Text) (outcome : CommitOutcome) (digest : Digest)
      (content : Bytes)
      → ¬ (sha256_hex content ≡ digest.hex)
      → spec_step root (commits os sha256_hex outcome digest content) spec ≡ spec
  unfolding spec_step
  spec_commit_bad os sha256_hex (step_fails e) digest content other = refl
  spec_commit_bad os sha256_hex committed digest content other = ground arith

  commit-Steps :
      (os : Os) (sha256_hex : Bytes → Text) (outcome : CommitOutcome) (digest : Digest)
      (content : Bytes) (path : FilePath)
      → blob_path root digest ≡ some path
      → c.state.total_bytes + length content < u64_mod
      → Steps m root spec c served
          (after (commit_atomic m os sha256_hex outcome c digest content))
          (spec_step root (commits os sha256_hex outcome digest content) spec)
          (length content)
  unfolding spec_step
  commit-Steps os sha256_hex (step_fails e) digest content path at room =
      rw (commit_stops os sha256_hex e digest content)
        (unchanged m root spec c served (length content))
  commit-Steps os sha256_hex committed digest content path at room =
      elim (Text-discrete (sha256_hex content) digest.hex) [
        | yes same ↦
            rw
              (
                commit_good os sha256_hex digest content path at same,
                spec_commit_good os sha256_hex digest content same,
                store-at root digest content spec path at,
              )
              (track-Steps m root spec c served os digest path content at room)
        | no other ↦
            rw
              (
                commit_bad os sha256_hex committed digest content other,
                spec_commit_bad os sha256_hex committed digest content other,
              )
              (unchanged m root spec c served (length content))
      ]

  finalize_good :
      (os : Os) (digest : Digest) (content : Bytes) (path : FilePath)
      → blob_path root digest ≡ some path
      → finalize m os committed c digest content
        ≡ track m os c digest (length content) (insert path content c.files)
  unfolding finalize
  finalize_good os digest content path at =
      let here : blob_path c.root digest ≡ some path =
        ap (λ r. blob_path r digest) served.same_root ∙ at in
      ground arith

  finalize-Steps :
      (os : Os) (outcome : CommitOutcome) (digest : Digest) (content : Bytes) (path : FilePath)
      → blob_path root digest ≡ some path
      → c.state.total_bytes + length content < u64_mod
      → Steps m root spec c served
          (after (finalize m os outcome c digest content))
          (spec_step root (finalizes os outcome digest content) spec)
          (length content)
  unfolding spec_step finalize after
  finalize-Steps os (step_fails e) digest content path at room =
      unchanged m root spec c served (length content)
  finalize-Steps os committed digest content path at room =
      rw (finalize_good os digest content path at, store-at root digest content spec path at)
        (track-Steps m root spec c served os digest path content at room)

  after-prune_blobs :
      (os : Os) (target : ℕ) → after (prune_blobs m os target c) ≡ shrink m os target c
  unfolding after prune_blobs
  after-prune_blobs os target = elim (Option-cases (shrink m os target c)) [
    | inl fails ↦ ground arith
    | inr (c', done) ↦ ground arith
  ]

  op_step-Steps :
      (op : Op)
      → IsWhole root op
      → c.state.total_bytes + incoming (op ∷ []) < u64_mod
      → Steps m root spec c served (op_step m op c) (spec_step root op spec) (incoming (op ∷ []))
  unfolding op_step spec_step incoming add_owners register_mount
  op_step-Steps (puts os written digest content) (path, at) room =
      wider _ _ (length content) _ (omega arith) (put-Steps os digest content path at (omega arith))
  op_step-Steps (puts os (mkdir_fails e) digest content) (path, at) room =
      rw (put_fails os e digest content path at) (unchanged m root spec c served _)
  op_step-Steps (puts os (write_fails e left) digest content) whole room = absurd whole
  op_step-Steps (commits os sha256_hex outcome digest content) (path, at) room =
      wider _ _ (length content) _ (omega arith)
        (commit-Steps os sha256_hex outcome digest content path at (omega arith))
  op_step-Steps (gets os digest) whole room = get-Steps m root spec c served os digest
  op_step-Steps (finalizes os outcome digest content) (path, at) room =
      wider _ _ (length content) _ (omega arith)
        (finalize-Steps os outcome digest content path at (omega arith))
  op_step-Steps (prunes os limit) whole room = prune-Steps m root spec c served os limit
  op_step-Steps (shrinks os target_bytes) whole room =
      rw (after-prune_blobs os target_bytes) (shrink-Steps m root spec c served os target_bytes)
  op_step-Steps (limits os new_max) whole room = limit-Steps m root spec c served os new_max
  op_step-Steps (registers key bytes hexes) whole room =
      same-Steps m root spec c served _ refl refl refl refl
  op_step-Steps (unregisters key) whole room =
      let (e, t) = entries-unregister key in same-Steps m root spec c served _ refl e t refl
  op_step-Steps (owns key hexes) whole room = same-Steps m root spec c served _ refl refl refl refl

module _ (m : LinkedHashMap Text CacheEntry) (root : FilePath) where
  incoming-cons :
      (op : Op) (ops : List Op) → incoming (op ∷ ops) ≡ incoming (op ∷ []) + incoming ops
  unfolding incoming
  incoming-cons op ops = ground arith

  run-next :
      (op : Op) (ops : List Op) (c c' : BlobCache m)
      → op_step m op c ≡ some c'
      → op_run m (op ∷ ops) c ≡ op_run m ops c'
  unfolding op_run
  run-next op ops c c' done = ground arith

  -- In a cache that is in order and whose files agree with a map, any operations return, if every
  -- digest that is written has a path, no write stops midway, and all that is written fits 64
  -- bits together with what is there. The cache is then in order, and each of its files holds
  -- what the map has at its path, where the map takes the writes that succeed and nothing else.
  pub op_run-Serves :
      (ops : List Op) (spec : Files) (c : BlobCache m)
      → Serves m root spec c
      → All (IsWhole root) ops
      → c.state.total_bytes + incoming ops < u64_mod
      → (c' : BlobCache m) × (op_run m ops c ≡ some c') × Serves m root (spec_run root ops spec) c'
  unfolding op_run spec_run
  op_run-Serves [] spec c served whole room = (c, refl, served)
  op_run-Serves (op ∷ ops) spec c served (whole, wholes) room =
      let split = incoming-cons op ops in
      let (c1, done, serves, small) = op_step-Steps m root spec c served op whole (omega arith) in
      let (c', runs, serves') =
        op_run-Serves ops (spec_step root op spec) c1 serves wholes (omega arith) in
      (c', run-next op ops c c1 done ∙ runs, serves')

  -- In a cache that is in order and whose files agree with a map, after any operations whose written
  -- digests have paths, whose writes do not stop midway, and whose bytes fit 64 bits together with
  -- what is there: a `get` of a digest whose hex is in the index, of a file that the operating system
  -- lets be read, returns the bytes that the map has at the path of that hex, under the algorithm
  -- that the index says.
  pub get-op_run :
      (ops : List Op) (spec : Files) (c : BlobCache m)
      → Serves m root spec c
      → All (IsWhole root) ops
      → c.state.total_bytes + incoming ops < u64_mod
      → (c' : BlobCache m) × (op_run m ops c ≡ some c')
        × ((os : Os) (digest : Digest) (e : CacheEntry)
            → m.get digest.hex c'.state.entries ≡ some e
            → ((path : FilePath)
                → blob_path root (record { algorithm = e.algorithm; hex = digest.hex }) ≡ some path
                → os.readable path ≡ true)
            → (path : FilePath) × (content : Bytes) × (c'' : BlobCache m) × (blob_path root
                  (record { algorithm = e.algorithm; hex = digest.hex })
                ≡ some path)
              × (get m os c' digest ≡ some (some content, c''))
              × (lookup path (spec_run root ops spec) ≡ some content))
  get-op_run ops spec c served whole room =
      let (c', runs, serves) = op_run-Serves ops spec c served whole room in
      (
        c',
        runs,
        λ os digest e present readable.
            let (path, content, at, file, size) =
              serves.backed.files digest.hex e
                (sym (m.get-iter digest.hex c'.state.entries) ∙ present) in
            let here =
              ap (λ r. blob_path r (record { algorithm = e.algorithm; hex = digest.hex }))
                (sym serves.same_root)
              ∙ at in
            (
              path,
              content,
              _,
              here,
              get_found m os c' digest path content e present at file (readable path here),
              serves.agrees.holds path content file,
            ),
      )
