-- ===== src/Cache/Blob/Store.antt =====
-- Storing and reading blobs: `put`, `commit_atomic` and `get`.
use ctxfs.Common.{
  ℕ, ◌≡◌, refl, sym, subst, ◌∙◌, true, some, ◌++◌, text, Result, ok, err, Text, text_key,
  Text-discrete, arith, length, Option-cases, inl, inr, ◌≢◌, ◌⊎◌,
}
use ctxfs.Common.Assoc.{lookup, insert, lookup-insert}
use ctxfs.Core.Digest.{Digest, FilePath}
use ctxfs.Core.Error.{CtxfsError, cache}
use ctxfs.Cache.LinkedMap.{LinkedHashMap}
use ctxfs.Cache.State.{CacheEntry}
use ctxfs.Cache.Evict.{lru_insert_evict}
use ctxfs.Cache.Blob.{
  Bytes, Os, write_fails, written, set_file, CommitOutcome, step_fails, committed, BlobCache,
  blob_path, path_key, track, put, get, finalize, commit_atomic, Files, remove_files,
  digest_mismatch,
}
use ctxfs.Cache.Blob.Backed.{IsBacked, Stored, track-Stored}

same_path :
    (root' root : FilePath) (digest : Digest) (e : CacheEntry) (path : FilePath)
    → root' ≡ root
    → e.algorithm ≡ digest.algorithm
    → blob_path root digest ≡ some path
    → blob_path root' (record { algorithm = e.algorithm; hex = digest.hex }) ≡ some path
same_path root' root digest e path same_root same_algorithm at = rw (same_root, same_algorithm) at

module _ (m : LinkedHashMap Text CacheEntry) (os : Os) where
  pub put-written :
      (c : BlobCache m) (digest : Digest) (path : FilePath) (content : Bytes)
      → blob_path c.root digest ≡ some path
      → put m os written c digest content
        ≡ track m os c digest (length content) (insert path content c.files)
  unfolding put
  put-written c digest path content at = ground arith

  -- In a cache whose entries have their files, a `put` whose write succeeds, of a digest that has
  -- a path, returns and succeeds: every entry has its file after it, the root and the limit are
  -- the same, and if the blob is still in the index its file holds what was put.
  pub put-Stored :
      (c : BlobCache m) (digest : Digest) (path : FilePath) (content : Bytes)
      → IsBacked m c
      → blob_path c.root digest ≡ some path
      → (c' : BlobCache m) × (put m os written c digest content ≡ some (ok tt, c'))
        × Stored m c c' digest path content
  put-Stored c digest path content backed at =
      let (c', done, stored) = track-Stored m os c digest path content backed at in
      (c', put-written c digest path content at ∙ done, stored)

  pub get_found :
      (c : BlobCache m) (digest : Digest) (path : FilePath) (content : Bytes) (e : CacheEntry)
      → m.get digest.hex c.state.entries ≡ some e
      → blob_path c.root (record { algorithm = e.algorithm; hex = digest.hex }) ≡ some path
      → lookup path c.files ≡ some content
      → os.readable path ≡ true
      → get m os c digest
        ≡ some (
          some content,
          record c {
            state = record (c.state) { entries = m.get_refresh digest.hex c.state.entries };
          },
        )
  unfolding get
  get_found c digest path content e cached at file readable = ground arith

  put-same :
      (c c' c1 : BlobCache m) (digest : Digest) (content : Bytes)
      → put m os written c digest content ≡ some (ok tt, c1)
      → put m os written c digest content ≡ some (ok tt, c')
      → c1 ≡ c'
  put-same c c' c1 digest content h k = ground arith

  -- In a cache whose entries have their files, after a `put` that was written, `get` of the same
  -- digest returns what was put, if the blob has not been evicted by that `put` and the
  -- operating system lets its file be read.
  pub get-put :
      (c c' : BlobCache m) (digest : Digest) (path : FilePath) (content : Bytes) (e : CacheEntry)
      → IsBacked m c
      → blob_path c.root digest ≡ some path
      → os.readable path ≡ true
      → put m os written c digest content ≡ some (ok tt, c')
      → m.get digest.hex c'.state.entries ≡ some e
      → (c'' : BlobCache m) × (get m os c' digest ≡ some (some content, c''))
  get-put c c' digest path content e backed at readable put_done cached =
      let (c1, done, stored1) = put-Stored c digest path content backed at in
      let stored =
        subst (λ x. Stored m c x digest path content)
          (put-same c c' c1 digest content done put_done) stored1 in
      let (file, alg) = stored.stored e (sym (m.get-iter digest.hex c'.state.entries) ∙ cached) in
      (
        _,
        get_found c' digest path content e cached
            (same_path c'.root c.root digest e path stored.root alg at) file readable,
      )

  put_torn :
      (c : BlobCache m) (digest : Digest) (path : FilePath) (content part : Bytes) (why : Text)
      → blob_path c.root digest ≡ some path
      → put m os (write_fails why (some part)) c digest content
        ≡ some (
          err (cache (text "write failed: " ++ why)),
          record c { files = insert path part c.files },
        )
  unfolding put set_file
  put_torn c digest path content part why at = ground arith

  -- Where a `put` of a digest that is in the index fails after part of its bytes were written, it
  -- returns the error and leaves the index as it was, and a `get` of the same digest then returns
  -- that part, whatever the file held before, if the operating system lets it be read.
  pub get-put_torn :
      (c : BlobCache m) (digest : Digest) (path : FilePath) (content part : Bytes) (why : Text)
      (e : CacheEntry)
      → blob_path c.root digest ≡ some path
      → os.readable path ≡ true
      → m.get digest.hex c.state.entries ≡ some e
      → e.algorithm ≡ digest.algorithm
      → (c' : BlobCache m) × (c'' : BlobCache m) × (put m os
            (write_fails why (some part))
            c
            digest
            content
          ≡ some (err (cache (text "write failed: " ++ why)), c'))
        × (c'.state ≡ c.state)
        × (get m os c' digest ≡ some (some part, c''))
  get-put_torn c digest path content part why e at readable cached same =
      let c' : BlobCache m = record c { files = insert path part c.files } in
      (
        c',
        _,
        put_torn c digest path content part why at,
        refl,
        get_found c' digest path part e cached (same_path c.root c.root digest e path refl same at)
            (ground (arith, lookup-insert path path part c.files)) readable,
      )

  track-ne-err :
      (c c' : BlobCache m) (digest : Digest) (size : ℕ) (files : Files) (e : CtxfsError)
      → track m os c digest size files ≢ some (err e, c')
  unfolding track
  track-ne-err c c' digest size files e h =
      elim (Option-cases
        (lru_insert_evict m c.max_bytes digest.hex size digest.algorithm c.state)) [
          | inl out ↦ ground arith
          | inr (r, runs) ↦ elim (Option-cases (remove_files os c.root r.evicted files)) [
            | inl out ↦ ground arith
            | inr (files', removes) ↦ ground arith
          ]
        ]

  finalize_lem :
      {hash : Text} (outcome : CommitOutcome) (c c' : BlobCache m) (digest : Digest)
      (content : Bytes) (r : Result (Unit {0}) CtxfsError)
      → finalize m os outcome c digest content ≡ some (r, c')
      → hash ≡ digest.hex
      → ((r ≡ ok tt) × (hash ≡ digest.hex)) ⊎ (((e : CtxfsError) × (r ≡ err e)) × (c' ≡ c))
  unfolding finalize
  finalize_lem (step_fails e) c c' digest content r h same =
      inr ((cache e, ground arith), ground arith)
  finalize_lem committed c c' digest content (ok u) h same = inl (refl, same)
  finalize_lem committed c c' digest content (err e) h same =
      elim (Option-cases (blob_path c.root digest)) [
        | inl panic ↦ absurd (ground arith)
        | inr (path, at) ↦ absurd (
            track-ne-err c c' digest (length content) (insert path content c.files) e
              (ground arith))
      ]

  -- Whatever `commit_atomic` returns, it has succeeded on content of the expected hash, or
  -- it has returned an error and changed nothing.
  pub commit_atomic_lem :
      (sha256_hex : Bytes → Text) (outcome : CommitOutcome) (c c' : BlobCache m) (digest : Digest)
      (content : Bytes) (r : Result (Unit {0}) CtxfsError)
      → commit_atomic m os sha256_hex outcome c digest content ≡ some (r, c')
      → ((r ≡ ok tt) × (sha256_hex content ≡ digest.hex))
        ⊎ (((e : CtxfsError) × (r ≡ err e)) × (c' ≡ c))
  unfolding commit_atomic
  commit_atomic_lem sha256_hex outcome c c' digest content r h =
      elim (Text-discrete (sha256_hex content) digest.hex) [
        | yes same ↦ finalize_lem outcome c c' digest content r (ground arith) same
        | no other ↦
            inr ((digest_mismatch digest.hex (sha256_hex content), ground arith), ground arith)
      ]
