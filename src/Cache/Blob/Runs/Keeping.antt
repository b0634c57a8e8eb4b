-- ===== src/Cache/Blob/Runs/Keeping.antt =====
-- The files of the cache hold what the map has, or are not there.
use ctxfs.Common.{
  ℕ, ◌≡◌, subst, Bool-cases, Option, none, some, Option-cases, Result, List, [], ◌∷◌, Text,
  text_key, arith, inl, inr,
}
use ctxfs.Common.Assoc.{lookup, insert, lookup-insert, lookup-remove}
use ctxfs.Core.Digest.{HashAlgorithm, Digest, FilePath}
use ctxfs.Core.Error.{CtxfsError}
use ctxfs.Cache.LinkedMap.{LinkedHashMap}
use ctxfs.Cache.State.{CacheEntry}
use ctxfs.Cache.Evict.{lru_insert_evict}
use ctxfs.Cache.Prune.{prune_state, shrink_state}
use ctxfs.Cache.Blob.{
  Bytes, Files, Os, BlobCache, path_key, blob_path, remove_file, remove_files, victims, track,
  prune, shrink,
}

pub record Agrees (spec files : Files) : Type 0 where
  pub holds :
      (path : FilePath) (content : Bytes)
      → lookup path files ≡ some content
      → lookup path spec ≡ some content

pub Agrees-insert :
    (path : FilePath) (content : Bytes) (spec files : Files)
    → Agrees spec files
    → Agrees (insert path content spec) (insert path content files)
Agrees-insert path content spec files a = record {
  holds = λ p b h.
      ground
        (arith, lookup-insert path p content spec, lookup-insert path p content files, a.holds p b);
}

Agrees-remove_file :
    (os : Os) (path : FilePath) (spec files : Files)
    → Agrees spec files
    → Agrees spec (remove_file os path files)
unfolding remove_file
Agrees-remove_file os path spec files a = elim (Bool-cases (os.removable path)) [
  | inl can ↦ record { holds = λ p b h. ground (arith, lookup-remove path p files, a.holds p b) }
  | inr cannot ↦ record { holds = λ p b h. ground (arith, a.holds p b) }
]

pub Agrees-remove_files :
    (os : Os) (root : FilePath) (evicted : List (Text × HashAlgorithm)) (spec files files' : Files)
    → remove_files os root evicted files ≡ some files'
    → Agrees spec files
    → Agrees spec files'
unfolding remove_files
Agrees-remove_files os root [] spec files files' done a =
    let same : files ≡ files' = ground arith in subst (Agrees spec) same a
Agrees-remove_files os root ((hex, algorithm) ∷ evicted) spec files files' done a =
    elim (Option-cases (blob_path root (record { algorithm = algorithm; hex = hex }))) [
      | inl panic ↦ absurd (ground arith)
      | inr (path, at) ↦
          Agrees-remove_files os root evicted spec (remove_file os path files) files' (ground arith)
            (Agrees-remove_file os path spec files a)
    ]

module _ (m : LinkedHashMap Text CacheEntry) (os : Os) (c c' : BlobCache m) (spec : Files) where
  -- What an operation that only evicts leaves: the same root, and files that agree.
  pub record Keeps (files : Files) : Type 0 where
    pub root : c'.root ≡ c.root
    pub agrees : Agrees spec files → Agrees spec c'.files

  pub track-Keeps :
      (digest : Digest) (size : ℕ) (files : Files) (r : Result (Unit {0}) CtxfsError)
      → track m os c digest size files ≡ some (r, c')
      → Keeps files
  unfolding track
  track-Keeps digest size files r done =
      elim (Option-cases
        (lru_insert_evict m c.max_bytes digest.hex size digest.algorithm c.state)) [
          | inl out ↦ absurd (ground arith)
          | inr (e, runs) ↦ elim (Option-cases (remove_files os c.root e.evicted files)) [
            | inl out ↦ absurd (ground arith)
            | inr (files', removes) ↦
                let same : c'.files ≡ files' = ground arith in
                record {
                  root = ground arith;
                  agrees = λ a.
                      rw same (Agrees-remove_files os c.root e.evicted spec files files' removes a);
                }
          ]
        ]

  pub shrink-Keeps : (target : ℕ) → shrink m os target c ≡ some c' → Keeps c.files
  unfolding shrink
  shrink-Keeps target done = elim (Option-cases (shrink_state m target c.state)) [
    | inl out ↦ absurd (ground arith)
    | inr ((s, gone), runs) ↦ elim (Option-cases (remove_files os c.root (victims gone) c.files)) [
      | inl out ↦ absurd (ground arith)
      | inr (files', removes) ↦
          let same : c'.files ≡ files' = ground arith in
          record {
            root = ground arith;
            agrees = λ a.
                rw same
                  (Agrees-remove_files os c.root (victims gone) spec c.files files' removes a);
          }
    ]
  ]

  pub prune-Keeps :
      (limit : Option ℕ) (freed : ℕ) → prune m os limit c ≡ some (freed, c') → Keeps c.files
  unfolding prune
  prune-Keeps limit freed done =
      let target : ℕ = elim limit [ none ↦ c.max_bytes | some limit ↦ limit ] in
      elim (Option-cases (prune_state m target c.state)) [
        | inl out ↦ absurd (ground arith)
        | inr ((s, gone), runs) ↦
            elim (Option-cases (remove_files os c.root (victims gone) c.files)) [
              | inl out ↦ absurd (ground arith)
              | inr (files', removes) ↦
                  let same : c'.files ≡ files' = ground arith in
                  record {
                    root = ground arith;
                    agrees = λ a. rw same (
                        Agrees-remove_files os c.root (victims gone) spec c.files files' removes a);
                  }
            ]
      ]
