-- ===== src/Cache/Blob/Paths.antt =====
-- Blobs have their own paths, and removing some files leaves the others.
use ctxfs.Common.{
  ◌≡◌, ◌≢◌, refl, ◌∙◌, ap, Option, some, List, [], ◌∷◌, ◌++◌, Text, text_key, arith, All,
  Option-cases, inl, inr,
}
use ctxfs.Common.Assoc.{lookup, lookup-remove}
use ctxfs.Core.Digest.{HashAlgorithm, Digest, FilePath, to_path, to_path-injective}
use ctxfs.Cache.Blob.{Files, Os, blob_path, remove_file, remove_files, path_key}

append-cancel : (root p q : FilePath) → root ++ p ≡ root ++ q → p ≡ q
append-cancel [] p q h = h
append-cancel (x ∷ root) p q h = append-cancel root p q (cc)

pub blob_path-injective :
    (root : FilePath) (d e : Digest) {p : FilePath}
    → blob_path root d ≡ some p
    → blob_path root e ≡ some p
    → d ≡ e
unfolding blob_path
blob_path-injective root d e {p} h k = elim (Option-cases (to_path d)) [
  | inl none_d ↦ absurd (ground arith)
  | inr (a, some_d) ↦ elim (Option-cases (to_path e)) [
    | inl none_e ↦ absurd (ground arith)
    | inr (b, some_e) ↦
        to_path-injective d e some_d (some_e ∙ ap some (append-cancel root b a (ground arith)))
  ]
]

abbrev pub path_of : FilePath → Text × HashAlgorithm → Option FilePath
path_of root x = blob_path root (record { algorithm = x.1; hex = x.0 })

remove_files_step :
    (os : Os) (root : FilePath) (hex : Text) (algorithm : HashAlgorithm)
    (evicted : List (Text × HashAlgorithm)) (files : Files) (q : FilePath)
    → path_of root (hex, algorithm) ≡ some q
    → remove_files os root ((hex, algorithm) ∷ evicted) files
      ≡ remove_files os root evicted (remove_file os q files)
unfolding remove_files
remove_files_step os root hex algorithm evicted files q here = ground arith

-- If every evicted entry has a path, the removals succeed, and a file at no such path stays.
pub remove_files_lem :
    (os : Os) (root : FilePath) (evicted : List (Text × HashAlgorithm)) (files : Files)
    → All (λ x. (p : FilePath) × (path_of root x ≡ some p)) evicted
    → (files' : Files) × (remove_files os root evicted files ≡ some files')
      × ((p : FilePath)
          → All (λ x. path_of root x ≢ some p) evicted
          → lookup p files' ≡ lookup p files)
unfolding remove_files remove_file
remove_files_lem os root [] files paths = (files, refl, λ p h. refl)
remove_files_lem os root ((hex, algorithm) ∷ evicted) files ((q, here), paths) =
    let (files', done, kept) = remove_files_lem os root evicted (remove_file os q files) paths in
    (
      files',
      remove_files_step os root hex algorithm evicted files q here ∙ done,
      λ p h. kept p h.1 ∙ ground (arith, lookup-remove q p files),
    )
