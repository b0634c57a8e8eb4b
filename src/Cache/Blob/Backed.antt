-- ===== src/Cache/Blob/Backed.antt =====
-- Every entry of the index has its file, of the size that the index says.
use ctxfs.Common.{
  ℕ, ◌≡◌, ◌≢◌, refl, sym, ◌∙◌, ap, some, ok, List, [], ◌∷◌, ◌++◌, Text, text_key, Text-discrete,
  arith, length, All-map, ite, subst,
}
use ctxfs.Common.Assoc.{lookup, insert, remove, lookup-insert, lookup-remove, lookup-append}
use ctxfs.Common.Word.{add64}
use ctxfs.Core.Digest.{HashAlgorithm, Digest, FilePath}
use ctxfs.Cache.LinkedMap.{LinkedHashMap}
use ctxfs.Cache.State.{CacheEntry, CacheState}
use ctxfs.Cache.Evict.{EvictRun, lru_insert, lru_insert_evict}
use ctxfs.Cache.Evict.Tracks.{Entries, Tracks, Gone, lru_insert_evict-Tracks}
use ctxfs.Cache.Blob.{Bytes, Files, Os, BlobCache, blob_path, path_key, remove_files, track}
use ctxfs.Cache.Blob.Paths.{blob_path-injective, path_of, remove_files_lem}

-- The file of an entry is there, with as many bytes as the index says.
abbrev pub HasFile : FilePath → Files → Text → CacheEntry → Type 0
HasFile root files hex e =
    (p : FilePath) × (content : Bytes) × (path_of root (hex, e.algorithm) ≡ some p)
    × (lookup p files ≡ some content)
    × (length content ≡ e.size)

abbrev pub AllBacked : FilePath → Files → Entries → Type 0
AllBacked root files l =
    (hex : Text) (e : CacheEntry) → lookup hex l ≡ some e → HasFile root files hex e

-- Two entries of one path have one hex.
hex-path_of :
    (root : FilePath) (x y : Text × HashAlgorithm) {p : FilePath}
    → path_of root x ≡ some p
    → path_of root y ≡ some p
    → x.0 ≡ y.0
hex-path_of root x y h k = ap (λ (d : Digest). d.hex) (blob_path-injective root _ _ h k)

module _ (root : FilePath) (l l' : Entries) (files : Files) where
  Gone-path :
      AllBacked root files l
      → (x : Text × HashAlgorithm) → Gone l l' x
      → (p : FilePath) × (path_of root x ≡ some p)
  Gone-path backed x g =
      let (e, found, alg) = g.1 in
      let (p, content, path, file, size) = backed x.0 e found in
      (p, ap (λ a. path_of root (x.0, a)) (sym alg) ∙ path)

  Gone-path_ne :
      (hex : Text) (e : CacheEntry) (p : FilePath)
      → lookup hex l' ≡ some e
      → path_of root (hex, e.algorithm) ≡ some p
      → (x : Text × HashAlgorithm) → Gone l l' x
      → path_of root x ≢ some p
  Gone-path_ne hex e p found path x g same =
      cc (hex-path_of root (hex, e.algorithm) x path same, g.0, found)

  -- What an eviction leaves is backed, if what it started from was.
  pub AllBacked-remove_files :
      (os : Os) (evicted : List (Text × HashAlgorithm))
      → AllBacked root files l
      → Tracks l l' evicted
      → (files' : Files) × (remove_files os root evicted files ≡ some files')
        × AllBacked root files' l'
        × ((hex : Text) (e : CacheEntry) (p : FilePath)
            → lookup hex l' ≡ some e
            → path_of root (hex, e.algorithm) ≡ some p
            → lookup p files' ≡ lookup p files)
  AllBacked-remove_files os evicted backed t =
      let (files', done, kept) =
        remove_files_lem os root evicted files (All-map _ _ evicted (Gone-path backed) t.gone) in
      let stays : (hex : Text) (e : CacheEntry) (p : FilePath)
          → lookup hex l' ≡ some e
          → path_of root (hex, e.algorithm) ≡ some p
          → lookup p files' ≡ lookup p files =
        λ hex e p found path.
          kept p (All-map _ _ evicted (Gone-path_ne hex e p found path) t.gone) in
      (
        files',
        done,
        λ hex e found.
            let (p, content, path, file, size) = backed hex e (t.kept hex e found) in
            (p, content, path, stays hex e p found path ∙ file, size),
        stays,
      )

lookup-inserted :
    (hex key : Text) (new : CacheEntry) (l : Entries)
    → lookup hex (remove key l ++ ((key, new) ∷ []))
      ≡ ite (Text-discrete hex key) (some new) (lookup hex l)
unfolding lookup
lookup-inserted hex key new l =
    ground (arith, lookup-append hex (remove key l) ((key, new) ∷ []), lookup-remove key hex l)

-- The entry of a put.
abbrev new_entry : Digest → Bytes → CacheEntry
new_entry digest content = record { size = length content; algorithm = digest.algorithm }

lookup-inserted_self :
    (key : Text) (new e : CacheEntry) (l : Entries)
    → lookup key (remove key l ++ ((key, new) ∷ [])) ≡ some e
    → e ≡ new
lookup-inserted_self key new e l h = ground (arith, lookup-inserted key key new l)

module _ (root : FilePath) (digest : Digest) (p0 : FilePath) (content : Bytes) (l : Entries)
    (files : Files) (at : blob_path root digest ≡ some p0) (backed : AllBacked root files l) where
  old_backed :
      (hex : Text) (e : CacheEntry)
      → hex ≢ digest.hex
      → HasFile root files hex e
      → HasFile root (insert p0 content files) hex e
  old_backed hex e ne (p, c, path, file, size) =
      let other : p ≢ p0 = λ same. ne (
        hex-path_of root (hex, e.algorithm) (digest.hex, digest.algorithm) path
          (at ∙ ap some (sym same))) in
      (p, c, path, ground (arith, lookup-insert p0 p content files), size)

  new_backed : HasFile root (insert p0 content files) digest.hex (new_entry digest content)
  new_backed = (p0, content, at, ground (arith, lookup-insert p0 p0 content files), refl)

  -- With the new file on disk, the index with the new entry is backed.
  AllBacked-inserted :
      AllBacked root
        (insert p0 content files)
        (remove digest.hex l ++ ((digest.hex, new_entry digest content) ∷ []))
  AllBacked-inserted hex e found = elim (Text-discrete hex digest.hex) [
    | yes same ↦
        let is : e ≡ new_entry digest content =
          ground (arith, lookup-inserted hex digest.hex (new_entry digest content) l) in
        let files' = insert p0 content files in
        subst (λ h. HasFile root files' h e) (sym same)
          (subst (λ x. HasFile root files' digest.hex x) (sym is) new_backed)
    | no ne ↦
        old_backed hex e ne (
          backed hex e
            (ground (arith, lookup-inserted hex digest.hex (new_entry digest content) l)))
  ]

module _ (m : LinkedHashMap Text CacheEntry) where
  -- In the cache: every entry of the index has its file.
  pub record IsBacked (c : BlobCache m) : Type 0 where
    pub files : AllBacked c.root c.files (m.iter c.state.entries)

  iter-lru_insert :
      (key : Text) (size : ℕ) (algorithm : HashAlgorithm) (s : CacheState m)
      → m.iter (lru_insert m key size algorithm s).entries
        ≡ remove key (m.iter s.entries)
          ++ ((key, record { size = size; algorithm = algorithm }) ∷ [])
  unfolding lru_insert
  iter-lru_insert key size algorithm s = m.iter-insert key _ s.entries

  track_eq :
      (os : Os) (c : BlobCache m) (digest : Digest) (size : ℕ) (files files' : Files)
      (r : EvictRun m)
      → lru_insert_evict m c.max_bytes digest.hex size digest.algorithm c.state ≡ some r
      → remove_files os c.root r.evicted files ≡ some files'
      → track m os c digest size files
        ≡ some (
          ok tt,
          record c {
            state = r.state;
            eviction_blocked_total = add64 c.eviction_blocked_total r.blocked;
            files = files';
          },
        )
  unfolding track
  track_eq os c digest size files files' r runs removes = ground arith

  -- In the result of a put: it succeeded, every entry has its file, and if the blob is still
  -- there, its file holds what was put.
  pub record Stored (c c' : BlobCache m) (digest : Digest) (path : FilePath) (content : Bytes)
      : Type 0 where
    pub backed : IsBacked c'
    pub root : c'.root ≡ c.root
    pub limit : c'.max_bytes ≡ c.max_bytes
    pub stored :
        (e : CacheEntry)
        → lookup digest.hex (m.iter c'.state.entries) ≡ some e
        → (lookup path c'.files ≡ some content) × (e.algorithm ≡ digest.algorithm)

  pub track-Stored :
      (os : Os) (c : BlobCache m) (digest : Digest) (path : FilePath) (content : Bytes)
      → IsBacked c
      → blob_path c.root digest ≡ some path
      → (c' : BlobCache m) × (track m os c digest (length content) (insert path content c.files)
          ≡ some (ok tt, c'))
        × Stored c c' digest path content
  track-Stored os c digest path content backed at =
      let (r, runs, t) =
        lru_insert_evict-Tracks m c.max_bytes digest.hex (length content) digest.algorithm
          c.state in
      let l = m.iter c.state.entries in
      let l0 = m.iter (lru_insert m digest.hex (length content) digest.algorithm c.state).entries in
      let iter0 : l0 ≡ remove digest.hex l ++ ((digest.hex, new_entry digest content) ∷ []) =
        iter-lru_insert digest.hex (length content) digest.algorithm c.state in
      let backed0 : AllBacked c.root (insert path content c.files) l0 =
        rw iter0 (AllBacked-inserted c.root digest path content l c.files at backed.files) in
      let (files', removes, backed', stays) =
        AllBacked-remove_files c.root l0 (m.iter r.state.entries) (insert path content c.files) os
          r.evicted backed0 t in
      (
        _,
        track_eq os c digest (length content) (insert path content c.files) files' r runs removes,
        record {
          backed = record { files = backed' };
          root = refl;
          limit = refl;
          stored = λ e found.
              let is : e ≡ new_entry digest content =
                lookup-inserted_self digest.hex _ e l (rw iter0 at (t.kept digest.hex e found)) in
              let alg : e.algorithm ≡ digest.algorithm = ap (λ (x : CacheEntry). x.algorithm) is in
              (
                stays digest.hex e path found (ap (λ a. path_of c.root (digest.hex, a)) alg ∙ at)
                    ∙ ground (arith, lookup-insert path path content c.files),
                alg,
              );
        },
      )
