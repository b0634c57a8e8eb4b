-- ===== src/Cache/Tree/Oldest.antt =====
-- What `maybe_evict` removes.
use ctxfs.Common.{
  ℕ, ◌+◌, ◌-◌, ◌≤◌, ◌<◌, ◌≡◌, refl, sym, subst, ap, ◌∙◌, Bool, true, Bool-cases, ◌⊎◌, inl, inr,
  List, [], ◌∷◌, ◌++◌, All, arith, leb,
}
use ctxfs.Common.Assoc.{remove}
use ctxfs.Common.Sort.{sort_by, sort_insert, Pairwise, IsOrder, Pairwise-sort_by}
use ctxfs.Common.Word.{u64_mod, add64, add64-eq}
use ctxfs.Core.Digest.{FilePath}
use ctxfs.Cache.Blob.{path_key}
use ctxfs.Cache.Tree.{
  TreeFiles, TreeCache, WalkedFile, walk_files, total_from, older_file, evict_files, maybe_evict,
}

-- The sizes together.
abbrev pub weight : List WalkedFile → ℕ
weight [] = 0
weight (f ∷ l) = f.size + weight l

weight-total_from :
    (sum : ℕ) (l : List WalkedFile) → sum + weight l < u64_mod → total_from sum l ≡ sum + weight l
unfolding total_from
weight-total_from sum [] fits = omega arith
weight-total_from sum (f ∷ l) fits =
    let here : add64 sum f.size ≡ sum + f.size = add64-eq sum f.size (omega arith) in
    let rest = weight-total_from (add64 sum f.size) l (omega arith) in omega arith

-- The files without those of these paths.
abbrev pub without : List WalkedFile → TreeFiles → TreeFiles
without [] files = files
without (f ∷ gone) files = without gone (remove f.path files)

-- The loop removes the first files of the list: as few as bring the weight within the limit.
abbrev pub IsEvicted : ℕ → List WalkedFile → TreeFiles → TreeFiles → Type 0
IsEvicted max_bytes sorted files files' =
    (gone : List WalkedFile) × (kept : List WalkedFile) × (sorted ≡ gone ++ kept)
    × (files' ≡ without gone files)
    × (weight kept ≤ max_bytes)
    × ((gone ≡ [])
        ⊎ ((start : List WalkedFile) × (last : WalkedFile) × (gone ≡ start ++ (last ∷ []))
            × (max_bytes < weight (last ∷ kept))))

abbrev pub all_removable : FilePath → Bool
all_removable path = true

stops :
    (max_bytes remaining : ℕ) (sorted : List WalkedFile) (files : TreeFiles)
    → remaining ≤ max_bytes
    → evict_files all_removable max_bytes remaining sorted files ≡ files
unfolding evict_files
stops max_bytes remaining [] files le = refl
stops max_bytes remaining (f ∷ sorted) files le = ground arith

goes_on :
    (max_bytes remaining : ℕ) (f : WalkedFile) (sorted : List WalkedFile) (files : TreeFiles)
    → max_bytes < remaining
    → evict_files all_removable max_bytes remaining (f ∷ sorted) files
      ≡ evict_files all_removable max_bytes (remaining - f.size) sorted (remove f.path files)
unfolding evict_files
goes_on max_bytes remaining f sorted files gt = ground arith

-- The last of the files that are removed, with one more in front.
IsLast-cons :
    (max_bytes : ℕ) (f : WalkedFile) (sorted gone kept : List WalkedFile)
    → sorted ≡ gone ++ kept
    → max_bytes < weight (f ∷ sorted)
    → (gone ≡ [])
      ⊎ ((start : List WalkedFile) × (last : WalkedFile) × (gone ≡ start ++ (last ∷ []))
          × (max_bytes < weight (last ∷ kept)))
    → (start : List WalkedFile) × (last : WalkedFile) × (f ∷ gone ≡ start ++ (last ∷ []))
      × (max_bytes < weight (last ∷ kept))
IsLast-cons max_bytes f sorted gone kept split over (inl none_) =
    let all : sorted ≡ kept = split ∙ ap (λ g. g ++ kept) none_ in
    ([], f, ap (λ g. f ∷ g) none_, subst (λ l. max_bytes < weight (f ∷ l)) all over)
IsLast-cons max_bytes f sorted gone kept split over (inr (start, last, is, big)) =
    (f ∷ start, last, ap (λ g. f ∷ g) is, big)

evict_files-IsEvicted :
    (max_bytes : ℕ) (sorted : List WalkedFile) (files : TreeFiles)
    → IsEvicted max_bytes sorted files
        (evict_files all_removable max_bytes (weight sorted) sorted files)
unfolding evict_files
evict_files-IsEvicted max_bytes [] files = ([], [], refl, refl, omega arith, inl refl)
evict_files-IsEvicted max_bytes (f ∷ sorted) files =
    elim (Bool-cases (leb (weight (f ∷ sorted)) max_bytes)) [
      | inl within ↦ (
        [],
        f ∷ sorted,
        refl,
        stops max_bytes (weight (f ∷ sorted)) (f ∷ sorted) files (ground arith),
        ground arith,
        inl refl,
      )
      | inr over ↦
          let (gone, kept, split, same, fits, last) =
            evict_files-IsEvicted max_bytes sorted (remove f.path files) in
          let more : max_bytes < weight (f ∷ sorted) = ground arith in
          let left : f.size + weight sorted - f.size ≡ weight sorted = omega arith in
          (
            f ∷ gone,
            kept,
            ap (λ l. f ∷ l) split,
            goes_on max_bytes (weight (f ∷ sorted)) f sorted files more
                ∙ (ap (λ n. evict_files all_removable max_bytes n sorted (remove f.path files)) left
                    ∙ same),
            fits,
            inr (IsLast-cons max_bytes f sorted gone kept split more last),
          )
    ]

-- No file of the list was written before this one.
abbrev pub IsOlder : WalkedFile → WalkedFile → Type 0
IsOlder a b = a.mtime ≤ b.mtime

IsOlder-IsOrder : IsOrder older_file IsOlder (λ a b. Unit {0})
unfolding older_file
IsOlder-IsOrder = record {
  turned = λ x y o. tt;
  later = λ x y o h. ground arith;
  here = λ x y o h. ground arith;
  past = λ x y z o h r. ground arith;
}

any_with : (l : List WalkedFile) → All (λ b. Unit {0}) l
any_with [] = tt
any_with (y ∷ l) = (tt, any_with l)

any_pair : (l : List WalkedFile) → Pairwise (λ a b. Unit {0}) l
any_pair [] = tt
any_pair (x ∷ l) = (any_with l, any_pair l)

sort_insert-weight :
    (x : WalkedFile) (l : List WalkedFile) → weight (sort_insert older_file x l) ≡ x.size + weight l
unfolding sort_insert
sort_insert-weight x [] = refl
sort_insert-weight x (y ∷ l) =
    let rest = sort_insert-weight x l in
    elim (Bool-cases (older_file y x)) [ inl later ↦ ground arith | inr here ↦ ground arith ]

sort_by-weight : (l : List WalkedFile) → weight (sort_by older_file l) ≡ weight l
unfolding sort_by
sort_by-weight [] = refl
sort_by-weight (x ∷ l) =
    sort_insert-weight x (sort_by older_file l) ∙ ap (λ n. x.size + n) (sort_by-weight l)

stays :
    (c : TreeCache)
    → total_from 0 (walk_files c.files) ≤ c.max_bytes
    → maybe_evict all_removable c ≡ c
unfolding maybe_evict
stays c le = ground arith

evicts :
    (c : TreeCache)
    → c.max_bytes < total_from 0 (walk_files c.files)
    → (maybe_evict all_removable c).files
      ≡ evict_files all_removable c.max_bytes
          (total_from 0 (walk_files c.files))
          (sort_by older_file (walk_files c.files))
          c.files
unfolding maybe_evict
evicts c gt = ground arith

-- Where every file can be removed and the sizes of the cached trees fit 64 bits together, `maybe_evict`
-- removes the first of the trees, listed from the oldest on: what stays of the list is within the
-- limit, and, if any is removed, would not be with the last of those that are removed.
pub maybe_evict-IsEvicted :
    (c : TreeCache)
    → weight (walk_files c.files) < u64_mod
    → Pairwise IsOlder (sort_by older_file (walk_files c.files))
      × IsEvicted c.max_bytes
          (sort_by older_file (walk_files c.files))
          c.files
          (maybe_evict all_removable c).files
maybe_evict-IsEvicted c fits =
    let files = walk_files c.files in
    let sorted = sort_by older_file files in
    let small : 0 + weight files < u64_mod = omega arith in
    let same = sort_by-weight files in
    let is_sum = weight-total_from 0 files small in
    let is : total_from 0 files ≡ weight sorted = omega arith in
    (
      Pairwise-sort_by older_file IsOlder (λ a b. Unit {0}) IsOlder-IsOrder files (any_pair files),
      elim (Bool-cases (leb (total_from 0 files) c.max_bytes)) [
        | inl within ↦ (
          [],
          sorted,
          refl,
          ap (λ (x : TreeCache). x.files) (stays c (ground arith)),
          ground arith,
          inl refl,
        )
        | inr over ↦
            subst (IsEvicted c.max_bytes sorted c.files)
              (sym (
                evicts c (ground arith)
                ∙ ap (λ n. evict_files all_removable c.max_bytes n sorted c.files) is))
              (evict_files-IsEvicted c.max_bytes sorted c.files)
      ],
    )
