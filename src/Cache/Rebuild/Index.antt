-- ===== src/Cache/Rebuild/Index.antt =====
-- The index that `rebuild_index` fills.
use ctxfs.Common.{
  ℕ, ◌+◌, ◌≤◌, ◌<◌, ◌≡◌, refl, sym, subst, ap, ◌∙◌, none, some, Option-cases, ◌⊎◌, inl, inr, List,
  [], ◌∷◌, ◌++◌, append_assoc, append-nil, All, All-map, In, In-All, Text, text_key, Text-discrete,
  arith,
}
use ctxfs.Common.Assoc.{lookup, Distinct, remove_absent, lookup-append}
use ctxfs.Common.Sort.{sort_by, All-sort_by, In-sort_by}
use ctxfs.Common.Word.{u64_mod, add64, add64-eq}
use ctxfs.Core.Digest.{sha1}
use ctxfs.Cache.LinkedMap.{LinkedHashMap}
use ctxfs.Cache.State.{CacheEntry, CacheState}
use ctxfs.Cache.Evict.Accounting.{IsAccounted, sizes}
use ctxfs.Cache.Rebuild.{
  Found, Scanned, ByHex, older, dedupe, deduped, entry_of, fill_index, rebuild_state,
}
use ctxfs.Cache.Rebuild.Sorted.{bytes, sort_by-IsSorted, sort_by-bytes}
use ctxfs.Cache.Rebuild.Dedupe.{IsDeduped, IsDeduped-map, dedupe-IsDeduped}

All-In : (l : List Scanned) → All (λ x. In x l) l
All-In [] = tt
All-In (x ∷ l) = (inl refl, All-map _ _ l (λ y i. inr i) (All-In l))

nothing_yet : IsDeduped (λ x. ⊥) 0 ([], [])
unfolding lookup
nothing_yet = record {
  distinct = tt;
  sum = omega arith;
  found = λ h f e. absurd (ground arith);
  covered = λ x s. absurd s;
}

deduped-IsDeduped :
    (scanned : List Scanned) → IsDeduped (λ x. In x scanned) (bytes scanned) (deduped scanned)
unfolding deduped
deduped-IsDeduped scanned =
    IsDeduped-map (λ y. ⊥ ⊎ In y (sort_by older scanned)) (λ y. In y scanned)
      (0 + bytes (sort_by older scanned)) (bytes scanned) (dedupe (sort_by older scanned) ([], []))
      (λ x p. elim p [
        | inl no_ ↦ absurd no_
        | inr i ↦
            In-All (λ y. In y scanned) (sort_by older scanned) x
              (All-sort_by older (λ y. In y scanned) scanned (All-In scanned)) i
      ])
      (λ x i. inr (In-sort_by older x scanned i)) (omega (arith, sort_by-bytes scanned))
      (dedupe-IsDeduped (λ x. ⊥) 0 (sort_by older scanned) ([], []) nothing_yet)

abbrev entries_of : ByHex → List (Text × CacheEntry)
entries_of [] = []
entries_of ((hex, f) ∷ l) = (hex, entry_of f) ∷ entries_of l

sizes-entries_of : (l : ByHex) → sizes (entries_of l) ≡ bytes l
unfolding sizes
sizes-entries_of [] = refl
sizes-entries_of ((hex, f) ∷ l) = ap (λ n. f.size + n) (sizes-entries_of l)

lookup-entries_of :
    (k : Text) (l : ByHex)
    → lookup k (entries_of l) ≡ elim (lookup k l) [ none ↦ none | some f ↦ some (entry_of f) ]
unfolding lookup
lookup-entries_of k [] = refl
lookup-entries_of k ((hex, f) ∷ l) = let rest = lookup-entries_of k l in ground arith

-- No key of the list is in the map yet.
abbrev IsNew : ByHex → List (Text × CacheEntry) → Type 0
IsNew l entries = (k : Text) (f : Found) → lookup k l ≡ some f → lookup k entries ≡ none

IsNew-first :
    (hex : Text) (f : Found) (l : ByHex) (entries : List (Text × CacheEntry))
    → IsNew ((hex, f) ∷ l) entries
    → lookup hex entries ≡ none
unfolding lookup
IsNew-first hex f l entries n = n hex f (ground arith)

IsNew-rest :
    (hex : Text) (f : Found) (l : ByHex) (entries : List (Text × CacheEntry))
    → lookup hex l ≡ none
    → IsNew ((hex, f) ∷ l) entries
    → IsNew l (entries ++ ((hex, entry_of f) ∷ []))
unfolding lookup
IsNew-rest hex f l entries absent n k g e = elim (Text-discrete k hex) [
  | yes is ↦
      let there : lookup hex l ≡ some g = subst (λ h. lookup h l ≡ some g) is e in
      absurd (ground arith)
  | no ne ↦
      let old = n k g (ground arith) in
      ground (arith, lookup-append k entries ((hex, entry_of f) ∷ []))
]

module _ (m : LinkedHashMap Text CacheEntry) where
  iter-insert_new :
      (hex : Text) (e : CacheEntry) (entries : m.Map)
      → lookup hex (m.iter entries) ≡ none
      → m.iter (m.insert hex e entries) ≡ m.iter entries ++ ((hex, e) ∷ [])
  iter-insert_new hex e entries absent =
      m.iter-insert hex e entries
      ∙ ap (λ l. l ++ ((hex, e) ∷ [])) (remove_absent hex (m.iter entries) absent)

  iter-fill_index :
      (l : ByHex) (entries : m.Map) (total : ℕ)
      → Distinct l
      → IsNew l (m.iter entries)
      → m.iter (fill_index m l entries total).0 ≡ m.iter entries ++ entries_of l
  unfolding fill_index
  iter-fill_index [] entries total d n = sym (append-nil (m.iter entries))
  iter-fill_index ((hex, f) ∷ l) entries total d n =
      let added =
        iter-insert_new hex (entry_of f) entries (IsNew-first hex f l (m.iter entries) n) in
      iter-fill_index l (m.insert hex (entry_of f) entries) (add64 total f.size) d.1
        (subst (IsNew l) (sym added) (IsNew-rest hex f l (m.iter entries) d.0 n))
      ∙ (ap (λ x. x ++ entries_of l) added
          ∙ append_assoc (m.iter entries) ((hex, entry_of f) ∷ []) (entries_of l))

  total-fill_index :
      (l : ByHex) (entries : m.Map) (total : ℕ)
      → total + bytes l < u64_mod
      → (fill_index m l entries total).1 ≡ total + bytes l
  unfolding fill_index
  total-fill_index [] entries total fits = omega arith
  total-fill_index ((hex, f) ∷ l) entries total fits =
      let here : add64 total f.size ≡ total + f.size = add64-eq total f.size (omega arith) in
      let rest =
        total-fill_index l (m.insert hex (entry_of f) entries) (add64 total f.size) (omega arith) in
      omega arith

  -- The index of the files: sizes that add up, entries of files, and each file with an entry of
  -- its algorithm, or one of SHA-1 while it is to be deleted.
  pub record IsRebuilt (scanned : List Scanned) (s : CacheState m) : Type 0 where
    pub accounted : IsAccounted m s
    pub indexed :
        (hex : Text) (e : CacheEntry)
        → lookup hex (m.iter s.entries) ≡ some e
        → (f : Found) × In (hex, f) scanned × (e ≡ entry_of f)
    pub covered :
        (x : Scanned)
        → In x scanned
        → (e : CacheEntry) × (lookup x.0 (m.iter s.entries) ≡ some e)
          × ((e.algorithm ≡ x.1.algorithm)
              ⊎ ((e.algorithm ≡ sha1) × In (x.0, x.1.algorithm) (deduped scanned).1))

  index-entry :
      (hex : Text) (l : ByHex) (e : CacheEntry)
      → lookup hex (entries_of l) ≡ some e
      → (f : Found) × (lookup hex l ≡ some f) × (e ≡ entry_of f)
  index-entry hex l e h = elim (Option-cases (lookup hex l)) [
    | inl absent ↦ absurd (ground (arith, lookup-entries_of hex l))
    | inr (f, found) ↦ (f, found, ground (arith, lookup-entries_of hex l))
  ]

  abbrev sorted : List Scanned → ByHex
  sorted scanned = sort_by older (deduped scanned).0

  new_map : (l : ByHex) → IsNew l (m.iter m.new)
  unfolding lookup
  new_map l k f e = ap (lookup k) m.iter-new

  iter-rebuild_state :
      (scanned : List Scanned) (s : CacheState m)
      → m.iter (rebuild_state m scanned s).entries ≡ entries_of (sorted scanned)
  unfolding rebuild_state
  iter-rebuild_state scanned s =
      let d = sort_by-IsSorted (deduped scanned).0 (deduped-IsDeduped scanned).distinct in
      iter-fill_index (sorted scanned) m.new 0 d.distinct (new_map (sorted scanned))
      ∙ ap (λ x. x ++ entries_of (sorted scanned)) m.iter-new

  sorted-bytes : (scanned : List Scanned) → bytes (sorted scanned) ≤ bytes scanned
  sorted-bytes scanned =
      let d = deduped-IsDeduped scanned in
      let s = d.sum in omega (arith, sort_by-bytes (deduped scanned).0)

  total-rebuild_state :
      (scanned : List Scanned) (s : CacheState m)
      → bytes scanned < u64_mod
      → (rebuild_state m scanned s).total_bytes ≡ bytes (sorted scanned)
  unfolding rebuild_state
  total-rebuild_state scanned s fits =
      let le = sorted-bytes scanned in
      let small : 0 + bytes (sorted scanned) < u64_mod = omega arith in
      let zero_add : 0 + bytes (sorted scanned) ≡ bytes (sorted scanned) = omega arith in
      total-fill_index (sorted scanned) m.new 0 small ∙ zero_add

  rebuilt-IsAccounted :
      (scanned : List Scanned) (s : CacheState m)
      → bytes scanned < u64_mod
      → IsAccounted m (rebuild_state m scanned s)
  rebuilt-IsAccounted scanned s fits =
      let total = total-rebuild_state scanned s fits in
      let le = sorted-bytes scanned in
      record {
        sums =
            total
            ∙ (sym (sizes-entries_of (sorted scanned))
                ∙ ap sizes (sym (iter-rebuild_state scanned s)));
        fits = omega arith;
      }

  -- Where the sizes of the files that the scan finds fit 64 bits together, the index that
  -- `rebuild_index` sets has the sum of its sizes as its total, each of its entries is a file of the
  -- scan, and each file of the scan has an entry for its hex, of its own algorithm; or of SHA-1, and then
  -- the file is among those that are deleted.
  pub rebuild_state-IsRebuilt :
      (scanned : List Scanned) (s : CacheState m)
      → bytes scanned < u64_mod
      → IsRebuilt scanned (rebuild_state m scanned s)
  rebuild_state-IsRebuilt scanned s fits =
      let d = deduped-IsDeduped scanned in
      let srt = sort_by-IsSorted (deduped scanned).0 d.distinct in
      let iter = iter-rebuild_state scanned s in
      record {
        accounted = rebuilt-IsAccounted scanned s fits;
        indexed = λ hex e h.
            let (f, found, is) =
              index-entry hex (sorted scanned) e (ap (lookup hex) (sym iter) ∙ h) in
            (f, d.found hex f (sym (srt.looks hex) ∙ found), is);
        covered = λ x i.
            let (f, found, rest) = d.covered x i in
            (
              entry_of f,
              ap (lookup x.0) iter
                  ∙ (lookup-entries_of x.0 (sorted scanned)
                      ∙ ap (λ o. elim o [ none ↦ none | some g ↦ some (entry_of g) ])
                          (srt.looks x.0 ∙ found)),
              rest,
            );
      }
