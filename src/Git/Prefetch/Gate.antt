-- ===== src/Git/Prefetch/Gate.antt =====
-- When the gate lets the archive be downloaded.
use ctxfs.Common.{
  ℕ, suc, ◌+◌, ◌≤◌, ◌<◌, ◌≡◌, refl, sym, subst, ap, ◌∙◌, true, false, Bool-cases, none, some,
  Option-cases, ◌⊎◌, ◌↔◌, inl, inr, List, [], ◌∷◌, All, Text-discrete, arith, if◌then◌else◌, holds,
  length, not,
}
use ctxfs.Common.Word.{u64_mod, add64-eq}
use ctxfs.Core.Digest.{from_sha1_hex}
use ctxfs.Git.Tree.{TreeEntry, mode_symlink}
use ctxfs.Provider.Fetcher.{
  ContentRequest, ContentKind, PrefetchPolicy, auto, force, disabled, PrefetchPolicy-discrete,
  FetchPolicy, tarball, known_bytes, known_bytes_from, decide_policy,
}
use ctxfs.Git.Prefetch.{
  FetchOptions, is_blob, any_unknown, effective_prefetch_policy, tree_entry_to_request, requests_of,
  auto_gate, or_0,
}

-- The blobs of a listing, and their sizes together.
abbrev pub blob_count : List TreeEntry → ℕ
blob_count [] = 0
blob_count (e ∷ entries) = if is_blob e then suc (blob_count entries) else blob_count entries

abbrev pub blob_bytes : List TreeEntry → ℕ
blob_bytes [] = 0
blob_bytes (e ∷ entries) =
    if is_blob e then or_0 e.size + blob_bytes entries else blob_bytes entries

-- Every blob has a size.
abbrev pub HasSizes : List TreeEntry → Type 0
HasSizes entries = All (λ (e : TreeEntry). (is_blob e ≡ true) → (n : ℕ) × (e.size ≡ some n)) entries

abbrev blob_request : TreeEntry → ContentRequest
blob_request entry = record {
  path = entry.path;
  digest = some (from_sha1_hex entry.sha);
  size = entry.size;
  kind =
      if holds (Text-discrete entry.mode mode_symlink)
      then ContentKind.symlink
      else ContentKind.file;
}

request_of : (e : TreeEntry) → is_blob e ≡ true → tree_entry_to_request e ≡ some (blob_request e)
unfolding tree_entry_to_request
request_of e b = ap (λ x. if not x then none else some (blob_request e)) b

no_request : (e : TreeEntry) → is_blob e ≡ false → tree_entry_to_request e ≡ none
unfolding tree_entry_to_request
no_request e b = ground arith

length-requests_of : (entries : List TreeEntry) → length (requests_of entries) ≡ blob_count entries
unfolding requests_of
length-requests_of [] = refl
length-requests_of (e ∷ entries) = elim (Bool-cases (is_blob e)) [
  | inl b ↦ ground (arith, length-requests_of entries, request_of e b)
  | inr b ↦ ground (arith, length-requests_of entries, no_request e b)
]

known_bytes-step :
    (sum : ℕ) (r : ContentRequest) (requests : List ContentRequest)
    → sum + or_0 r.size < u64_mod
    → known_bytes_from sum (r ∷ requests) ≡ known_bytes_from (sum + or_0 r.size) requests
unfolding known_bytes_from
known_bytes-step sum r requests fits = elim (Option-cases r.size) [
  | inl absent ↦ ground arith
  | inr (n, present) ↦ ground (arith, add64-eq sum n)
]

known_bytes-requests_of :
    (sum : ℕ) (entries : List TreeEntry)
    → sum + blob_bytes entries < u64_mod
    → known_bytes_from sum (requests_of entries) ≡ sum + blob_bytes entries
unfolding requests_of known_bytes_from
known_bytes-requests_of sum [] fits = omega arith
known_bytes-requests_of sum (e ∷ entries) fits = elim (Bool-cases (is_blob e)) [
  | inl b ↦ ground (
    arith,
    request_of e b,
    known_bytes-step sum (blob_request e) (requests_of entries),
    known_bytes-requests_of (sum + or_0 e.size) entries,
  )
  | inr b ↦ ground (arith, known_bytes-requests_of sum entries, no_request e b)
]

known_bytes-blob_bytes :
    (entries : List TreeEntry)
    → blob_bytes entries < u64_mod
    → known_bytes (requests_of entries) ≡ blob_bytes entries
unfolding known_bytes
known_bytes-blob_bytes entries fits =
    let fits' : 0 + blob_bytes entries < u64_mod = omega arith in
    let zero_add : 0 + blob_bytes entries ≡ blob_bytes entries = omega arith in
    known_bytes-requests_of 0 entries fits' ∙ zero_add

any_unknown-HasSizes : (entries : List TreeEntry) → any_unknown entries ≡ false → HasSizes entries
unfolding any_unknown
any_unknown-HasSizes [] h = tt
any_unknown-HasSizes (e ∷ entries) h = elim (Bool-cases (is_blob e)) [
  | inr b ↦ (λ b'. absurd (ground arith), any_unknown-HasSizes entries (ground arith))
  | inl b ↦ elim (Option-cases e.size) [
    | inl absent ↦ absurd (ground arith)
    | inr (n, present) ↦ (λ b'. (n, present), any_unknown-HasSizes entries (ground arith))
  ]
]

HasSizes-any_unknown : (entries : List TreeEntry) → HasSizes entries → any_unknown entries ≡ false
unfolding any_unknown
HasSizes-any_unknown [] a = refl
HasSizes-any_unknown (e ∷ entries) a =
    let rest = HasSizes-any_unknown entries a.1 in
    elim (Bool-cases (is_blob e)) [
      | inr b ↦ ground arith
      | inl b ↦ let (n, present) = a.0 b in ground arith
    ]

-- What the gate asks for: the user's word, or known sizes, enough blobs and not too many bytes.
abbrev pub IsGated : FetchOptions → List TreeEntry → Type 0
IsGated options entries =
    (options.prefetch ≡ force)
    ⊎ ((options.prefetch ≡ auto)
        × HasSizes entries
        × (options.prefetch_threshold_count ≤ blob_count entries)
        × (blob_bytes entries ≤ options.prefetch_max_bytes))

-- The decision, by the policy of the user.
abbrev decided : PrefetchPolicy → List TreeEntry → (threshold_count max_bytes : ℕ) → FetchPolicy
decided disabled entries t m = FetchPolicy.lazy
decided force entries t m =
    tarball (known_bytes (requests_of entries)) (length (requests_of entries))
decided auto entries t m =
    if any_unknown entries
    then FetchPolicy.lazy
    else decide_policy (length (requests_of entries)) (known_bytes (requests_of entries)) auto t m

auto_gate-decided :
    (p : PrefetchPolicy) (t m : ℕ) (entries : List TreeEntry)
    → auto_gate
        (record { prefetch = p; prefetch_threshold_count = t; prefetch_max_bytes = m })
        entries
      ≡ decided p entries t m
unfolding auto_gate effective_prefetch_policy decide_policy PrefetchPolicy-discrete
auto_gate-decided disabled t m entries = refl
auto_gate-decided force t m entries = refl
auto_gate-decided auto t m entries = elim (Bool-cases (any_unknown entries)) [
  | inl u ↦ ground arith
  | inr u ↦ ground arith
]

decide-tarball :
    (n k t m b c : ℕ)
    → decide_policy n k auto t m ≡ tarball b c
    → (t ≤ n) × (k ≤ m) × (b ≡ k) × (c ≡ n)
unfolding decide_policy
decide-tarball n k t m b c h = (ground arith, ground arith, ground arith, ground arith)

tarball-decide : (n k t m : ℕ) → t ≤ n → k ≤ m → decide_policy n k auto t m ≡ tarball k n
unfolding decide_policy
tarball-decide n k t m few fits = ground arith

-- The archive that the gate asks for, with the numbers that it reports.
abbrev pub Elects : FetchOptions → List TreeEntry → (estimated_bytes count : ℕ) → Type 0
Elects options entries b c =
    IsGated options entries × (b ≡ blob_bytes entries) × (c ≡ blob_count entries)

decided-Elects :
    (p : PrefetchPolicy) (t m : ℕ) (entries : List TreeEntry) (b c : ℕ)
    → known_bytes (requests_of entries) ≡ blob_bytes entries
    → decided p entries t m ≡ tarball b c
    → Elects
        (record { prefetch = p; prefetch_threshold_count = t; prefetch_max_bytes = m })
        entries
        b
        c
decided-Elects disabled t m entries b c k h = absurd (ground arith)
decided-Elects force t m entries b c k h =
    (inl refl, ground arith, ground (arith, length-requests_of entries))
decided-Elects auto t m entries b c k h = elim (Bool-cases (any_unknown entries)) [
  | inl u ↦ absurd (ground arith)
  | inr u ↦
      let l = length-requests_of entries in
      let is : decide_policy (length (requests_of entries)) (known_bytes (requests_of entries)) auto
            t m
          ≡ tarball b c =
        ground arith in
      let (few, fits, bs, cs) = decide-tarball _ _ t m b c is in
      (inr (refl, any_unknown-HasSizes entries u, ground arith, ground arith), bs ∙ k, cs ∙ l)
]

Elects-decided :
    (p : PrefetchPolicy) (t m : ℕ) (entries : List TreeEntry) (b c : ℕ)
    → known_bytes (requests_of entries) ≡ blob_bytes entries
    → Elects
        (record { prefetch = p; prefetch_threshold_count = t; prefetch_max_bytes = m })
        entries
        b
        c
    → decided p entries t m ≡ tarball b c
Elects-decided p t m entries b c k (inl is, bs, cs) =
    subst (λ x. decided x entries t m ≡ tarball b c) (sym is)
      (ground (arith, length-requests_of entries))
Elects-decided p t m entries b c k (inr (is, sizes, few, fits), bs, cs) =
    let u = HasSizes-any_unknown entries sizes in
    let l = length-requests_of entries in
    let step =
      tarball-decide (length (requests_of entries)) (known_bytes (requests_of entries)) t m
        (ground arith) (ground arith) in
    subst (λ x. decided x entries t m ≡ tarball b c) (sym is) (ground arith)

-- Where the sizes of all blobs fit 64 bits together, the gate of `fetch_snapshot_inner` has the
-- archive downloaded exactly if the policy is to force it, or is automatic, every blob has a known
-- size, there are as many blobs as the threshold or more, and their bytes are within the cap;
-- and the bytes and the count that it reports are those of the blobs.
pub auto_gate-Elects :
    (options : FetchOptions) (entries : List TreeEntry) (b c : ℕ)
    → blob_bytes entries < u64_mod
    → (auto_gate options entries ≡ tarball b c) ↔ Elects options entries b c
auto_gate-Elects options entries b c fits =
    let k = known_bytes-blob_bytes entries fits in
    let d =
      auto_gate-decided options.prefetch options.prefetch_threshold_count options.prefetch_max_bytes
        entries in
    (
      λ h.
          decided-Elects options.prefetch options.prefetch_threshold_count
            options.prefetch_max_bytes entries b c k (sym d ∙ h),
      λ e.
          d
          ∙ Elects-decided options.prefetch options.prefetch_threshold_count
              options.prefetch_max_bytes entries b c k e,
    )
