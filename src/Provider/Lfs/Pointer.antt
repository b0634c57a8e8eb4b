-- ===== src/Provider/Lfs/Pointer.antt =====
-- `detect_lfs_pointer` against the pointer format.
use ctxfs.Common.{
  ℕ, ◌+◌, ◌-◌, ◌*◌, ◌≤◌, ◌≡◌, ◌≢◌, refl, sym, ap, ◌∙◌, Bool, true, false, some, Option-cases, ◌↔◌,
  inl, inr, List, [], ◌∷◌, ◌++◌, All, Text, Text-discrete, arith, ◌==◌, if◌then◌else◌, length,
  split, strip_prefix, ℕ_discrete,
}
use ctxfs.Common.Number.{is_digit, parse_digits, parse_nonempty, unsigned, parse_u64}
use ctxfs.Common.Split.{split-append, join, join-split, strip_prefix-some, strip_prefix-append}
use ctxfs.Provider.Lfs.{
  LfsPointerInfo, lfs_version_line, lfs_oid_prefix, lfs_size_prefix, lfs_pointer_max_bytes,
  is_ascii_hexdigit, all_hex, three_lines, oid_of, size_of, pointer_of, detect_lfs_pointer,
}

-- The three lines of the format.
abbrev third_line : Text → Text
third_line digits = (lfs_size_prefix ++ digits) ++ (10 ∷ [])

abbrev last_lines : (oid digits : Text) → Text
last_lines oid digits = (lfs_oid_prefix ++ oid) ++ (10 ∷ third_line digits)

abbrev pub lines_of : (oid digits : Text) → Text
lines_of oid digits = lfs_version_line ++ (10 ∷ last_lines oid digits)

-- The bytes are a pointer file with this object and size.
abbrev pub IsPointer : (List ℕ → Bool) → List ℕ → LfsPointerInfo → Type 0
IsPointer is_utf8 bytes info =
    (digits : Text) × (bytes ≡ lines_of info.oid_sha256 digits)
    × (length bytes ≤ lfs_pointer_max_bytes)
    × (is_utf8 bytes ≡ true)
    × (length info.oid_sha256 ≡ 64)
    × (all_hex info.oid_sha256 ≡ true)
    × (parse_u64 digits ≡ some info.size)

three_lines-some :
    (l : List Text) (v o s : Text) → three_lines l ≡ some (v, (o, s)) → l ≡ v ∷ o ∷ s ∷ [] ∷ []
unfolding three_lines
three_lines-some [] v o s h = absurd (ground arith)
three_lines-some (v' ∷ []) v o s h = absurd (ground arith)
three_lines-some (v' ∷ o' ∷ []) v o s h = absurd (ground arith)
three_lines-some (v' ∷ o' ∷ s' ∷ []) v o s h = absurd (ground arith)
three_lines-some (v' ∷ o' ∷ s' ∷ [] ∷ []) v o s h = ground arith
three_lines-some (v' ∷ o' ∷ s' ∷ (c ∷ cs) ∷ []) v o s h = absurd (ground arith)
three_lines-some (v' ∷ o' ∷ s' ∷ trailer ∷ extra ∷ more) v o s h = absurd (ground arith)

oid_of-some :
    (o_line oid : Text)
    → oid_of o_line ≡ some oid
    → (o_line ≡ lfs_oid_prefix ++ oid) × (length oid ≡ 64) × (all_hex oid ≡ true)
unfolding oid_of
oid_of-some o_line oid h = elim (Option-cases (strip_prefix lfs_oid_prefix o_line)) [
  | inl absent ↦ absurd (ground arith)
  | inr (x, cut) ↦
      let is : x ≡ oid = ground arith in
      (
        strip_prefix-some lfs_oid_prefix o_line oid (cut ∙ ap (λ y. some y) is),
        ground arith,
        ground arith,
      )
]

size_of-some :
    (s_line : Text) (size : ℕ)
    → size_of s_line ≡ some size
    → (digits : Text) × (s_line ≡ lfs_size_prefix ++ digits) × (parse_u64 digits ≡ some size)
unfolding size_of
size_of-some s_line size h = elim (Option-cases (strip_prefix lfs_size_prefix s_line)) [
  | inl absent ↦ absurd (ground arith)
  | inr (x, cut) ↦ (x, strip_prefix-some lfs_size_prefix s_line x cut, ground arith)
]

pointer_of-some :
    (v o s : Text) (info : LfsPointerInfo)
    → pointer_of (v, (o, s)) ≡ some info
    → (v ≡ lfs_version_line) × (oid_of o ≡ some info.oid_sha256) × (size_of s ≡ some info.size)
unfolding pointer_of
pointer_of-some v o s info h = elim (Text-discrete v lfs_version_line) [
  | no other ↦ absurd (ground arith)
  | yes is ↦ elim (Option-cases (oid_of o)) [
    | inl absent ↦ absurd (ground arith)
    | inr (oid, found) ↦ elim (Option-cases (size_of s)) [
      | inl absent ↦ absurd (ground arith)
      | inr (size, read) ↦
          let same : record { oid_sha256 = oid; size = size } ≡ info = ground arith in
          (is, found ∙ ap (λ x. some x.oid_sha256) same, read ∙ ap (λ x. some x.size) same)
    ]
  ]
]

abbrev IsLine : Text → Type 0
IsLine s = All (λ c. c ≢ 10) s

abbrev has_newline : Text → Bool
has_newline [] = false
has_newline (c ∷ s) = if c == 10 then true else has_newline s

has_newline-IsLine : (s : Text) → has_newline s ≡ false → IsLine s
has_newline-IsLine [] h = tt
has_newline-IsLine (c ∷ s) h = elim (ℕ_discrete c 10) [
  | yes is ↦ absurd (ground arith)
  | no ne ↦ (ne, has_newline-IsLine s (ground arith))
]

IsLine-append : (x y : Text) → IsLine x → IsLine y → IsLine (x ++ y)
IsLine-append [] y a b = b
IsLine-append (c ∷ x) y a b = (a.0, IsLine-append x y a.1 b)

hexdigit-newline : (c : ℕ) → is_ascii_hexdigit c ≡ true → c ≢ 10
unfolding is_ascii_hexdigit is_digit
hexdigit-newline c h = ground arith

all_hex-IsLine : (s : Text) → all_hex s ≡ true → IsLine s
unfolding all_hex
all_hex-IsLine [] h = tt
all_hex-IsLine (c ∷ s) h = (hexdigit-newline c (ground arith), all_hex-IsLine s (ground arith))

parse_digits-cons :
    (n c m : ℕ) (s : Text)
    → parse_digits n (c ∷ s) ≡ some m
    → (c ≢ 10) × (parse_digits (n * 10 + (c - 48)) s ≡ some m)
unfolding parse_digits is_digit
parse_digits-cons n c m s h = (ground arith, ground arith)

parse_digits-IsLine : (n m : ℕ) (s : Text) → parse_digits n s ≡ some m → IsLine s
parse_digits-IsLine n m [] h = tt
parse_digits-IsLine n m (c ∷ s) h =
    let (ne, rest) = parse_digits-cons n c m s h in
    (ne, parse_digits-IsLine (n * 10 + (c - 48)) m s rest)

parse_nonempty-IsLine : (m : ℕ) (s : Text) → parse_nonempty s ≡ some m → IsLine s
unfolding parse_nonempty
parse_nonempty-IsLine m [] h = tt
parse_nonempty-IsLine m (c ∷ s) h = parse_digits-IsLine 0 m (c ∷ s) h

parse_u64-IsLine : (m : ℕ) (s : Text) → parse_u64 s ≡ some m → IsLine s
unfolding parse_u64 unsigned
parse_u64-IsLine m [] h = tt
parse_u64-IsLine m (c ∷ s) h = elim (ℕ_discrete c 43) [
  | yes is ↦ (ground arith, parse_nonempty-IsLine m s (ground arith))
  | no ne ↦ parse_nonempty-IsLine m (c ∷ s) (ground arith)
]

split-lines_of :
    (oid digits : Text)
    → IsLine oid
    → IsLine digits
    → split 10 (lines_of oid digits)
      ≡ lfs_version_line ∷ (lfs_oid_prefix ++ oid) ∷ (lfs_size_prefix ++ digits) ∷ [] ∷ []
unfolding split
split-lines_of oid digits o d =
    split-append 10 lfs_version_line (last_lines oid digits)
      (has_newline-IsLine lfs_version_line refl)
    ∙ ap (λ x. lfs_version_line ∷ x)
        (split-append 10 (lfs_oid_prefix ++ oid) (third_line digits)
            (IsLine-append lfs_oid_prefix oid (has_newline-IsLine lfs_oid_prefix refl) o)
          ∙ ap (λ x. (lfs_oid_prefix ++ oid) ∷ x)
              (split-append 10 (lfs_size_prefix ++ digits) []
                (IsLine-append lfs_size_prefix digits (has_newline-IsLine lfs_size_prefix refl) d)))

pointer-lines_of :
    (oid digits : Text) (size : ℕ)
    → length oid ≡ 64
    → all_hex oid ≡ true
    → parse_u64 digits ≡ some size
    → pointer_of (lfs_version_line, (lfs_oid_prefix ++ oid, lfs_size_prefix ++ digits))
      ≡ some (record { oid_sha256 = oid; size = size })
unfolding pointer_of oid_of size_of
pointer-lines_of oid digits size l a p =
    let o = strip_prefix-append lfs_oid_prefix oid in
    let s = strip_prefix-append lfs_size_prefix digits in ground arith

detects :
    (is_utf8 : List ℕ → Bool) (bytes : List ℕ) (lines : Text × (Text × Text))
    → bytes ≢ []
    → length bytes ≤ lfs_pointer_max_bytes
    → is_utf8 bytes ≡ true
    → three_lines (split 10 bytes) ≡ some lines
    → detect_lfs_pointer is_utf8 bytes ≡ pointer_of lines
unfolding detect_lfs_pointer
detects is_utf8 [] lines n l u t = absurd (n refl)
detects is_utf8 (b ∷ bs) lines n l u t = ground arith

detected :
    (is_utf8 : List ℕ → Bool) (bytes : List ℕ) (info : LfsPointerInfo)
    → detect_lfs_pointer is_utf8 bytes ≡ some info
    → (lines : Text × (Text × Text)) × (length bytes ≤ lfs_pointer_max_bytes)
      × (is_utf8 bytes ≡ true)
      × (three_lines (split 10 bytes) ≡ some lines)
      × (pointer_of lines ≡ some info)
unfolding detect_lfs_pointer
detected is_utf8 [] info h = absurd (ground arith)
detected is_utf8 (b ∷ bs) info h = elim (Option-cases (three_lines (split 10 (b ∷ bs)))) [
  | inl absent ↦ absurd (ground arith)
  | inr (lines, found) ↦ (lines, ground arith, ground arith, found, ground arith)
]

IsPointer-detect :
    (is_utf8 : List ℕ → Bool) (bytes : List ℕ) (info : LfsPointerInfo)
    → IsPointer is_utf8 bytes info
    → detect_lfs_pointer is_utf8 bytes ≡ some info
unfolding three_lines
IsPointer-detect is_utf8 bytes info (digits, is, fits, good, l, a, p) =
    let pieces =
      ap (split 10) is
      ∙ split-lines_of info.oid_sha256 digits (all_hex-IsLine info.oid_sha256 a)
          (parse_u64-IsLine info.size digits p) in
    let full : bytes ≢ [] = ground arith in
    detects is_utf8 bytes _ full fits good (ap three_lines pieces)
    ∙ pointer-lines_of info.oid_sha256 digits info.size l a p

detect-IsPointer :
    (is_utf8 : List ℕ → Bool) (bytes : List ℕ) (info : LfsPointerInfo)
    → detect_lfs_pointer is_utf8 bytes ≡ some info
    → IsPointer is_utf8 bytes info
detect-IsPointer is_utf8 bytes info h =
    let ((v, (o, s)), fits, good, three, found) = detected is_utf8 bytes info h in
    let (version, oid, size) = pointer_of-some v o s info found in
    let (o_is, l, a) = oid_of-some o info.oid_sha256 oid in
    let (digits, s_is, p) = size_of-some s info.size size in
    let joined : join 10 (v ∷ o ∷ s ∷ [] ∷ []) ≡ lines_of info.oid_sha256 digits =
      ap (λ x. x ++ (10 ∷ (o ++ (10 ∷ (s ++ (10 ∷ [])))))) version
      ∙ (ap (λ x. lfs_version_line ++ (10 ∷ (x ++ (10 ∷ (s ++ (10 ∷ [])))))) o_is
          ∙ ap
              (λ x.
                lfs_version_line
                ++ (10 ∷ ((lfs_oid_prefix ++ info.oid_sha256) ++ (10 ∷ (x ++ (10 ∷ []))))))
              s_is) in
    (
      digits,
      sym (join-split 10 bytes)
          ∙ (ap (join 10) (three_lines-some (split 10 bytes) v o s three) ∙ joined),
      fits,
      good,
      l,
      a,
      p,
    )

-- `detect_lfs_pointer` returns an object and a size exactly for UTF-8 bytes, at most 1024 of them,
-- that are three lines: the version, `oid sha256:` with an object of 64 hexadecimal digits, and
-- `size ` with a text that parses as a 64-bit number, which is the size.
pub detect_lfs_pointer-IsPointer :
    (is_utf8 : List ℕ → Bool) (bytes : List ℕ) (info : LfsPointerInfo)
    → (detect_lfs_pointer is_utf8 bytes ≡ some info) ↔ IsPointer is_utf8 bytes info
detect_lfs_pointer-IsPointer is_utf8 bytes info =
    (detect-IsPointer is_utf8 bytes info, IsPointer-detect is_utf8 bytes info)
