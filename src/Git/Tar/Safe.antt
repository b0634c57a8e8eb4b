-- ===== src/Git/Tar/Safe.antt =====
-- Which paths of an archive `validate_tar_entry_path` accepts, and as what.
use ctxfs.Common.{
  ℕ, ◌≤◌, ◌≡◌, ◌≢◌, refl, sym, subst, ap, ◌∙◌, false, none, some, Option-cases, ok, ◌⊎◌, ◌↔◌, inl,
  inr, List, [], ◌∷◌, ◌++◌, All, Text, text, Text-discrete, split, arith,
}
use ctxfs.Common.Split.{split-append}
use ctxfs.Core.Source.{split_once}
use ctxfs.Core.Source.Cut.{
  Lacks, split_once-some, split_once-none, split_once-append, split_once-Lacks,
}
use ctxfs.Git.Tree.{Utf8}
use ctxfs.Git.Tar.{
  EntryType, directory, other, any_byte, is_nul, is_control, starts_with_slash, has_dot_dot,
  tar_path_error, wrapper_path, strip_wrapper, validate_tar_entry_path,
}

-- No byte is below 32.
abbrev pub IsPrintable : Text → Type 0
IsPrintable s = All (λ b. 32 ≤ b) s

abbrev pub HasNoDotDot : Text → Type 0
HasNoDotDot s = All (λ seg. seg ≢ text "..") (split b'/' s)

any_byte-false : (s : Text) → any_byte is_control s ≡ false → IsPrintable s
unfolding any_byte
any_byte-false [] h = tt
any_byte-false (b ∷ bs) h = (ground arith, any_byte-false bs (ground arith))

has_dot_dot-false :
    (segs : List Text) → has_dot_dot segs ≡ false → All (λ seg. seg ≢ text "..") segs
unfolding has_dot_dot
has_dot_dot-false [] h = tt
has_dot_dot-false (seg ∷ segs) h = elim (Text-discrete seg (text "..")) [
  | yes is ↦ absurd (ground arith)
  | no ne ↦ (ne, has_dot_dot-false segs (ground arith))
]

append-All : (P : ℕ → Type 0) (x y : Text) → All P (x ++ y) → All P x × All P y
append-All P [] y a = (tt, a)
append-All P (c ∷ x) y a = let (l, r) = append-All P x y a.1 in ((a.0, l), r)

-- The raw path has no byte below 32, no segment `..`, and no `/` at its start.
abbrev pub IsClean : Utf8 → Text → Type 0
IsClean utf8 raw =
    (utf8 raw ≡ none) × IsPrintable raw × HasNoDotDot raw × (starts_with_slash raw ≡ false)

tar_path_error-IsClean :
    (utf8 : Utf8) (raw : Text) → tar_path_error utf8 raw ≡ none → IsClean utf8 raw
unfolding tar_path_error
tar_path_error-IsClean utf8 raw h = elim (Option-cases (utf8 raw)) [
  | inr (e, bad) ↦ absurd (ground arith)
  | inl good ↦ (
    good,
    any_byte-false raw (ground arith),
    has_dot_dot-false (split b'/' raw) (ground arith),
    ground arith,
  )
]

any_byte-control : (s : Text) → IsPrintable s → any_byte is_control s ≡ false
unfolding any_byte
any_byte-control [] a = refl
any_byte-control (b ∷ bs) a =
    let rest = any_byte-control bs a.1 in let le : 32 ≤ b = a.0 in ground arith

any_byte-nul : (s : Text) → IsPrintable s → any_byte is_nul s ≡ false
unfolding any_byte
any_byte-nul [] a = refl
any_byte-nul (b ∷ bs) a = let rest = any_byte-nul bs a.1 in let le : 32 ≤ b = a.0 in ground arith

has_dot_dot-none : (segs : List Text) → All (λ seg. seg ≢ text "..") segs → has_dot_dot segs ≡ false
unfolding has_dot_dot
has_dot_dot-none [] a = refl
has_dot_dot-none (seg ∷ segs) a =
    let rest = has_dot_dot-none segs a.1 in
    elim (Text-discrete seg (text "..")) [ yes is ↦ absurd (a.0 is) | no ne ↦ ground arith ]

IsClean-tar_path_error :
    (utf8 : Utf8) (raw : Text) → IsClean utf8 raw → tar_path_error utf8 raw ≡ none
unfolding tar_path_error
IsClean-tar_path_error utf8 raw (good, printable, dots, relative) = ground (
  arith,
  any_byte-control raw printable,
  any_byte-nul raw printable,
  has_dot_dot-none (split b'/' raw) dots,
)

-- The accepted path is empty for the wrapper itself, which only a directory can be; else it is what
-- follows the wrapper.
abbrev pub IsUnderWrapper : Text → EntryType → Text → Type 0
IsUnderWrapper raw entry_type path =
    ((path ≡ [])
      × (entry_type ≡ directory)
      × (Lacks b'/' raw ⊎ ((w : Text) × (raw ≡ w ++ (b'/' ∷ [])) × Lacks b'/' w)))
    ⊎ ((path ≢ []) × (w : Text) × (raw ≡ w ++ (b'/' ∷ path)) × Lacks b'/' w)

wrapper_path-ok :
    (raw : Text) (entry_type : EntryType) (path : Text)
    → wrapper_path raw entry_type ≡ ok path
    → (path ≡ []) × (entry_type ≡ directory)
unfolding wrapper_path
wrapper_path-ok raw directory path h = (ground arith, refl)
wrapper_path-ok raw other path h = absurd (ground arith)

strip_wrapper-IsUnderWrapper :
    (raw : Text) (entry_type : EntryType) (path : Text)
    → strip_wrapper raw entry_type ≡ ok path
    → IsUnderWrapper raw entry_type path
unfolding strip_wrapper
strip_wrapper-IsUnderWrapper raw entry_type path h = elim (Option-cases (split_once b'/' raw)) [
  | inl absent ↦
      let (empty, dir) = wrapper_path-ok raw entry_type path (ground arith) in
      inl (empty, dir, inl (split_once-none b'/' raw absent))
  | inr ((w, []), cut) ↦
      let (empty, dir) = wrapper_path-ok raw entry_type path (ground arith) in
      let (is, l) = split_once-some b'/' raw w [] cut in inl (empty, dir, inr (w, is, l))
  | inr ((w, c ∷ cs), cut) ↦
      let is : c ∷ cs ≡ path = ground arith in
      inr (
        ground arith,
        w,
        (split_once-some b'/' raw w (c ∷ cs) cut).0 ∙ ap (λ x. w ++ (b'/' ∷ x)) is,
        (split_once-some b'/' raw w (c ∷ cs) cut).1,
      )
]

whole_wrapper : (raw : Text) → split_once b'/' raw ≡ none → strip_wrapper raw directory ≡ ok []
unfolding strip_wrapper wrapper_path
whole_wrapper raw h = ground arith

slashed_wrapper :
    (raw w : Text) → split_once b'/' raw ≡ some (w, []) → strip_wrapper raw directory ≡ ok []
unfolding strip_wrapper wrapper_path
slashed_wrapper raw w h = ground arith

under_wrapper :
    (raw w : Text) (c : ℕ) (cs : Text) (entry_type : EntryType)
    → split_once b'/' raw ≡ some (w, c ∷ cs)
    → strip_wrapper raw entry_type ≡ ok (c ∷ cs)
unfolding strip_wrapper
under_wrapper raw w c cs entry_type h = ground arith

cut_at : (raw w y : Text) → raw ≡ w ++ (b'/' ∷ y) → Lacks b'/' w → split_once b'/' raw ≡ some (w, y)
cut_at raw w y is l = ap (split_once b'/') is ∙ split_once-append b'/' w y l

IsUnderWrapper-strip_wrapper :
    (raw : Text) (entry_type : EntryType) (path : Text)
    → IsUnderWrapper raw entry_type path
    → strip_wrapper raw entry_type ≡ ok path
IsUnderWrapper-strip_wrapper raw entry_type path (inl (empty, dir, inl l)) =
    ap (strip_wrapper raw) dir
    ∙ (whole_wrapper raw (split_once-Lacks b'/' raw l) ∙ ap (λ x. ok x) (sym empty))
IsUnderWrapper-strip_wrapper raw entry_type path (inl (empty, dir, inr (w, is, l))) =
    ap (strip_wrapper raw) dir
    ∙ (slashed_wrapper raw w (cut_at raw w [] is l) ∙ ap (λ x. ok x) (sym empty))
IsUnderWrapper-strip_wrapper raw entry_type [] (inr (full, w, is, l)) = absurd (full refl)
IsUnderWrapper-strip_wrapper raw entry_type (c ∷ cs) (inr (full, w, is, l)) =
    under_wrapper raw w c cs entry_type (cut_at raw w (c ∷ cs) is l)

validate-ok :
    (utf8 : Utf8) (raw : Text) (entry_type : EntryType) (path : Text)
    → validate_tar_entry_path utf8 raw entry_type ≡ ok path
    → (tar_path_error utf8 raw ≡ none) × (strip_wrapper raw entry_type ≡ ok path)
unfolding validate_tar_entry_path
validate-ok utf8 raw entry_type path h = (ground arith, ground arith)

ok-validate :
    (utf8 : Utf8) (raw : Text) (entry_type : EntryType) (path : Text)
    → tar_path_error utf8 raw ≡ none
    → strip_wrapper raw entry_type ≡ ok path
    → validate_tar_entry_path utf8 raw entry_type ≡ ok path
unfolding validate_tar_entry_path
ok-validate utf8 raw entry_type path e s = ground arith

-- `validate_tar_entry_path` returns a path exactly if the raw path is UTF-8, has no byte
-- below 32, no segment `..` and no `/` at its start, and the path is what follows the first
-- `/`, or is empty, if nothing follows it or there is none and the entry is a directory.
pub validate_tar_entry_path-IsUnderWrapper :
    (utf8 : Utf8) (raw : Text) (entry_type : EntryType) (path : Text)
    → (validate_tar_entry_path utf8 raw entry_type ≡ ok path)
      ↔ (IsClean utf8 raw × IsUnderWrapper raw entry_type path)
validate_tar_entry_path-IsUnderWrapper utf8 raw entry_type path = (
  λ h.
      let (e, s) = validate-ok utf8 raw entry_type path h in
      (tar_path_error-IsClean utf8 raw e, strip_wrapper-IsUnderWrapper raw entry_type path s),
  λ (clean, under).
      ok-validate utf8 raw entry_type path (IsClean-tar_path_error utf8 raw clean)
        (IsUnderWrapper-strip_wrapper raw entry_type path under),
)

-- No byte below 32 and no `..`, and nothing but what follows the wrapper up to the first `/`, which
-- is neither empty nor `..`.
abbrev pub IsSafe : Text → Text → Type 0
IsSafe raw path =
    IsPrintable path
    × HasNoDotDot path
    × ((path ≡ [])
        ⊎ ((w : Text) × (raw ≡ w ++ (b'/' ∷ path)) × Lacks b'/' w × (w ≢ []) × (w ≢ text "..")))

no_dots : HasNoDotDot []
unfolding split
no_dots = (ground arith, tt)

not_empty : (w path raw : Text) → raw ≡ w ++ (b'/' ∷ path) → starts_with_slash raw ≡ false → w ≢ []
unfolding starts_with_slash
not_empty [] path raw is h = absurd (ground arith)
not_empty (c ∷ w) path raw is h = ground arith

-- A path that `validate_tar_entry_path` returns has no byte below 32 and no segment `..`; and it
-- is empty, or all that follows the first `/` of the raw path, where what stands before that `/`
-- is neither empty nor `..`.
pub validate_tar_entry_path-IsSafe :
    (utf8 : Utf8) (raw : Text) (entry_type : EntryType) (path : Text)
    → validate_tar_entry_path utf8 raw entry_type ≡ ok path
    → IsSafe raw path
validate_tar_entry_path-IsSafe utf8 raw entry_type path h =
    let (e, s) = validate-ok utf8 raw entry_type path h in
    let (good, printable, dots, relative) = tar_path_error-IsClean utf8 raw e in
    elim (strip_wrapper-IsUnderWrapper raw entry_type path s) [
      | inl (empty, dir, cut) ↦ subst (IsSafe raw) (sym empty) (tt, no_dots, inl refl)
      | inr (full, w, is, l) ↦
          let all =
            subst (All (λ seg. seg ≢ text "..")) (ap (split b'/') is ∙ split-append b'/' w path l)
              dots in
          (
            (append-All _ w (b'/' ∷ path) (subst IsPrintable is printable)).1.1,
            all.1,
            inr (w, is, l, not_empty w path raw is relative, all.0),
          )
    ]
