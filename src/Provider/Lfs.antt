-- ===== src/Provider/Lfs.antt =====
-- crates/ctxfs-provider-common/src/lfs.rs: the detection of LFS pointer files. The UTF-8 test is a
-- parameter.
pub mod Pointer
use ctxfs.Common.{
  ℕ, Bool, true, false, Option, none, some, List, [], ◌∷◌, Text, text, Text-discrete, ltb, leb,
  ◌==◌, if◌then◌else◌, holds, length, split, strip_prefix, not,
}
use ctxfs.Common.Number.{is_digit, parse_u64}

pub record LfsPointerInfo : Type 0 where
  pub oid_sha256 : Text
  pub size : ℕ

abbrev pub lfs_version_line : Text
lfs_version_line = text "version https://git-lfs.github.com/spec/v1"

abbrev pub lfs_oid_prefix : Text
lfs_oid_prefix = text "oid sha256:"

abbrev pub lfs_size_prefix : Text
lfs_size_prefix = text "size "

abbrev pub lfs_pointer_max_bytes : ℕ
lfs_pointer_max_bytes = 1024

unfoldable pub is_ascii_hexdigit : ℕ → Bool
is_ascii_hexdigit c =
    if is_digit c
    then true
    else if ltb c 65
    then false
    else if ltb c 71
    then true
    else if ltb c 97
    then false
    else ltb c 103

unfoldable pub all_hex : Text → Bool
all_hex [] = true
all_hex (c ∷ s) = let rest = all_hex s in if is_ascii_hexdigit c then rest else false

-- Four pieces, the last of them empty: the three lines.
unfoldable pub three_lines : List Text → Option (Text × (Text × Text))
three_lines [] = none
three_lines (v ∷ []) = none
three_lines (v ∷ o ∷ []) = none
three_lines (v ∷ o ∷ s ∷ []) = none
three_lines (v ∷ o ∷ s ∷ [] ∷ []) = some (v, (o, s))
three_lines (v ∷ o ∷ s ∷ (c ∷ cs) ∷ []) = none
three_lines (v ∷ o ∷ s ∷ trailer ∷ extra ∷ more) = none

-- The tests of the object's line.
unfoldable pub oid_of : Text → Option Text
oid_of o_line = elim (strip_prefix lfs_oid_prefix o_line) [
  | none ↦ none
  | some oid ↦ if not (length oid == 64) then none else if not (all_hex oid) then none else some oid
]

unfoldable pub size_of : Text → Option ℕ
size_of s_line = elim (strip_prefix lfs_size_prefix s_line) [
  | none ↦ none
  | some size_str ↦ parse_u64 size_str
]

unfoldable pub pointer_of : Text × (Text × Text) → Option LfsPointerInfo
pointer_of (v_line, (o_line, s_line)) =
    if not (holds (Text-discrete v_line lfs_version_line)) then none else elim (oid_of o_line) [
      | none ↦ none
      | some oid ↦ elim (size_of s_line) [
        | none ↦ none
        | some size ↦ some (record { oid_sha256 = oid; size = size })
      ]
    ]

unfoldable pub detect_lfs_pointer : (List ℕ → Bool) → List ℕ → Option LfsPointerInfo
detect_lfs_pointer is_utf8 [] = none
detect_lfs_pointer is_utf8 (b ∷ bs) =
    if ltb lfs_pointer_max_bytes (length (b ∷ bs))
    then none
    else if not (is_utf8 (b ∷ bs))
    then none
    else elim (three_lines (split 10 (b ∷ bs))) [ none ↦ none | some lines ↦ pointer_of lines ]
