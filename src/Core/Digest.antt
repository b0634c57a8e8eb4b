-- ===== src/Core/Digest.antt =====
-- crates/ctxfs-core/src/digest.rs: hash algorithms, digests, and the fan-out path of a blob.
-- A path is the list of the components that the code pushes; the hexes and the algorithm names
-- hold no separator. SHA-256 is the `sha2` crate's, and a parameter wherever it is called.
use ctxfs.Common.{
  ◌≡◌, Text, text, Option, none, some, List, [], ◌∷◌, ◌++◌, take, drop, length, ltb, if◌then◌else◌,
  arith, take-append-drop, sym, ◌∙◌, ap,
}

pub data HashAlgorithm : Type 0 where
  sha256 sha1 : HashAlgorithm

unfoldable pub HashAlgorithm-discrete : Discrete HashAlgorithm
HashAlgorithm-discrete = hlevel

-- `Display for HashAlgorithm`
unfoldable pub algorithm_name : HashAlgorithm → Text
algorithm_name sha256 = text "sha256"
algorithm_name sha1 = text "sha1"

pub record Digest : Type 0 where
  pub algorithm : HashAlgorithm
  pub hex : Text

unfoldable pub from_sha256_hex : Text → Digest
from_sha256_hex hex_str = record { algorithm = sha256; hex = hex_str }

unfoldable pub from_sha1_hex : Text → Digest
from_sha1_hex hex_str = record { algorithm = sha1; hex = hex_str }

abbrev pub FilePath : Type 0
FilePath = List Text

-- `none` is the panic of the slice `hex[..2]` on a hex of fewer than two bytes.
unfoldable pub to_path : Digest → Option FilePath
to_path d =
    if ltb (length d.hex) 2
    then none
    else some (algorithm_name d.algorithm ∷ take 2 d.hex ∷ drop 2 d.hex ∷ [])

-- `Display for Digest`
unfoldable pub to_string : Digest → Text
unfolding algorithm_name
to_string d = algorithm_name d.algorithm ++ (text ":" ++ d.hex)

algorithm_name-injective : (a b : HashAlgorithm) → algorithm_name a ≡ algorithm_name b → a ≡ b
unfolding algorithm_name
algorithm_name-injective a b h = ground arith

hex-to_path :
    (d e : Digest) → take 2 d.hex ≡ take 2 e.hex → drop 2 d.hex ≡ drop 2 e.hex → d.hex ≡ e.hex
hex-to_path d e p q =
    sym (take-append-drop 2 d.hex)
    ∙ ap (λ t. t ++ drop 2 d.hex) p
    ∙ ap (λ t. take 2 e.hex ++ t) q
    ∙ take-append-drop 2 e.hex

-- Two digests that have a path have the same path only if they are the same digest: blobs of
-- different hexes or algorithms never share a file.
pub to_path-injective :
    (d e : Digest) {p : FilePath} → to_path d ≡ some p → to_path e ≡ some p → d ≡ e
unfolding to_path
to_path-injective d e h k =
    ground (arith, algorithm_name-injective d.algorithm e.algorithm, hex-to_path d e)
