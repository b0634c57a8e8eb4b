-- ===== src/Vfs/State/Listed.antt =====
-- `readdir` of a directory that is not populated yet, against the provider's listing.
use ctxfs.Common.{ℕ, ◌≡◌, ◌≢◌, List, [], ◌∷◌, Text, text, map}
use ctxfs.Core.Digest.{Digest}
use ctxfs.Manifest.Snapshot.{DirEntry, entry_name}
use ctxfs.Vfs.Types.{NodeType}
use ctxfs.Vfs.Tables.{Tables, Provider, id_key, name_key}
use ctxfs.Vfs.Populate.{IsSound}
use ctxfs.Vfs.State.{found, lookup_node}

abbrev pub listed_name : ℕ × Text × NodeType → Text
listed_name e = e.1

-- Every listed id is what a lookup of its name finds, unless the name is `.` or `..`.
abbrev pub AreFound : ℕ → Tables → List (ℕ × Text × NodeType) → Type 0
AreFound dirid t [] = Unit
AreFound dirid t (e ∷ es) =
    ((q : Provider)
      → e.1 ≢ text "."
      → e.1 ≢ text ".."
      → lookup_node q dirid e.1 t ≡ (found e.0 t, t))
    × AreFound dirid t es

module _ (dirid : ℕ) (t : Tables) (sound : IsSound t) where
  abbrev Agrees : List DirEntry → List (ℕ × Text × NodeType) → Type 0
  Agrees entries l = (map listed_name l ≡ map entry_name entries) × AreFound dirid t l
