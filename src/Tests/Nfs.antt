-- ===== src/Tests/Nfs.antt =====
-- The NFS server: the theorems at inputs that meet their hypotheses.
use ctxfs.Common.{ℕ, ◌≡◌, refl, true, ok, [], ◌∷◌, Text, text, ℕ_discrete}
use ctxfs.Common.Assoc.{lookup}
use ctxfs.Common.Keys.{id_key}
use ctxfs.Core.Digest.{Digest, sha1}
use ctxfs.Vfs.Types.{Node, NodeKind, NodeType, node_type, root_id}
use ctxfs.Vfs.Tables.{Tables, Provider, ensure_populated}
use ctxfs.Vfs.State.{getattr, readdir, list_nodes}
use ctxfs.Nfs.{Child}
use ctxfs.Nfs.Paging.{HasAttr}

program : Unit {0}
unfolding lookup ℕ_discrete getattr readdir list_nodes ensure_populated node_type
program = tt

abbrev digest : Digest
digest = record { algorithm = sha1; hex = text "aa1" }

abbrev link : ℕ → Text → Node
link id name = record { id = id; parent = root_id; name = name; kind = NodeKind.symlink (text "t") }

-- A populated root with two links.
abbrev tables : Tables
tables = record {
  next_id = 4;
  nodes =
      (1, record { id = 1; parent = 1; name = text "/"; kind = NodeKind.directory digest true })
      ∷ (2, link 2 (text "a"))
      ∷ (3, link 3 (text "b"))
      ∷ [];
  dir_cache = [];
  dir_children = (1, 2 ∷ 3 ∷ []) ∷ [];
}

abbrev provider : Provider
provider = record {
  fetch_directory = λ d. ok [];
  fetch_blob = λ d. ok [];
  parse_directory = λ b. ok (record { digest = digest; entries = [] });
}

abbrev first : Child
first = (2, text "a", NodeType.symlink)

abbrev second : Child
second = (3, text "b", NodeType.symlink)

listed : readdir provider 1 tables ≡ (ok (first ∷ second ∷ []), tables)
unfolding program
listed = refl

has_first : HasAttr tables first
unfolding program
has_first = (_, refl)

has_second : HasAttr tables second
unfolding program
has_second = (_, refl)
