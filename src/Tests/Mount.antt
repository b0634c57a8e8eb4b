-- ===== src/Tests/Mount.antt =====
-- A mounted file system: the theorems at inputs that meet their hypotheses.
use ctxfs.Common.{
  ◌+◌, ◌-◌, ◌<◌, ◌≡◌, refl, subst, true, false, none, some, ok, [], ◌∷◌, text, text_key,
  Text-discrete, ℕ_discrete, length, arith, ◌↔◌, split, split_cons,
}
use ctxfs.Common.Assoc.{lookup, insert}
use ctxfs.Common.Word.{u64_mod}
use ctxfs.Core.Digest.{sha1, Digest}
use ctxfs.Cache.Blob.{BlobCache, Os, written}
use ctxfs.Manifest.Snapshot.{Snapshot, Directory, DirEntry}
use ctxfs.Vfs.Types.{Node, NodeKind, root_id}
use ctxfs.Vfs.Tables.{Tables, Provider, id_key, name_key, ensure_populated}
use ctxfs.Vfs.Populate.{IsSound, Extends}
use ctxfs.Vfs.State.{
  read, fetch_file_bytes, root_tables, new_tables, lookup_name, walk, walk_step, find_directory,
}
use ctxfs.Vfs.State.Names.{HasRoom, Ensured, ensure_populated-Ensured}
use ctxfs.Vfs.State.Lookup.{Looked, lookup_name-Looked}
use ctxfs.Vfs.State.Reading.{read-wraps}
use ctxfs.Vfs.State.Runs.{start, step, look, after, Run-Extends, root_tables-HasRoot}
use ctxfs.Vfs.State.Subpath.{Opens, new_tables-Opens}
use ctxfs.Tests.Eviction.{index, empty}

program : Unit {0}
unfolding lookup insert ℕ_discrete Text-discrete new_tables fetch_file_bytes
program = tt

abbrev digest : Digest
digest = record { algorithm = sha1; hex = text "aa1" }

abbrev listing : Directory
listing = record {
  digest = digest;
  entries =
      DirEntry.file (record {
        name = text "a";
        digest = digest;
        size = 3;
        executable = false;
        inline_content = some (text "abc");
      })
      ∷ DirEntry.symlink (record { name = text "b"; target = text "a" })
      ∷ [];
}

abbrev provider : Provider
provider = record {
  fetch_directory = λ d. ok [];
  fetch_blob = λ d. ok [];
  parse_directory = λ b. ok listing;
}

abbrev snapshot : Snapshot
snapshot = record {
  source = text "s";
  commit_sha = text "c";
  root_directory = digest;
  created_at = text "t";
}

abbrev tables : Tables
tables = root_tables digest

-- A provider whose root has a directory beside a file.
abbrev nested : Provider
nested = record provider {
  parse_directory = λ b. ok (record {
    digest = digest;
    entries =
        DirEntry.symlink (record { name = text "d"; target = text "a" })
        ∷ DirEntry.directory
            (record { name = text "d"; digest = record { algorithm = sha1; hex = text "dd1" } })
        ∷ [];
  });
}

abbrev below : Tables
below = root_tables (record { algorithm = sha1; hex = text "dd1" })

new_below : new_tables nested snapshot (some (text "d/")) ≡ ok below
unfolding program split split_cons walk walk_step find_directory
new_below = refl

new_tables-Opens_example :
    (new_tables nested snapshot (some (text "d/")) ≡ ok below)
    ↔ Opens nested snapshot (some (text "d/")) below
new_tables-Opens_example = new_tables-Opens nested snapshot (some (text "d/")) below

tables-IsSound : IsSound tables
tables-IsSound = (root_tables-HasRoot digest).0

tables-HasRoom : HasRoom provider tables
tables-HasRoom d content e h k =
    let same : listing ≡ e = ground arith in
    subst (λ (x : Directory). 2 + length x.entries < u64_mod) same (omega arith)

ensure_populated-Ensured_example :
    Ensured root_id tables
      (ensure_populated provider root_id tables).0
      (ensure_populated provider root_id tables).1
ensure_populated-Ensured_example =
    ensure_populated-Ensured provider root_id tables tables-IsSound tables-HasRoom

lookup_name-Looked_example :
    Looked provider root_id
      (text "a")
      tables
      (lookup_name provider root_id (text "a") tables).0
      (lookup_name provider root_id (text "a") tables).1
lookup_name-Looked_example =
    lookup_name-Looked provider root_id (text "a") tables tables-IsSound tables-HasRoom

abbrev file_node : Node
file_node = record {
  id = 2;
  parent = root_id;
  name = text "a";
  kind = NodeKind.file digest 3 false (some (text "abc"));
}

abbrev with_file : Tables
with_file = record tables { nodes = (2, file_node) ∷ [] }

abbrev os : Os
os = record { readable = λ p. true; removable = λ p. true }

abbrev cache : BlobCache index
cache = record {
  root = text "/c" ∷ [];
  max_bytes = 10;
  state = empty;
  eviction_blocked_total = 0;
  files = [];
}

file_at : lookup 2 with_file.nodes ≡ some file_node
unfolding program
file_at = refl

fetched :
    fetch_file_bytes index os provider written cache file_node.kind ≡ some (ok (text "abc"), cache)
unfolding program
fetched = refl

read-wraps_example : read index os provider written 2 (u64_mod - 1) 2 with_file cache ≡ none
read-wraps_example =
    read-wraps index os provider written 2 (u64_mod - 1) 2 with_file cache cache file_node
      (text "abc") file_at fetched (omega arith) (omega arith) (omega arith) (omega arith)

Run-Extends_example :
    IsSound (after provider (look root_id (text "a")) tables)
    × Extends tables (after provider (look root_id (text "a")) tables)
Run-Extends_example =
    Run-Extends tables (after provider (look root_id (text "a")) tables) tables-IsSound
      (step provider (look root_id (text "a")) tables tables-HasRoom start)
