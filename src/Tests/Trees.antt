-- ===== src/Tests/Trees.antt =====
-- Directories from a listing: the theorems at inputs that meet their hypotheses.
use ctxfs.Common.{
  ℕ, true, Text-discrete, ℕ_discrete, ◌≡◌, refl, Option, none, some, ok, List, [], ◌∷◌, Text, text,
  text_key, length,
}
use ctxfs.Common.Assoc.{lookup, insert, remove}
use ctxfs.Common.Sort.{sort_by, sort_insert}
use ctxfs.Core.Digest.{Digest, sha256, from_sha1_hex}
use ctxfs.Core.Source.{rsplit_once}
use ctxfs.Manifest.Snapshot.{DirEntry, Directory, entry_name}
use ctxfs.Git.Tree.{
  TreeEntry, Utf8, Inline, Hashing, compute_digest, parent_path, file_name, Directories,
  build_directories_inner, ensure_dir, push_entry, symlink_target, inline_content_of, dir_entry_of,
  ensure_dirs, place, group, depth, deeper, text_before, entry_before, child_path, with_digest,
  entries_of, build_round, build_loop, root_digest, build_from,
}
use ctxfs.Git.Tree.Built.{IsListed, build_directories_inner-IsListed}

-- A hash that tells the number of entries.
abbrev count_entries : List DirEntry → List ℕ
count_entries entries = length entries ∷ []

abbrev same_text : List ℕ → Text
same_text bytes = bytes

abbrev hashing : Hashing
hashing = record { to_json = count_entries; sha256_hex = same_text }

abbrev utf8 : Utf8
utf8 bytes = none

abbrev listing : List TreeEntry
listing =
    record {
      path = text "b";
      mode = text "040000";
      entry_type = text "tree";
      sha = text "1";
      size = none;
    }
    ∷ record {
      path = text "b/l";
      mode = text "120000";
      entry_type = text "blob";
      sha = text "2";
      size = some 1;
    }
    ∷ record {
      path = text "a";
      mode = text "100755";
      entry_type = text "blob";
      sha = text "3";
      size = some 5;
    }
    ∷ []

abbrev inline : Option Inline
inline = some ((text "2", text "a") ∷ [])

abbrev inner : Directory
inner = record {
  digest = record { algorithm = sha256; hex = 1 ∷ [] };
  entries = DirEntry.symlink (record { name = text "l"; target = text "a" }) ∷ [];
}

abbrev outer : Directory
outer = record {
  digest = record { algorithm = sha256; hex = 2 ∷ [] };
  entries =
      DirEntry.file (record {
        name = text "a";
        digest = from_sha1_hex (text "3");
        size = 5;
        executable = true;
        inline_content = none;
      })
      ∷ DirEntry.directory
          (record { name = text "b"; digest = record { algorithm = sha256; hex = 1 ∷ [] } })
      ∷ [];
}

abbrev built : Directories
built = (text "b", inner) ∷ ([], outer) ∷ []

run :
    build_directories_inner hashing utf8 listing inline
    ≡ ok (record { algorithm = sha256; hex = 2 ∷ [] }, built)
unfolding build_directories_inner ensure_dir push_entry symlink_target inline_content_of
    dir_entry_of ensure_dirs place group depth deeper text_before entry_before child_path
    with_digest entries_of build_round build_loop root_digest build_from compute_digest parent_path
    file_name rsplit_once lookup insert remove sort_by sort_insert entry_name Text-discrete
    ℕ_discrete from_sha1_hex
run = refl

abbrev root : Digest
root = record { algorithm = sha256; hex = 2 ∷ [] }

build_directories_inner-IsListed_example : IsListed utf8 inline listing built (text "b")
build_directories_inner-IsListed_example =
    build_directories_inner-IsListed hashing utf8 inline listing root built (text "b") run
