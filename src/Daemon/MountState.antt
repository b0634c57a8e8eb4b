-- ===== src/Daemon/MountState.antt =====
-- crates/ctxfs-daemon/src/mount_state.rs: the file of the mounts. Its content is bytes, or nothing if
-- there is no file; JSON is `serde_json`'s, a parameter; whether the disk takes a write is an argument.
pub mod Links
use ctxfs.Common.{
  ℕ, Bool, true, false, not, Option, none, some, Result, ok, err, List, [], ◌∷◌, ◌++◌, Text, text,
  Text-discrete, ◌==◌, if◌then◌else◌, holds, length,
}
use ctxfs.Core.Backend.{Backend}

pub record MountStateEntry : Type 0 where
  pub source : Text
  pub volume_path : Text
  pub symlink_paths : List Text
  pub backend : Backend
  pub tcp_port : Option ℕ
  pub auth_token : Option Text

abbrev pub Entries : Type 0
Entries = List MountStateEntry

-- `serde_json::to_vec_pretty` and `from_slice`.
pub record Json : Type 0 where
  pub to_vec : Entries → Option (List ℕ)
  pub from_slice : List ℕ → Option Entries

pub data IoError : Type 0 where
  invalid_data : IoError
  not_found : Text → IoError
  failed : Text → IoError

abbrev pub StateFile : Type 0
StateFile = Option (List ℕ)

-- What a write to the disk comes to: an error on the way, or none.
abbrev pub Disk : Type 0
Disk = Option IoError

unfoldable pub has_link : Text → List Text → Bool
has_link s [] = false
has_link s (p ∷ ps) = if holds (Text-discrete s p) then true else has_link s ps

-- `symlink_paths.push`, unless it is there.
unfoldable pub push_link : Text → List Text → List Text
push_link s paths = if has_link s paths then paths else paths ++ (s ∷ [])

-- The loop of `add_symlink`; `none` if no entry has the volume.
unfoldable pub link_first : Text → Text → Entries → Option Entries
link_first volume_path symlink [] = none
link_first volume_path symlink (e ∷ es) =
    let rest = link_first volume_path symlink es in
    if holds (Text-discrete e.volume_path volume_path)
    then some (record e { symlink_paths = push_link symlink e.symlink_paths } ∷ es)
    else elim rest [ none ↦ none | some es' ↦ some (e ∷ es') ]

-- `remove(pos)` at the first position of the symlink; `none` if it has none.
unfoldable pub drop_link : Text → List Text → Option (List Text)
drop_link s [] = none
drop_link s (p ∷ ps) =
    let rest = drop_link s ps in
    if holds (Text-discrete p s)
    then some ps
    else elim rest [ none ↦ none | some ps' ↦ some (p ∷ ps') ]

unfoldable pub is_empty_list : List Text → Bool
is_empty_list [] = true
is_empty_list (p ∷ ps) = false

-- The loop of `remove_symlink`: the entries after, and whether the owner has no symlink left.
unfoldable pub unlink_first : Text → Entries → Option (Entries × Bool)
unlink_first symlink [] = none
unlink_first symlink (e ∷ es) = elim (drop_link symlink e.symlink_paths) [
  | some paths ↦ some (record e { symlink_paths = paths } ∷ es, is_empty_list paths)
  | none ↦ elim (unlink_first symlink es) [
    | none ↦ none
    | some (es', empty) ↦ some (e ∷ es', empty)
  ]
]

unfoldable pub retain_others : Text → Entries → Entries
retain_others volume_path [] = []
retain_others volume_path (e ∷ es) =
    let rest = retain_others volume_path es in
    if holds (Text-discrete e.volume_path volume_path) then rest else e ∷ rest

unfoldable pub read_entries : Json → StateFile → Entries
read_entries json none = []
read_entries json (some content) = elim (json.from_slice content) [
  | none ↦ []
  | some entries ↦ entries
]

module _ (json : Json) (disk : Disk) where
  -- The new content takes the place of the old by a rename, at the end of all that can fail.
  unfoldable pub write_entries : Entries → StateFile → Result (Unit {0}) IoError × StateFile
  write_entries entries f = elim (json.to_vec entries) [
    | none ↦ (err invalid_data, f)
    | some content ↦ elim disk [ some e ↦ (err e, f) | none ↦ (ok tt, some content) ]
  ]

  unfoldable pub add_entry : MountStateEntry → StateFile → Result (Unit {0}) IoError × StateFile
  add_entry entry f = write_entries (read_entries json f ++ (entry ∷ [])) f

  unfoldable pub add_symlink : Text → Text → StateFile → Result (Unit {0}) IoError × StateFile
  add_symlink volume_path symlink f = elim (link_first volume_path symlink (read_entries json f)) [
    | none ↦
        (err (not_found (text "no mount entry for volume_path '" ++ (volume_path ++ text "'"))), f)
    | some entries ↦ write_entries entries f
  ]

  unfoldable pub remove_symlink : Text → StateFile → Result Bool IoError × StateFile
  remove_symlink symlink f = elim (unlink_first symlink (read_entries json f)) [
    | none ↦ (
      err (not_found (text "symlink '" ++ (symlink ++ text "' not found in any mount entry"))),
      f,
    )
    | some (entries, empty) ↦
        let (r, f') = write_entries entries f in
        elim r [ err e ↦ (err e, f') | ok u ↦ (ok empty, f') ]
  ]

  unfoldable pub remove_volume : Text → StateFile → Result (Unit {0}) IoError × StateFile
  remove_volume volume_path f =
      let entries = read_entries json f in
      let left = retain_others volume_path entries in
      if length left == length entries
      then (
        err (not_found (text "no mount entry for volume_path '" ++ (volume_path ++ text "'"))),
        f,
      )
      else write_entries left f

  unfoldable pub clear_entries : StateFile → Result (Unit {0}) IoError × StateFile
  clear_entries f = write_entries [] f
