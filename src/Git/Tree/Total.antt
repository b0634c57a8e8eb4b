-- ===== src/Git/Tree/Total.antt =====
-- When `build_directories_inner` returns directories.
use ctxfs.Common.{◌≡◌, Option, some, ok, List, [], All, Text, text_key}
use ctxfs.Common.Assoc.{lookup}
use ctxfs.Core.Digest.{Digest}
use ctxfs.Manifest.Snapshot.{Directory}
use ctxfs.Git.Tree.{TreeEntry, Utf8, Inline, Directories, mode_symlink, symlink_target}

-- Each symlink of the listing has a target: in the map and UTF-8, or there is no map.
abbrev pub HasTargets : Utf8 → Option Inline → List TreeEntry → Type 0
HasTargets utf8 inline entries =
    All
      (λ (e : TreeEntry).
        e.mode ≡ mode_symlink → (target : Text) × (symlink_target utf8 inline e ≡ ok target))
      entries

-- The root directory is there, with this digest.
abbrev pub IsRooted : Digest → Directories → Type 0
IsRooted root dirs = (d : Directory) × (lookup [] dirs ≡ some d) × (root ≡ d.digest)
