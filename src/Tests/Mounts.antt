-- ===== src/Tests/Mounts.antt =====
-- The mount file: the theorems at inputs that meet their hypotheses.
use ctxfs.Common.{ℕ, Text-discrete, ℕ_discrete, ◌≡◌, refl, Option, none, some, List, [], ◌∷◌, text}
use ctxfs.Core.Backend.{nfs}
use ctxfs.Daemon.MountState.{MountStateEntry, Entries, Json, link_first, push_link, has_link}
use ctxfs.Daemon.MountState.Links.{LacksLink}

abbrev entry : MountStateEntry
entry = record {
  source = text "npm:a@1";
  volume_path = text "/v";
  symlink_paths = [];
  backend = nfs;
  tcp_port = none;
  auth_token = none;
}

-- A JSON that reads two texts, and writes the empty list only.
abbrev write_empty : Entries → Option (List ℕ)
write_empty [] = some []
write_empty (e ∷ es) = none

abbrev read_two : List ℕ → Option Entries
read_two [] = some []
read_two (c ∷ cs) = some (entry ∷ [])

abbrev json : Json
json = record { to_vec = write_empty; from_slice = read_two }

linked :
    link_first (text "/v") (text "/s") (entry ∷ [])
    ≡ some (record entry { symlink_paths = text "/s" ∷ [] } ∷ [])
unfolding link_first push_link has_link Text-discrete ℕ_discrete
linked = refl

lacks : LacksLink (text "/s") (entry ∷ [])
unfolding has_link
lacks = (refl, tt)
