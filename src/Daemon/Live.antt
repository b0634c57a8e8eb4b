-- ===== src/Daemon/Live.antt =====
-- The mounts that are live for a repository, and how the table of the mounts changes them.
use ctxfs.Common.{
  ℕ, ◌+◌, ◌≡◌, refl, Option, none, some, [], ◌∷◌, Text, text_key, Text-discrete, arith,
}
use ctxfs.Common.Assoc.{lookup, insert, remove, Distinct, remove_absent, lookup-remove}
use ctxfs.Cache.State.{RepoKey}
use ctxfs.Cache.Reserve.Counts.{one_of}
use ctxfs.Daemon.Server.{MountHandle, Mounts}

-- 1 if the key is that of the repository.
abbrev pub key_counts : RepoKey → Option RepoKey → ℕ
key_counts k none = 0
key_counts k (some key) = one_of k key

-- 1 if there is a handle, and it is of the repository.
abbrev pub held : RepoKey → Option MountHandle → ℕ
held k none = 0
held k (some h) = key_counts k h.repo_key

-- How many handles are of the repository.
unfoldable pub live : RepoKey → Mounts → ℕ
live k [] = 0
live k ((id, h) ∷ mounts) = key_counts k h.repo_key + live k mounts

-- What is entered takes the place of the handle that had the id.
pub live-insert :
    (k : RepoKey) (id : Text) (h : MountHandle) (mounts : Mounts)
    → live k (insert id h mounts) + held k (lookup id mounts)
      ≡ live k mounts + key_counts k h.repo_key
unfolding live insert lookup
live-insert k id h [] = omega arith
live-insert k id h ((j, x) ∷ mounts) = elim (Text-discrete id j) [
  | yes p ↦ ground arith
  | no p ↦ ground (arith, live-insert k id h mounts)
]

pub live-remove :
    (k : RepoKey) (id : Text) (mounts : Mounts)
    → Distinct mounts
    → live k (remove id mounts) + held k (lookup id mounts) ≡ live k mounts
unfolding live remove lookup
live-remove k id [] d = refl
live-remove k id ((j, x) ∷ mounts) d = elim (Text-discrete id j) [
  | yes p ↦ ground (arith, remove_absent id mounts)
  | no p ↦ ground (arith, live-remove k id mounts d.1)
]

pub Distinct-remove : (id : Text) (mounts : Mounts) → Distinct mounts → Distinct (remove id mounts)
unfolding remove lookup
Distinct-remove id [] d = tt
Distinct-remove id ((j, x) ∷ mounts) d = elim (Text-discrete id j) [
  | yes p ↦ ground (arith, Distinct-remove id mounts d.1)
  | no p ↦ ground (arith, Distinct-remove id mounts d.1, lookup-remove id j mounts)
]
