-- ===== src/Git/Walk/Reach.antt =====
-- The trees below a root, as a relation that knows nothing of the loop's stack.
use ctxfs.Common.{◌≡◌, List, [], ◌↔◌, Result, ok, err, In, Text, text}
use ctxfs.Core.Error.{CtxfsError}
use ctxfs.Git.Tree.{TreeEntry}
use ctxfs.Git.Walk.{Subtrees, prefixed, owned}

-- The tree of this SHA stands at this path, somewhere below another.
pub data Below (get : Subtrees) (sha path : Text) : Text → Text → Type 0 where
  here : Below get sha path sha path
  down :
      {top prefix : Text} (entries : List TreeEntry) (entry : TreeEntry)
      → get top ≡ ok entries
      → In entry entries
      → entry.entry_type ≡ text "tree"
      → Below get sha path entry.sha (prefixed prefix entry.path)
      → Below get sha path top prefix

pub Below-down :
    (get : Subtrees) {sha path top prefix : Text} (entries : List TreeEntry) (entry : TreeEntry)
    → Below get sha path top prefix
    → get sha ≡ ok entries
    → In entry entries
    → entry.entry_type ≡ text "tree"
    → Below get entry.sha (prefixed path entry.path) top prefix
Below-down get entries entry here g i t = down entries entry g i t here
Below-down get entries entry (down es e g' i' t' b) g i t =
    down es e g' i' t' (Below-down get entries entry b g i t)

-- Below a SHA the trees come to an end.
pub data IsFinite (get : Subtrees) : Text → Type 0 where
  fails : {sha : Text} (e : CtxfsError) → get sha ≡ err e → IsFinite get sha
  fetched :
      {sha : Text} (entries : List TreeEntry)
      → get sha ≡ ok entries
      → ((entry : TreeEntry)
          → In entry entries
          → entry.entry_type ≡ text "tree"
          → IsFinite get entry.sha)
      → IsFinite get sha

-- An entry of one of these trees, with its path from the root.
abbrev pub IsListed : Subtrees → Text → TreeEntry → Type 0
IsListed get root x =
    (sha : Text) × (path : Text) × (entries : List TreeEntry) × (entry : TreeEntry) × Below get sha
      path root []
    × (get sha ≡ ok entries)
    × In entry entries
    × (x ≡ owned path entry)

-- What a walk returns: the first answer that fails, or all entries and no other.
abbrev pub Walked : Subtrees → Text → Result (List TreeEntry) CtxfsError → Type 0
Walked get root (err e) =
    (sha : Text) × (path : Text) × Below get sha path root [] × (get sha ≡ err e)
Walked get root (ok out) = (x : TreeEntry) → In x out ↔ IsListed get root x
