-- ===== src/Git/Walk.antt =====
-- crates/ctxfs-provider-git/src/github.rs: the walk over the subtrees of a truncated tree
-- (`fetch_tree_walked`), but for its counter and its log. The answers of the server are a parameter.
pub mod Reach
pub mod Ends
pub mod Pushes
pub mod Complete
use ctxfs.Common.{
  ℕ, zero, suc, Option, none, some, Result, ok, err, List, [], ◌∷◌, ◌++◌, map, Text, text,
  Text-discrete, if◌then◌else◌, holds,
}
use ctxfs.Core.Error.{CtxfsError}
use ctxfs.Git.Tree.{TreeEntry}

-- `fetch_subtree`: the entries of the tree of a SHA.
abbrev pub Subtrees : Type 0
Subtrees = Text → Result (List TreeEntry) CtxfsError

unfoldable pub prefixed : Text → Text → Text
prefixed [] path = path
prefixed (c ∷ cs) path = (c ∷ cs) ++ (text "/" ++ path)

unfoldable pub owned : Text → TreeEntry → TreeEntry
owned prefix entry = record entry { path = prefixed prefix entry.path }

-- A SHA to fetch, and the path of its tree.
abbrev pub Job : Type 0
Job = Text × Text

-- The variables of the loop: `stack`, its top first, and `out`.
abbrev pub Walk : Type 0
Walk = List Job × List TreeEntry

-- The inner loop, over the entries of one subtree.
unfoldable pub push_subtree : Text → List TreeEntry → Walk → Walk
push_subtree prefix [] (stack, out) = (stack, out)
push_subtree prefix (entry ∷ entries) (stack, out) =
    let pushed =
      if holds (Text-discrete entry.entry_type (text "tree"))
      then (entry.sha, prefixed prefix entry.path) ∷ stack
      else stack in
    push_subtree prefix entries (pushed, out ++ (owned prefix entry ∷ []))

-- The loop, on fuel; `none` where the fuel ends first.
unfoldable pub walk_loop : Subtrees → ℕ → Walk → Option (Result (List TreeEntry) CtxfsError)
walk_loop get fuel ([], out) = some (ok out)
walk_loop get zero (job ∷ stack, out) = none
walk_loop get (suc fuel) ((sha, prefix) ∷ stack, out) = elim (get sha) [
  | err e ↦ some (err e)
  | ok subtree ↦ walk_loop get fuel (push_subtree prefix subtree (stack, out))
]

unfoldable pub fetch_tree_walked : Subtrees → ℕ → Text → Option (Result (List TreeEntry) CtxfsError)
fetch_tree_walked get fuel root_tree_sha = walk_loop get fuel ((root_tree_sha, []) ∷ [], [])
