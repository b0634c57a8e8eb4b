-- ===== src/Git/Walk/Complete.antt =====
-- What the walk returns, against the trees below its root.
use ctxfs.Common.{◌≡◌, Result, ok, err, ◌⊎◌, List, [], In, All, Text}
use ctxfs.Core.Error.{CtxfsError}
use ctxfs.Git.Tree.{TreeEntry}
use ctxfs.Git.Walk.{Subtrees, Job, Walk, owned}
use ctxfs.Git.Walk.Reach.{Below, IsListed, Walked}
use ctxfs.Git.Walk.Ends.{Ends}

module _ (get : Subtrees) (root : Text) where
  abbrev IsReached : Job → Type 0
  IsReached job = Below get job.0 job.1 root []

  abbrev AllSound : Walk → Type 0
  AllSound w = All IsReached w.0 × All (IsListed get root) w.1

  -- What the loop may return from sound variables.
  abbrev IsSoundResult : Result (List TreeEntry) CtxfsError → Type 0
  IsSoundResult (err e) = Walked get root (err e)
  IsSoundResult (ok out) = All (IsListed get root) out

  -- An entry of a tree below one of the jobs.
  abbrev Awaits : List Job → TreeEntry → Type 0
  Awaits stack x =
      (sha : Text) × (path : Text) × (entries : List TreeEntry) × (entry : TreeEntry) × (job : Job)
      × In job stack
      × Below get sha path job.0 job.1
      × (get sha ≡ ok entries)
      × In entry entries
      × (x ≡ owned path entry)

  -- It is in the list or still awaited.
  abbrev Covers : Walk → TreeEntry → Type 0
  Covers w x = In x w.1 ⊎ Awaits w.0 x
