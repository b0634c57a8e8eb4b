-- ===== src/Git/Walk/Ends.antt =====
-- The walk's loop ends, where the trees do.
use ctxfs.Common.{
  ℕ, zero, suc, ◌≡◌, ◌≢◌, refl, sym, subst, some, Result, ok, err, inl, inr, List, [], ◌∷◌, ◌++◌,
  In, Text, text, Text-discrete, arith, if◌then◌else◌, holds,
}
use ctxfs.Core.Error.{CtxfsError}
use ctxfs.Git.Tree.{TreeEntry}
use ctxfs.Git.Walk.{Subtrees, Job, Walk, prefixed, owned, push_subtree, walk_loop}
use ctxfs.Git.Walk.Reach.{IsFinite, fails, fetched}

abbrev pub pushed : Text → TreeEntry → List Job → List Job
pushed prefix entry stack =
    if holds (Text-discrete entry.entry_type (text "tree"))
    then (entry.sha, prefixed prefix entry.path) ∷ stack
    else stack

pub push-step :
    (prefix : Text) (entry : TreeEntry) (entries : List TreeEntry) (stack : List Job)
    (out : List TreeEntry)
    → push_subtree prefix (entry ∷ entries) (stack, out)
      ≡ push_subtree prefix entries (pushed prefix entry stack, out ++ (owned prefix entry ∷ []))
unfolding push_subtree
push-step prefix entry entries stack out = refl

pub pushed-tree :
    (prefix : Text) (entry : TreeEntry) (stack : List Job)
    → entry.entry_type ≡ text "tree"
    → pushed prefix entry stack ≡ (entry.sha, prefixed prefix entry.path) ∷ stack
pushed-tree prefix entry stack t = ground arith

pub pushed-other :
    (prefix : Text) (entry : TreeEntry) (stack : List Job)
    → entry.entry_type ≢ text "tree"
    → pushed prefix entry stack ≡ stack
pushed-other prefix entry stack t = ground arith

module _ (get : Subtrees) where
  abbrev pub Ends : Walk → Type 0
  Ends w = (fuel : ℕ) × (r : Result (List TreeEntry) CtxfsError) × (walk_loop get fuel w ≡ some r)

  abbrev pub EndsAlways : List Job → Type 0
  EndsAlways stack = (out : List TreeEntry) → Ends (stack, out)

  round :
      (sha prefix : Text) (stack : List Job) (entries out : List TreeEntry)
      → get sha ≡ ok entries
      → Ends (push_subtree prefix entries (stack, out))
      → Ends ((sha, prefix) ∷ stack, out)
  unfolding walk_loop
  round sha prefix stack entries out g (fuel, r, h) = (suc fuel, r, ground arith)

  stop :
      (sha prefix : Text) (stack : List Job) (out : List TreeEntry) (e : CtxfsError)
      → get sha ≡ err e
      → Ends ((sha, prefix) ∷ stack, out)
  unfolding walk_loop
  stop sha prefix stack out e g = (suc zero, err e, ground arith)

  -- What the trees of these entries need: that a stack with their job ends if the rest does.
  abbrev EachEnds : List TreeEntry → Type 0
  EachEnds entries =
      (entry : TreeEntry)
      → In entry entries
      → entry.entry_type ≡ text "tree"
      → (path : Text) (below : List Job) → EndsAlways below
      → EndsAlways ((entry.sha, path) ∷ below)

  push-Ends :
      (prefix : Text) (entries : List TreeEntry) (stack : List Job)
      → EachEnds entries
      → EndsAlways stack
      → (out : List TreeEntry) → Ends (push_subtree prefix entries (stack, out))
  unfolding push_subtree
  push-Ends prefix [] stack f ends out = ends out
  push-Ends prefix (entry ∷ entries) stack f ends out =
      let rest : EachEnds entries = λ x i. f x (inr i) in
      elim (Text-discrete entry.entry_type (text "tree")) [
        | yes t ↦
            subst (λ s. Ends (push_subtree prefix entries (s, out ++ (owned prefix entry ∷ []))))
              (sym (pushed-tree prefix entry stack t))
              (push-Ends prefix entries _ rest
                (f entry (inl refl) t (prefixed prefix entry.path) stack ends) _)
        | no n ↦
            subst (λ s. Ends (push_subtree prefix entries (s, out ++ (owned prefix entry ∷ []))))
              (sym (pushed-other prefix entry stack n)) (push-Ends prefix entries stack rest ends _)
      ]

  pub IsFinite-Ends :
      (sha : Text)
      → IsFinite get sha
      → (prefix : Text) (stack : List Job) → EndsAlways stack
      → EndsAlways ((sha, prefix) ∷ stack)
  IsFinite-Ends sha (fails e g) prefix stack ends out = stop sha prefix stack out e g
  IsFinite-Ends sha (fetched entries g f) prefix stack ends out =
      round sha prefix stack entries out g (
        push-Ends prefix entries stack (λ entry i t. IsFinite-Ends entry.sha (f entry i t)) ends
          out)
