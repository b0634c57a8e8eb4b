-- ===== src/Git/Walk/Pushes.antt =====
-- What one subtree adds to the stack and to the list.
use ctxfs.Common.{
  ◌≡◌, refl, sym, subst, ap, ◌∙◌, inl, inr, List, [], ◌∷◌, In, In-append-left, In-append-right,
  Text, text, Text-discrete,
}
use ctxfs.Git.Tree.{TreeEntry}
use ctxfs.Git.Walk.{Job, prefixed, owned, push_subtree}
use ctxfs.Git.Walk.Ends.{pushed, pushed-tree, pushed-other}

In-pushed :
    (j : Job) (prefix : Text) (entry : TreeEntry) (stack : List Job)
    → In j stack
    → In j (pushed prefix entry stack)
In-pushed j prefix entry stack i = elim (Text-discrete entry.entry_type (text "tree")) [
  | yes t ↦ subst (In j) (sym (pushed-tree prefix entry stack t)) (inr i)
  | no n ↦ subst (In j) (sym (pushed-other prefix entry stack n)) i
]

pub push-keeps_out :
    (x : TreeEntry) (prefix : Text) (entries : List TreeEntry) (stack : List Job)
    (out : List TreeEntry)
    → In x out
    → In x (push_subtree prefix entries (stack, out)).1
unfolding push_subtree
push-keeps_out x prefix [] stack out i = i
push-keeps_out x prefix (entry ∷ entries) stack out i =
    push-keeps_out x prefix entries (pushed prefix entry stack) _
      (In-append-left x out (owned prefix entry ∷ []) i)

pub push-keeps_stack :
    (j : Job) (prefix : Text) (entries : List TreeEntry) (stack : List Job) (out : List TreeEntry)
    → In j stack
    → In j (push_subtree prefix entries (stack, out)).0
unfolding push_subtree
push-keeps_stack j prefix [] stack out i = i
push-keeps_stack j prefix (entry ∷ entries) stack out i =
    push-keeps_stack j prefix entries (pushed prefix entry stack) _
      (In-pushed j prefix entry stack i)

pub push-lists :
    (e : TreeEntry) (prefix : Text) (entries : List TreeEntry) (stack : List Job)
    (out : List TreeEntry)
    → In e entries
    → In (owned prefix e) (push_subtree prefix entries (stack, out)).1
unfolding push_subtree
push-lists e prefix [] stack out i = absurd i
push-lists e prefix (entry ∷ entries) stack out (inl is) =
    push-keeps_out (owned prefix e) prefix entries (pushed prefix entry stack) _
      (In-append-right _ out (owned prefix entry ∷ []) (inl (ap (owned prefix) is)))
push-lists e prefix (entry ∷ entries) stack out (inr i) =
    push-lists e prefix entries (pushed prefix entry stack) _ i

pub push-jobs :
    (e : TreeEntry) (prefix : Text) (entries : List TreeEntry) (stack : List Job)
    (out : List TreeEntry)
    → In e entries
    → e.entry_type ≡ text "tree"
    → In (e.sha, prefixed prefix e.path) (push_subtree prefix entries (stack, out)).0
unfolding push_subtree
push-jobs e prefix [] stack out i t = absurd i
push-jobs e prefix (entry ∷ entries) stack out (inl is) t =
    push-keeps_stack (e.sha, prefixed prefix e.path) prefix entries (pushed prefix entry stack) _
      (subst (λ x. In (x.sha, prefixed prefix x.path) (pushed prefix entry stack)) (sym is)
        (subst (In (entry.sha, prefixed prefix entry.path))
          (sym (pushed-tree prefix entry stack (ap (λ x. x.entry_type) (sym is) ∙ t))) (inl refl)))
push-jobs e prefix (entry ∷ entries) stack out (inr i) t =
    push-jobs e prefix entries (pushed prefix entry stack) _ i t
