-- ===== src/Vfs/State/Runs.antt =====
-- Runs of a mount: `new`, then any sequence of lookups and listings, with any answers of the provider.
use ctxfs.Common.{
  text_key, ℕ, ◌<◌, ◌≡◌, refl, sym, ◌∙◌, ap, subst, none, some, Result-cases, Text, text, arith,
  ◌⊎◌, inl, inr, ℕ_discrete,
}
use ctxfs.Common.Assoc.{lookup}
use ctxfs.Core.Digest.{Digest}
use ctxfs.Vfs.Types.{Node, root_id}
use ctxfs.Vfs.Tables.{Tables, Provider, id_key, name_key, ensure_populated}
use ctxfs.Vfs.Populate.{IsNode, IsSound, Extends, Extends-refl, Extends-trans}
use ctxfs.Vfs.State.{lookup_name, lookup_node, readdir, root_tables, root_node}
use ctxfs.Vfs.State.Names.{HasRoom, ensure_populated-Ensured}
use ctxfs.Vfs.State.Lookup.{lookup_name-Looked}

-- A call of the kernel: it changes the tables.
pub data Call : Type 0 where
  look : (parent : ℕ) → Text → Call
  list : (inode : ℕ) → Call

abbrev pub after : Provider → Call → Tables → Tables
after p (look parent name) t = (lookup_node p parent name t).1
after p (list inode) t = (readdir p inode t).1

-- The tables that calls lead to, each with room for the listings of its provider.
pub data Run (t : Tables) : Tables → Type 0 where
  start : Run t t
  step : (p : Provider) (c : Call) (t' : Tables) → HasRoom p t' → Run t t' → Run t (after p c t')

readdir-tables :
    (p : Provider) (inode : ℕ) (t : Tables) → (readdir p inode t).1 ≡ (ensure_populated p inode t).1
unfolding readdir
readdir-tables p inode t = elim (Result-cases (ensure_populated p inode t).0) [
  | inl (e, h) ↦ ground arith
  | inr (ids, h) ↦ ground arith
]

lookup_node-tables :
    (p : Provider) (parent : ℕ) (name : Text) (t : Tables)
    → ((lookup_node p parent name t).1 ≡ t)
      ⊎ ((lookup_node p parent name t).1 ≡ (lookup_name p parent name t).1)
unfolding lookup_node
lookup_node-tables p parent name t = ground arith

abbrev Kept : Tables → Tables → Type 0
Kept t t' = IsSound t' × Extends t t'

after-Kept : (p : Provider) (c : Call) (t : Tables) → IsSound t → HasRoom p t → Kept t (after p c t)
after-Kept p (list inode) t sound room =
    let e = ensure_populated-Ensured p inode t sound room in
    subst (λ x. Kept t x) (sym (readdir-tables p inode t)) (e.sound, e.extends)
after-Kept p (look parent name) t sound room = elim (lookup_node-tables p parent name t) [
  | inl same ↦ subst (λ x. Kept t x) (sym same) (sound, Extends-refl t)
  | inr looks ↦
      let l = lookup_name-Looked p parent name t sound room in
      subst (λ x. Kept t x) (sym looks) (l.sound, l.extends)
]

-- From sound tables, every run of lookups and listings, where at each call the ids of every listing
-- of its provider fit in 64 bits, leads to sound tables in which each node has the parent and the
-- name that it had, and each cached name leads to the node that it led to.
pub Run-Extends : (t t' : Tables) → IsSound t → Run t t' → IsSound t' × Extends t t'
Run-Extends t _ sound start = (sound, Extends-refl t)
Run-Extends t _ sound (step p c t' room run) =
    let (s, x) = Run-Extends t t' sound run in
    let (s', x') = after-Kept p c t' s room in (s', Extends-trans x x')

none-some : {A : Type 0} {a : A} → none ≡ some a → ⊥
none-some h = absurd (ground arith)

root_found :
    (digest : Digest) (id : ℕ) (n : Node)
    → lookup id (root_tables digest).nodes ≡ some n
    → (id ≡ root_id) × (n ≡ root_node digest)
unfolding lookup
root_found digest id n h = ground arith

root_tables-IsSound : (digest : Digest) → IsSound (root_tables digest)
unfolding lookup
root_tables-IsSound digest = record {
  numbered = λ id n h.
      let (p, q) = root_found digest id n h in
      (ap (λ x. x.id) q ∙ sym p, subst (λ i. i < 2) (sym p) (omega arith));
  named = λ parent name id h. absurd (none-some h);
  listed = λ parent ids h. absurd (none-some h);
}

abbrev pub HasRoot : Tables → Type 0
HasRoot t = IsSound t × IsNode t root_id root_id (text "/")

pub root_tables-HasRoot : (digest : Digest) → HasRoot (root_tables digest)
unfolding lookup ℕ_discrete
root_tables-HasRoot digest = (root_tables-IsSound digest, (root_node digest, refl, refl, refl))
