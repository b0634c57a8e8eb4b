-- ===== src/Vfs/State/Lookup.antt =====
-- `lookup` and `readdir` against the listing that the provider returned.
use ctxfs.Common.{
  ℕ, ◌≡◌, refl, sym, ◌∙◌, ap, none, some, Result, ok, err, List, Text, arith, Option-cases, inl,
  inr, subst,
}
use ctxfs.Common.Assoc.{lookup}
use ctxfs.Vfs.Types.{Node, NodeKind, NodeAttr, VfsError, node_to_attr, attr_of, not_found}
use ctxfs.Vfs.Tables.{Tables, Provider, id_key, name_key, ensure_populated}
use ctxfs.Vfs.Populate.{IsNode, IsSound, Extends, Extends-refl}
use ctxfs.Vfs.State.{found, lookup_cached, lookup_name}
use ctxfs.Vfs.State.Names.{HasRoom, Ensured, ensure_populated-Ensured}

inode-node_to_attr :
    (n : Node) → ((node_to_attr n).inode ≡ n.id) × ((node_to_attr n).parent_inode ≡ n.parent)
unfolding node_to_attr attr_of
inode-node_to_attr n = inode_at n.kind
  where
    inode_at :
        (k : NodeKind)
        → ((attr_of n.id n.parent k).inode ≡ n.id)
          × ((attr_of n.id n.parent k).parent_inode ≡ n.parent)
    inode_at (NodeKind.directory d b) = (refl, refl)
    inode_at (NodeKind.file d s x c) = (refl, refl)
    inode_at (NodeKind.symlink s) = (refl, refl)

-- A found name: the node has this name and this parent, and its attributes say so.
abbrev pub Found : Tables → ℕ → Text → ℕ × NodeAttr → Type 0
Found t parent name r = IsNode t parent r.0 name × (r.1.inode ≡ r.0) × (r.1.parent_inode ≡ parent)

module _ (t : Tables) (sound : IsSound t) (parent : ℕ) (name : Text) (id : ℕ) where
  found_node : (n : Node) → lookup id t.nodes ≡ some n → found id t ≡ ok (id, node_to_attr n)
  unfolding found
  found_node n h = ground arith

  found-cached :
      lookup (parent, name) t.dir_cache ≡ some id
      → (r : ℕ × NodeAttr) × (found id t ≡ ok r) × Found t parent name r
  found-cached cached =
      let (n, here, p, q) = sound.named parent name id cached in
      let (i, j) = inode-node_to_attr n in
      (
        (id, node_to_attr n),
        found_node n here,
        ((n, here, p, q), i ∙ (sound.numbered id n here).0, j ∙ p),
      )

module _ (p : Provider) (parent : ℕ) (name : Text) (t : Tables) where
  pub name_cached :
      (id : ℕ)
      → lookup (parent, name) t.dir_cache ≡ some id
      → lookup_name p parent name t ≡ (found id t, t)
  unfolding lookup_name
  name_cached id h = ground arith

  name_fails :
      (e : VfsError) (t' : Tables)
      → lookup (parent, name) t.dir_cache ≡ none
      → ensure_populated p parent t ≡ (err e, t')
      → lookup_name p parent name t ≡ (err e, t')
  unfolding lookup_name
  name_fails e t' h k = ground arith

  name_populated :
      (ids : List ℕ) (t' : Tables)
      → lookup (parent, name) t.dir_cache ≡ none
      → ensure_populated p parent t ≡ (ok ids, t')
      → lookup_name p parent name t ≡ (lookup_cached parent name t', t')
  unfolding lookup_name
  name_populated ids t' h k = ground arith

  -- What a lookup of a name that is neither `.` nor `..` has done.
  pub record Looked (r : Result (ℕ × NodeAttr) VfsError) (t' : Tables) : Type 0 where
    pub sound : IsSound t'
    pub extends : Extends t t'
    pub finds :
        (x : ℕ × NodeAttr)
        → r ≡ ok x
        → Found t' parent name x × ((q : Provider) → lookup_name q parent name t' ≡ (ok x, t'))

  Looked-at :
      {r : Result (ℕ × NodeAttr) VfsError × Tables} {r' : Result (ℕ × NodeAttr) VfsError}
      {t' : Tables}
      → r ≡ (r', t')
      → Looked r' t'
      → Looked r.0 r.1
  Looked-at e h = subst (λ (x : Result (ℕ × NodeAttr) VfsError × Tables). Looked x.0 x.1) (sym e) h

  Looked-error : (e : VfsError) (t' : Tables) → IsSound t' → Extends t t' → Looked (err e) t'
  Looked-error e t' s x = record { sound = s; extends = x; finds = λ y h. absurd (ground arith) }

module _ (p : Provider) (parent : ℕ) (name : Text) (t : Tables) where
  Found-same :
      (t' : Tables) (r y : ℕ × NodeAttr) (x : Result (ℕ × NodeAttr) VfsError)
      → x ≡ ok r
      → x ≡ ok y
      → Found t' parent name r
      → Found t' parent name y
  Found-same t' r y x h k leads =
      let same : r ≡ y = ground arith in subst (λ z. Found t' parent name z) same leads

  Looked-cached :
      (t' : Tables) (id : ℕ)
      → IsSound t'
      → Extends t t'
      → lookup (parent, name) t'.dir_cache ≡ some id
      → Looked p parent name t (found id t') t'
  Looked-cached t' id s x cached =
      let (r, is, leads) = found-cached t' s parent name id cached in
      record {
        sound = s;
        extends = x;
        finds = λ y h. (
          Found-same t' r y (found id t') is h leads,
          λ q. name_cached q parent name t' id cached ∙ ap (λ z. (z, t')) h,
        );
      }

  pub cached_some :
      (t' : Tables) (id : ℕ)
      → lookup (parent, name) t'.dir_cache ≡ some id
      → lookup_cached parent name t' ≡ found id t'
  unfolding lookup_cached
  cached_some t' id h = ground arith

  cached_none :
      (t' : Tables)
      → lookup (parent, name) t'.dir_cache ≡ none
      → lookup_cached parent name t' ≡ err not_found
  unfolding lookup_cached
  cached_none t' h = ground arith

  Looked-populated :
      (t' : Tables)
      → IsSound t'
      → Extends t t'
      → Looked p parent name t (lookup_cached parent name t') t'
  Looked-populated t' s x = elim (Option-cases (lookup (parent, name) t'.dir_cache)) [
    | inl absent ↦
        subst (λ r. Looked p parent name t r t') (sym (cached_none t' absent))
          (Looked-error p parent name t not_found t' s x)
    | inr (id, present) ↦
        subst (λ r. Looked p parent name t r t') (sym (cached_some t' id present))
          (Looked-cached t' id s x present)
  ]

  Looked-Ensured :
      (r : Result (List ℕ) VfsError) (t' : Tables)
      → lookup (parent, name) t.dir_cache ≡ none
      → ensure_populated p parent t ≡ (r, t')
      → Ensured parent t r t'
      → Looked p parent name t (lookup_name p parent name t).0 (lookup_name p parent name t).1
  Looked-Ensured (err e) t' absent is ensured =
      Looked-at p parent name t (name_fails p parent name t e t' absent is)
        (Looked-error p parent name t e t' ensured.sound ensured.extends)
  Looked-Ensured (ok ids) t' absent is ensured =
      Looked-at p parent name t (name_populated p parent name t ids t' absent is)
        (Looked-populated t' ensured.sound ensured.extends)

  -- In sound tables with room for the provider's listings, a lookup of a name that is neither `.`
  -- nor `..` leaves sound tables that lose no node and no name. If it returns an id, that id is a
  -- node of this parent and this name, its attributes carry both numbers, and the same lookup on
  -- the tables that it leaves returns the same and changes nothing, whatever the provider answers.
  pub lookup_name-Looked :
      IsSound t
      → HasRoom p t
      → Looked p parent name t (lookup_name p parent name t).0 (lookup_name p parent name t).1
  lookup_name-Looked sound room = elim (Option-cases (lookup (parent, name) t.dir_cache)) [
    | inl absent ↦
        Looked-Ensured (ensure_populated p parent t).0 (ensure_populated p parent t).1 absent refl
          (ensure_populated-Ensured p parent t sound room)
    | inr (id, present) ↦
        Looked-at p parent name t (name_cached p parent name t id present)
          (Looked-cached t id sound (Extends-refl t) present)
  ]
