-- ===== src/Vfs/Populate.antt =====
-- The loop of `ensure_populated` over the entries keeps the inode tables in order.
pub mod Listing
use ctxfs.Common.{
  ℕ, suc, ◌+◌, ◌<◌, ◌≤◌, ◌≡◌, ◌≢◌, refl, sym, ◌∙◌, ap, Option, none, some, List, [], ◌∷◌, Text,
  arith, All, All-map, length, Option-cases, inl, inr, subst,
}
use ctxfs.Common.Assoc.{lookup, insert, lookup-insert}
use ctxfs.Common.Word.{u64_mod, add64, add64-eq}
use ctxfs.Manifest.Snapshot.{DirEntry, entry_name}
use ctxfs.Vfs.Types.{Node}
use ctxfs.Vfs.Tables.{
  Tables, Name, id_key, name_key, Name-discrete, add_child, add_children, mark_populated, populate,
  entry_kind, populated_kind,
}

-- `id` names a node with this parent and this name.
abbrev pub IsNode : Tables → ℕ → ℕ → Text → Type 0
IsNode t parent id name =
    (n : Node) × (lookup id t.nodes ≡ some n) × (n.parent ≡ parent) × (n.name ≡ name)

abbrev pub IsChild : Tables → ℕ → ℕ → Type 0
IsChild t parent id = (n : Node) × (lookup id t.nodes ≡ some n) × (n.parent ≡ parent)

-- The tables agree: a node knows its number, which is below the next; a cached name leads to a
-- node of that name and parent; and a child list names nodes of that parent.
pub record IsSound (t : Tables) : Type 0 where
  pub numbered : (id : ℕ) (n : Node) → lookup id t.nodes ≡ some n → (n.id ≡ id) × (id < t.next_id)
  pub named :
      (parent : ℕ) (name : Text) (id : ℕ)
      → lookup (parent, name) t.dir_cache ≡ some id
      → IsNode t parent id name
  pub listed :
      (parent : ℕ) (ids : List ℕ)
      → lookup parent t.dir_children ≡ some ids
      → All (IsChild t parent) ids

-- No node is lost, renamed or moved, and no cached name is led elsewhere.
pub record Extends (t t' : Tables) : Type 0 where
  pub nodes : (id parent : ℕ) (name : Text) → IsNode t parent id name → IsNode t' parent id name
  pub names :
      (key : Name) (id : ℕ) → lookup key t.dir_cache ≡ some id → lookup key t'.dir_cache ≡ some id

pub Extends-trans : {t t' t'' : Tables} → Extends t t' → Extends t' t'' → Extends t t''
Extends-trans a b = record {
  nodes = λ id parent name n. b.nodes id parent name (a.nodes id parent name n);
  names = λ key id h. b.names key id (a.names key id h);
}

pub Extends-refl : (t : Tables) → Extends t t
Extends-refl t = record { nodes = λ id parent name n. n; names = λ key id h. h }

module _ (dirid : ℕ) (entry : DirEntry) (t : Tables) (sound : IsSound t) where
  -- The child is a node of the directory, with the entry's name.
  pub record ChildAdded (t' : Tables) (id : ℕ) : Type 0 where
    pub sound' : IsSound t'
    pub extends : Extends t t'
    pub added : IsNode t' dirid id (entry_name entry)
    pub cached : lookup (dirid, entry_name entry) t'.dir_cache ≡ some id
    pub next : (t.next_id ≤ t'.next_id) × (t'.next_id ≤ t.next_id + 1)
    pub same : (id : ℕ) (n : Node) → lookup id t.nodes ≡ some n → lookup id t'.nodes ≡ some n

  fresh : lookup t.next_id t.nodes ≡ none
  fresh = elim (Option-cases (lookup t.next_id t.nodes)) [
    | inl absent ↦ absent
    | inr (n, present) ↦ absurd (omega (arith, (sound.numbered t.next_id n present).1))
  ]

  abbrev new_node : Node
  new_node = record {
    id = t.next_id;
    parent = dirid;
    name = entry_name entry;
    kind = entry_kind entry;
  }

  abbrev grown : Tables
  grown = record t {
    next_id = t.next_id + 1;
    nodes = insert t.next_id new_node t.nodes;
    dir_cache = insert (dirid, entry_name entry) t.next_id t.dir_cache;
  }

  grown-node : (id : ℕ) (n : Node) → lookup id t.nodes ≡ some n → lookup id grown.nodes ≡ some n
  grown-node id n h = ground (arith, lookup-insert t.next_id id new_node t.nodes, fresh)

  grown-IsNode :
      (parent id : ℕ) (name : Text) → IsNode t parent id name → IsNode grown parent id name
  grown-IsNode parent id name (n, found, p, q) = (n, grown-node id n found, p, q)

  grown-new : IsNode grown dirid t.next_id (entry_name entry)
  grown-new =
      (new_node, ground (arith, lookup-insert t.next_id t.next_id new_node t.nodes), refl, refl)

  grown-numbered :
      (id : ℕ) (n : Node) → lookup id grown.nodes ≡ some n → (n.id ≡ id) × (id < grown.next_id)
  grown-numbered id n h =
      ground (arith, lookup-insert t.next_id id new_node t.nodes, sound.numbered id n)

  grown-named :
      (parent : ℕ) (name : Text) (id : ℕ)
      → lookup (parent, name) grown.dir_cache ≡ some id
      → IsNode grown parent id name
  grown-named parent name id h = elim (Name-discrete (parent, name) (dirid, entry_name entry)) [
    | yes same ↦
        let is : id ≡ t.next_id =
          ground
            (arith, lookup-insert (dirid, entry_name entry) (parent, name) t.next_id t.dir_cache) in
        subst (λ (k : Name). IsNode grown k.0 id k.1) (sym same)
          (subst (λ i. IsNode grown dirid i (entry_name entry)) (sym is) grown-new)
    | no other ↦ grown-IsNode parent id name (
        sound.named parent name id (
          ground
            (arith, lookup-insert (dirid, entry_name entry) (parent, name) t.next_id t.dir_cache)))
  ]

  grown-IsSound : IsSound grown
  grown-IsSound = record {
    numbered = grown-numbered;
    named = grown-named;
    listed = λ parent ids h.
        All-map _ _ ids (λ id c. (c.0, grown-node id c.0 c.1, c.2)) (sound.listed parent ids h);
  }

  grown-names :
      (key : Name) (id : ℕ)
      → lookup key t.dir_cache ≡ some id
      → lookup (dirid, entry_name entry) t.dir_cache ≡ none
      → lookup key grown.dir_cache ≡ some id
  grown-names key id h absent =
      ground (arith, lookup-insert (dirid, entry_name entry) key t.next_id t.dir_cache)

  add_child_new :
      t.next_id + 1 < u64_mod
      → lookup (dirid, entry_name entry) t.dir_cache ≡ none
      → add_child dirid entry t ≡ (grown, t.next_id)
  unfolding add_child
  add_child_new room absent = rw (← (add64-eq t.next_id 1 room)) (ground arith)

  add_child_old :
      (id : ℕ)
      → lookup (dirid, entry_name entry) t.dir_cache ≡ some id
      → add_child dirid entry t ≡ (t, id)
  unfolding add_child
  add_child_old id present = ground arith

  pub add_child-ChildAdded :
      t.next_id + 1 < u64_mod → ChildAdded (add_child dirid entry t).0 (add_child dirid entry t).1
  add_child-ChildAdded room = elim (Option-cases (lookup (dirid, entry_name entry) t.dir_cache)) [
    | inl absent ↦
        subst (λ (r : Tables × ℕ). ChildAdded r.0 r.1) (sym (add_child_new room absent))
          (record {
            sound' = grown-IsSound;
            extends = record {
              nodes = λ id parent name n. grown-IsNode parent id name n;
              names = λ key id h. grown-names key id h absent;
            };
            added = grown-new;
            cached = ground (
              arith,
              lookup-insert (dirid, entry_name entry) (dirid, entry_name entry) t.next_id
                  t.dir_cache,
            );
            next = omega arith;
            same = grown-node;
          })
    | inr (id, present) ↦
        subst (λ (r : Tables × ℕ). ChildAdded r.0 r.1) (sym (add_child_old id present))
          (record {
            sound' = sound;
            extends = Extends-refl t;
            added = sound.named dirid (entry_name entry) id present;
            cached = present;
            next = omega arith;
            same = λ id n h. h;
          })
  ]

-- Each id of the list is the cached child of its entry.
abbrev pub AreChildren : ℕ → Tables → List DirEntry → List ℕ → Type 0
AreChildren dirid t [] [] = Unit
AreChildren dirid t [] (id ∷ ids) = ⊥
AreChildren dirid t (e ∷ entries) [] = ⊥
AreChildren dirid t (e ∷ entries) (id ∷ ids) =
    (IsNode t dirid id (entry_name e) × (lookup (dirid, entry_name e) t.dir_cache ≡ some id))
    × AreChildren dirid t entries ids

pub record ChildrenAdded (dirid : ℕ) (entries : List DirEntry) (t t' : Tables) (ids : List ℕ)
    : Type 0 where
  pub sound' : IsSound t'
  pub extends : Extends t t'
  pub children : AreChildren dirid t' entries ids
  pub next : (t.next_id ≤ t'.next_id) × (t'.next_id ≤ t.next_id + length entries)
  pub same : (id : ℕ) (n : Node) → lookup id t.nodes ≡ some n → lookup id t'.nodes ≡ some n

-- The loop over the entries adds a child for each that is new, and finds the others.
pub add_children-ChildrenAdded :
    (dirid : ℕ) (entries : List DirEntry) (t : Tables)
    → IsSound t
    → t.next_id + length entries < u64_mod
    → ChildrenAdded dirid entries t
        (add_children dirid entries t).0
        (add_children dirid entries t).1
unfolding add_children
add_children-ChildrenAdded dirid [] t sound room = record {
  sound' = sound;
  extends = Extends-refl t;
  children = tt;
  next = omega arith;
  same = λ id n h. h;
}
add_children-ChildrenAdded dirid (e ∷ entries) t sound room =
    let one = add_child-ChildAdded dirid e t sound (omega arith) in
    let t1 = (add_child dirid e t).0 in
    let id = (add_child dirid e t).1 in
    let rest = add_children-ChildrenAdded dirid entries t1 one.sound' (omega (arith, one.next)) in
    record {
      sound' = rest.sound';
      extends = Extends-trans one.extends rest.extends;
      children = (
        (rest.extends.nodes id dirid (entry_name e) one.added, rest.extends.names _ id one.cached),
        rest.children,
      );
      next = omega (arith, one.next, rest.next);
      same = λ i n h. rest.same i n (one.same i n h);
    }
