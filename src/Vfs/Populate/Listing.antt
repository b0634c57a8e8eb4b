-- ===== src/Vfs/Populate/Listing.antt =====
-- What a populated directory lists, and what its names lead to.
use ctxfs.Common.{
  ℕ, ◌+◌, ◌<◌, ◌≡◌, refl, sym, ◌∙◌, ap, none, some, List, [], ◌∷◌, Text, arith, All, All-map,
  length, Option-cases, inl, inr, subst, ite, ℕ_discrete,
}
use ctxfs.Common.Assoc.{lookup, insert, lookup-insert}
use ctxfs.Common.Word.{u64_mod}
use ctxfs.Manifest.Snapshot.{DirEntry, entry_name}
use ctxfs.Vfs.Types.{Node}
use ctxfs.Vfs.Tables.{Tables, id_key, name_key, add_children, mark_populated, populate, marked}
use ctxfs.Vfs.Populate.{
  IsNode, IsChild, IsSound, Extends, Extends-trans, AreChildren, add_children-ChildrenAdded,
}

lookup_same : {V : Type 0} (i j : ℕ) (l : List (ℕ × V)) → i ≡ j → lookup i l ≡ lookup j l
lookup_same i j l e = ap (λ k. lookup k l) e

AreChildren-Extends :
    (dirid : ℕ) (t t' : Tables) (entries : List DirEntry) (ids : List ℕ)
    → Extends t t'
    → AreChildren dirid t entries ids
    → AreChildren dirid t' entries ids
AreChildren-Extends dirid t t' [] [] x h = tt
AreChildren-Extends dirid t t' [] (id ∷ ids) x h = h
AreChildren-Extends dirid t t' (e ∷ entries) [] x h = h
AreChildren-Extends dirid t t' (e ∷ entries) (id ∷ ids) x h = (
  (x.nodes id dirid (entry_name e) h.0.0, x.names (dirid, entry_name e) id h.0.1),
  AreChildren-Extends dirid t t' entries ids x h.1,
)

pub AreChildren-All :
    (dirid : ℕ) (t : Tables) (entries : List DirEntry) (ids : List ℕ)
    → AreChildren dirid t entries ids
    → All (IsChild t dirid) ids
AreChildren-All dirid t [] [] h = tt
AreChildren-All dirid t [] (id ∷ ids) h = absurd h
AreChildren-All dirid t (e ∷ entries) [] h = tt
AreChildren-All dirid t (e ∷ entries) (id ∷ ids) h =
    let (n, found, p, q) = h.0.0 in ((n, found, p), AreChildren-All dirid t entries ids h.1)

lookup-mark_populated :
    (dirid id : ℕ) (nodes : List (ℕ × Node))
    → lookup id (mark_populated dirid nodes) ≡ elim (lookup id nodes) [
      | none ↦ none
      | some n ↦ ite (ℕ_discrete id dirid) (some (marked n)) (some n)
    ]
unfolding mark_populated
lookup-mark_populated dirid id nodes = elim (Option-cases (lookup dirid nodes)) [
  | inl absent ↦ ground (arith, lookup_same dirid id nodes)
  | inr (n, present) ↦
      ground (arith, lookup-insert dirid id (marked n) nodes, lookup_same dirid id nodes)
]

mark_self :
    (dirid : ℕ) (n : Node) (nodes : List (ℕ × Node))
    → lookup dirid nodes ≡ some n
    → lookup dirid (mark_populated dirid nodes) ≡ some (marked n)
mark_self dirid n nodes h = ground (arith, lookup-mark_populated dirid dirid nodes)

module _ (dirid : ℕ) (t : Tables) (sound : IsSound t) (ids : List ℕ)
    (added : All (IsChild t dirid) ids) where
  abbrev listed_tables : Tables
  listed_tables = record t {
    nodes = mark_populated dirid t.nodes;
    dir_children = insert dirid ids t.dir_children;
  }

  -- Marking changes the kind of one node only.
  listed-node :
      (id : ℕ) (n : Node)
      → lookup id t.nodes ≡ some n
      → (n' : Node) × (lookup id listed_tables.nodes ≡ some n')
        × (n'.parent ≡ n.parent)
        × (n'.name ≡ n.name)
  unfolding marked
  listed-node id n h = elim (ℕ_discrete id dirid) [
    | yes same ↦ (marked n, ground (arith, lookup-mark_populated dirid id t.nodes), refl, refl)
    | no other ↦ (n, ground (arith, lookup-mark_populated dirid id t.nodes), refl, refl)
  ]

  listed-IsNode :
      (id parent : ℕ) (name : Text) → IsNode t parent id name → IsNode listed_tables parent id name
  listed-IsNode id parent name (n, found, p, q) =
      let (n', found', p', q') = listed-node id n found in (n', found', p' ∙ p, q' ∙ q)

  listed-IsChild : (parent id : ℕ) → IsChild t parent id → IsChild listed_tables parent id
  listed-IsChild parent id (n, found, p) =
      let (n', found', p', q') = listed-node id n found in (n', found', p' ∙ p)

  listed-numbered :
      (id : ℕ) (n : Node) → lookup id listed_tables.nodes ≡ some n → (n.id ≡ id) × (id < t.next_id)
  unfolding marked
  listed-numbered id n h = elim (Option-cases (lookup id t.nodes)) [
    | inl absent ↦ absurd (ground (arith, lookup-mark_populated dirid id t.nodes))
    | inr (n0, present) ↦
        ground (arith, lookup-mark_populated dirid id t.nodes, sound.numbered id n0 present)
  ]

  listed-listed :
      (parent : ℕ) (l : List ℕ)
      → lookup parent listed_tables.dir_children ≡ some l
      → All (IsChild listed_tables parent) l
  listed-listed parent l h = elim (ℕ_discrete parent dirid) [
    | yes same ↦
        let is : l ≡ ids = ground (arith, lookup-insert dirid parent ids t.dir_children) in
        subst (λ p. All (IsChild listed_tables p) l) (sym same)
          (subst (λ x. All (IsChild listed_tables dirid) x) (sym is)
            (All-map _ _ ids (listed-IsChild dirid) added))
    | no other ↦
        All-map _ _ l (listed-IsChild parent)
          (sound.listed parent l (ground (arith, lookup-insert dirid parent ids t.dir_children)))
  ]

  listed-IsSound : IsSound listed_tables
  listed-IsSound = record {
    numbered = listed-numbered;
    named = λ parent name id h. listed-IsNode id parent name (sound.named parent name id h);
    listed = listed-listed;
  }

  listed-Extends : Extends t listed_tables
  listed-Extends = record { nodes = listed-IsNode; names = λ key id h. h }

-- The result of populating a directory: the tables stay sound, nothing in them is lost, the ids
-- are children for the entries, one by one, and are what the directory lists from now on.
pub record Populated (dirid : ℕ) (entries : List DirEntry) (t t' : Tables) (ids : List ℕ)
    : Type 0 where
  pub sound : IsSound t'
  pub extends : Extends t t'
  pub children : AreChildren dirid t' entries ids
  pub lists : lookup dirid t'.dir_children ≡ some ids
  pub marks : (n : Node) → lookup dirid t.nodes ≡ some n → lookup dirid t'.nodes ≡ some (marked n)

pub populate-Populated :
    (dirid : ℕ) (entries : List DirEntry) (t : Tables)
    → IsSound t
    → t.next_id + length entries < u64_mod
    → Populated dirid entries t (populate dirid entries t).0 (populate dirid entries t).1
unfolding populate
populate-Populated dirid entries t sound room =
    let added = add_children-ChildrenAdded dirid entries t sound room in
    let t' = (add_children dirid entries t).0 in
    let ids = (add_children dirid entries t).1 in
    let all = AreChildren-All dirid t' entries ids added.children in
    let more = listed-Extends dirid t' added.sound' ids all in
    record {
      sound = listed-IsSound dirid t' added.sound' ids all;
      extends = Extends-trans added.extends more;
      children = AreChildren-Extends dirid t' _ entries ids more added.children;
      lists = ground (arith, lookup-insert dirid dirid ids t'.dir_children);
      marks = λ n h. mark_self dirid n t'.nodes (added.same dirid n h);
    }
