-- ===== src/Manifest/Inodes/Allocate.antt =====
-- `allocate_inode` and `mark_populated` keep the inode table in order.
use ctxfs.Common.{
  ℕ, ◌+◌, ◌<◌, ◌≡◌, ◌≢◌, refl, sym, subst, ◌∙◌, ap, none, some, [], ◌∷◌, Text, arith, true, In,
  In-append-left, In-append-right, All, All-map, All-append, Option-cases, ◌⊎◌, inl, inr,
  ℕ_discrete,
}
use ctxfs.Common.Assoc.{lookup, insert, lookup-insert}
use ctxfs.Common.Keys.{id_key, Name, name_key, Name-discrete}
use ctxfs.Common.Word.{u64_mod, add64-eq}
use ctxfs.Manifest.Inodes.{
  InodeKind, InodeEntry, InodeTable, directory, file, symlink, adopt, modify, allocate_inode,
  get_inode, lookup_child, child_inos, is_dir_kind, set_populated,
}
use ctxfs.Manifest.Inodes.Order.{
  Inodes, IsChildOf, Lists, IsTable, Keeps, modify-old, modify-new, lookup-modify,
}

-- The children of a changed kind.
adopt-All :
    (P : ℕ → Type 0) (ino : ℕ) (k : InodeKind)
    → P ino
    → All P (child_inos k)
    → All P (child_inos (adopt ino k))
unfolding adopt child_inos
adopt-All P ino (directory digest children populated) p h =
    All-append P children (ino ∷ []) h (p, tt)
adopt-All P ino (file digest size executable inline_content) p h = tt
adopt-All P ino (symlink target) p h = tt

adopt_old : (ino j : ℕ) (k : InodeKind) → In j (child_inos k) → In j (child_inos (adopt ino k))
unfolding adopt child_inos
adopt_old ino j (directory digest children populated) i = In-append-left j children (ino ∷ []) i
adopt_old ino j (file digest size executable inline_content) i = i
adopt_old ino j (symlink target) i = i

adopt_new :
    (ino : ℕ) (k : InodeKind) → is_dir_kind (adopt ino k) ≡ true → In ino (child_inos (adopt ino k))
unfolding adopt child_inos is_dir_kind
adopt_new ino (directory digest children populated) h =
    In-append-right ino children (ino ∷ []) (inl refl)
adopt_new ino (file digest size executable inline_content) h = absurd (ground arith)
adopt_new ino (symlink target) h = absurd (ground arith)

is_dir_kind-adopt : (ino : ℕ) (k : InodeKind) → is_dir_kind (adopt ino k) ≡ is_dir_kind k
unfolding adopt is_dir_kind
is_dir_kind-adopt ino (directory digest children populated) = refl
is_dir_kind-adopt ino (file digest size executable inline_content) = refl
is_dir_kind-adopt ino (symlink target) = refl

pub child_inos-set_populated : (k : InodeKind) → child_inos (set_populated k) ≡ child_inos k
unfolding set_populated child_inos
child_inos-set_populated (directory digest children populated) = refl
child_inos-set_populated (file digest size executable inline_content) = refl
child_inos-set_populated (symlink target) = refl

pub modify-IsChildOf :
    (ino : ℕ) (f : InodeKind → InodeKind) (inodes : Inodes) (p c : ℕ)
    → IsChildOf inodes p c
    → IsChildOf (modify ino f inodes) p c
modify-IsChildOf ino f inodes p c (e, h, is) =
    let (e', h', keeps) = modify-old ino c f inodes e h in (e', h', keeps.1 ∙ is)

-- An entry after `modify` has the number, the parent and the name of the entry before.
pub modify-Keeps :
    (ino k : ℕ) (f : InodeKind → InodeKind) (e e' : InodeEntry)
    → ((k ≡ ino) × (e' ≡ record e { kind = f e.kind })) ⊎ ((k ≢ ino) × (e' ≡ e))
    → Keeps e e'
modify-Keeps ino k f e e' (inl (same, is)) = (
  ap (λ (x : InodeEntry). x.ino) is,
  ap (λ (x : InodeEntry). x.parent) is,
  ap (λ (x : InodeEntry). x.name) is,
)
modify-Keeps ino k f e e' (inr (other, is)) = (
  ap (λ (x : InodeEntry). x.ino) is,
  ap (λ (x : InodeEntry). x.parent) is,
  ap (λ (x : InodeEntry). x.name) is,
)

module _ (parent : ℕ) (name : Text) (kind : InodeKind) (t : InodeTable) (order : IsTable t)
    (childless : child_inos kind ≡ []) (known : parent < t.next_ino)
    (room : t.next_ino + 1 < u64_mod) where
  abbrev new : InodeEntry
  new = record { ino = t.next_ino; parent = parent; name = name; kind = kind }

  abbrev inserted : Inodes
  inserted = insert t.next_ino new t.inodes

  abbrev adopted : Inodes
  adopted = modify parent (adopt t.next_ino) inserted

  fresh : (e : InodeEntry) → lookup t.next_ino t.inodes ≢ some e
  fresh e h = omega (arith, (order.numbered t.next_ino e h).1)

  inserted-old : (k : ℕ) (e : InodeEntry) → lookup k t.inodes ≡ some e → lookup k inserted ≡ some e
  inserted-old k e h =
      let other : k ≢ t.next_ino = λ same. fresh e (ap (λ j. lookup j t.inodes) (sym same) ∙ h) in
      ground (arith, lookup-insert t.next_ino k new t.inodes)

  inserted_self : lookup t.next_ino inserted ≡ some new
  inserted_self = ground (arith, lookup-insert t.next_ino t.next_ino new t.inodes)

  inserted-cases :
      (k : ℕ) (e : InodeEntry)
      → lookup k inserted ≡ some e
      → ((k ≡ t.next_ino) × (e ≡ new)) ⊎ (lookup k t.inodes ≡ some e)
  inserted-cases k e h = elim (ℕ_discrete k t.next_ino) [
    | yes same ↦ inl (same, ground (arith, lookup-insert t.next_ino k new t.inodes))
    | no other ↦ inr (ground (arith, lookup-insert t.next_ino k new t.inodes))
  ]

  new-IsChildOf : IsChildOf adopted parent t.next_ino
  new-IsChildOf =
      modify-IsChildOf parent (adopt t.next_ino) inserted parent t.next_ino
        (new, inserted_self, refl)

  adopted-IsChildOf : (p c : ℕ) → IsChildOf t.inodes p c → IsChildOf adopted p c
  adopted-IsChildOf p c (e, h, is) =
      modify-IsChildOf parent (adopt t.next_ino) inserted p c (e, inserted-old c e h, is)

  inserted-children :
      (k : ℕ) (e : InodeEntry)
      → lookup k inserted ≡ some e
      → All (IsChildOf adopted k) (child_inos e.kind)
  inserted-children k e h = elim (inserted-cases k e h) [
    | inl (same, is) ↦
        subst (λ (x : InodeEntry). All (IsChildOf adopted k) (child_inos x.kind)) (sym is)
          (subst (λ l. All (IsChildOf adopted k) l) (sym childless) tt)
    | inr old ↦ All-map _ _ (child_inos e.kind) (adopted-IsChildOf k) (order.children k e old)
  ]

  adopted-children :
      (k : ℕ) (e' : InodeEntry)
      → lookup k adopted ≡ some e'
      → All (IsChildOf adopted k) (child_inos e'.kind)
  adopted-children k e' h =
      let (e, was, how) = modify-new parent k (adopt t.next_ino) inserted e' h in
      elim how [
        | inl (same, is) ↦
            subst (λ (x : InodeEntry). All (IsChildOf adopted k) (child_inos x.kind)) (sym is)
              (adopt-All (IsChildOf adopted k) t.next_ino e.kind
                (subst (λ p. IsChildOf adopted p t.next_ino) (sym same) new-IsChildOf)
                (inserted-children k e was))
        | inr (other, is) ↦
            subst (λ (x : InodeEntry). All (IsChildOf adopted k) (child_inos x.kind)) (sym is)
              (inserted-children k e was)
      ]

  inserted-parent : (k : ℕ) (e : InodeEntry) → lookup k inserted ≡ some e → e.parent < t.next_ino
  inserted-parent k e h = elim (inserted-cases k e h) [
    | inl (same, is) ↦ subst (λ (x : InodeEntry). x.parent < t.next_ino) (sym is) known
    | inr old ↦ order.parents k e old
  ]

  -- Before the parent is changed, the old entries are listed.
  inserted-Lists : (k p : ℕ) → p < t.next_ino → Lists t.inodes p k → Lists inserted p k
  inserted-Lists k p below listed e h dir = elim (inserted-cases p e h) [
    | inl (same, is) ↦ absurd (omega (arith, same, below))
    | inr old ↦ listed e old dir
  ]

  adopted-old : (k p : ℕ) → Lists inserted p k → Lists adopted p k
  adopted-old k p listed e' h dir =
      let (e, was, how) = modify-new parent p (adopt t.next_ino) inserted e' h in
      elim how [
        | inl (same, is) ↦
            let here : is_dir_kind (adopt t.next_ino e.kind) ≡ true =
              subst (λ (x : InodeEntry). is_dir_kind x.kind ≡ true) is dir in
            subst (λ (x : InodeEntry). In k (child_inos x.kind)) (sym is)
              (adopt_old t.next_ino k e.kind
                (listed e was (sym (is_dir_kind-adopt t.next_ino e.kind) ∙ here)))
        | inr (other, is) ↦
            subst (λ (x : InodeEntry). In k (child_inos x.kind)) (sym is)
              (listed e was (subst (λ (x : InodeEntry). is_dir_kind x.kind ≡ true) is dir))
      ]

  new-Lists : Lists adopted parent t.next_ino
  new-Lists e' h dir =
      let (e, was, how) = modify-new parent parent (adopt t.next_ino) inserted e' h in
      elim how [
        | inl (same, is) ↦
            subst (λ (x : InodeEntry). In t.next_ino (child_inos x.kind)) (sym is)
              (adopt_new t.next_ino e.kind
                (subst (λ (x : InodeEntry). is_dir_kind x.kind ≡ true) is dir))
        | inr (other, is) ↦ absurd (other refl)
      ]

  inserted-Listed :
      (k : ℕ) (e : InodeEntry) → lookup k inserted ≡ some e → k ≢ 1 → Lists adopted e.parent k
  inserted-Listed k e h other = elim (inserted-cases k e h) [
    | inl (same, is) ↦
        subst (λ (x : InodeEntry). Lists adopted x.parent k) (sym is)
          (subst (λ j. Lists adopted parent j) (sym same) new-Lists)
    | inr old ↦
        adopted-old k e.parent
          (inserted-Lists k e.parent (order.parents k e old) (order.adopted k e old other))
  ]

  adopted-Listed :
      (k : ℕ) (e' : InodeEntry) → lookup k adopted ≡ some e' → k ≢ 1 → Lists adopted e'.parent k
  adopted-Listed k e' h other =
      let (e, was, how) = modify-new parent k (adopt t.next_ino) inserted e' h in
      subst (λ p. Lists adopted p k) (sym (modify-Keeps parent k (adopt t.next_ino) e e' how).1)
        (inserted-Listed k e was other)

  adopted-parent :
      (k : ℕ) (e' : InodeEntry) → lookup k adopted ≡ some e' → e'.parent < t.next_ino + 1
  adopted-parent k e' h =
      let (e, was, how) = modify-new parent k (adopt t.next_ino) inserted e' h in
      let same = (modify-Keeps parent k (adopt t.next_ino) e e' how).1 in
      omega (arith, same, inserted-parent k e was)

  adopted-numbered :
      (k : ℕ) (e' : InodeEntry) → lookup k adopted ≡ some e' → (e'.ino ≡ k) × (k < t.next_ino + 1)
  adopted-numbered k e' h =
      let (e, was, how) = modify-new parent k (adopt t.next_ino) inserted e' h in
      let (i, p, n) = modify-Keeps parent k (adopt t.next_ino) e e' how in
      elim (inserted-cases k e was) [
        | inl (same, is) ↦ (i ∙ ap (λ (x : InodeEntry). x.ino) is ∙ sym same, omega (arith, same))
        | inr old ↦ (i ∙ (order.numbered k e old).0, omega (arith, (order.numbered k e old).1))
      ]

  abbrev IsNamed : ℕ → Text → ℕ → Type 0
  IsNamed p n i = (e : InodeEntry) × (lookup i adopted ≡ some e) × (e.parent ≡ p) × (e.name ≡ n)

  inserted-IsNamed :
      (i : ℕ) (e : InodeEntry) → lookup i inserted ≡ some e → IsNamed e.parent e.name i
  inserted-IsNamed i e h =
      let (e', h', keeps) = modify-old parent i (adopt t.next_ino) inserted e h in
      (e', h', keeps.1, keeps.2)

  allocated : InodeTable
  allocated = record {
    inodes = adopted;
    next_ino = t.next_ino + 1;
    lookup_table = insert (parent, name) t.next_ino t.lookup_table;
  }

  allocated-IsNamed :
      (p : ℕ) (n : Text) (i : ℕ)
      → lookup (p, n) (insert (parent, name) t.next_ino t.lookup_table) ≡ some i
      → IsNamed p n i
  allocated-IsNamed p n i h = elim (Name-discrete (p, n) (parent, name)) [
    | yes same ↦
        let is : i ≡ t.next_ino =
          ground (arith, lookup-insert (parent, name) (p, n) t.next_ino t.lookup_table) in
        subst (λ (k : Name). IsNamed k.0 k.1 i) (sym same)
          (subst (λ j. IsNamed parent name j) (sym is)
            (inserted-IsNamed t.next_ino new inserted_self))
    | no other ↦
        let old : lookup (p, n) t.lookup_table ≡ some i =
          ground (arith, lookup-insert (parent, name) (p, n) t.next_ino t.lookup_table) in
        let (e, here, pe, ne) = order.named p n i old in
        let (e', h', keeps) =
          modify-old parent i (adopt t.next_ino) inserted e (inserted-old i e here) in
        (e', h', keeps.1 ∙ pe, keeps.2 ∙ ne)
  ]

  allocated-IsTable : IsTable allocated
  unfolding allocated
  allocated-IsTable = record {
    numbered = adopted-numbered;
    named = allocated-IsNamed;
    children = adopted-children;
    adopted = adopted-Listed;
    parents = adopted-parent;
  }

  allocate_is : allocate_inode parent name kind t ≡ (t.next_ino, allocated)
  unfolding allocate_inode allocated
  allocate_is = rw (add64-eq t.next_ino 1 room) refl

  -- What an allocation has done: the table is in order, the number is new, a lookup of the
  -- name finds it, it has this name, parent and kind, its parent lists it, and no entry but its
  -- parent's has changed.
  pub record Allocated (ino : ℕ) (t' : InodeTable) : Type 0 where
    pub order' : IsTable t'
    pub absent : get_inode ino t ≡ none
    pub finds : lookup_child parent name t' ≡ some ino
    pub entry :
        get_inode ino t' ≡ some (record { ino = ino; parent = parent; name = name; kind = kind })
    pub joined :
        (e : InodeEntry)
        → get_inode parent t' ≡ some e
        → is_dir_kind e.kind ≡ true
        → In ino (child_inos e.kind)
    pub others : (k : ℕ) → k ≢ ino → k ≢ parent → get_inode k t' ≡ get_inode k t

  adopted_self : lookup t.next_ino adopted ≡ some new
  adopted_self =
      let other : t.next_ino ≢ parent = λ same. omega (arith, same, known) in
      let self = inserted_self in
      lookup-modify parent t.next_ino (adopt t.next_ino) inserted ∙ ground arith

  adopted_others : (k : ℕ) → k ≢ t.next_ino → k ≢ parent → lookup k adopted ≡ lookup k t.inodes
  adopted_others k other far =
      lookup-modify parent k (adopt t.next_ino) inserted
      ∙ (ground (arith, lookup-insert t.next_ino k new t.inodes))

  allocated-Allocated : Allocated t.next_ino allocated
  unfolding allocated get_inode lookup_child
  allocated-Allocated = record {
    order' = allocated-IsTable;
    absent = elim (Option-cases (lookup t.next_ino t.inodes)) [
      | inl absent ↦ absent
      | inr (e, present) ↦ absurd (fresh e present)
    ];
    finds = ground (arith, lookup-insert (parent, name) (parent, name) t.next_ino t.lookup_table);
    entry = adopted_self;
    joined = new-Lists;
    others = adopted_others;
  }

  -- In a table whose numbers, names and children agree, with room for another number in 64 bits,
  -- `allocate_inode` of a kind without children, under a parent whose number is below the next,
  -- returns a number that was not in use, under which the table then has the entry of this name,
  -- parent and kind; `lookup` of the name finds it; the parent has it among its children, if it is
  -- a directory; no other entry than the parent's has changed; and numbers, names and children agree
  -- again, where each entry but the root is a child of its parent, if that is a directory.
  pub allocate_inode-Allocated :
      Allocated (allocate_inode parent name kind t).0 (allocate_inode parent name kind t).1
  allocate_inode-Allocated =
      subst (λ (r : ℕ × InodeTable). Allocated r.0 r.1) (sym allocate_is) allocated-Allocated
