-- ===== src/Manifest/Inodes/Built.antt =====
-- Every inode table that is built from a root is in order.
use ctxfs.Common.{
  ℕ, ◌+◌, ◌<◌, ◌≡◌, refl, sym, subst, ◌∙◌, ap, Bool, false, Option, none, some, List, [], Text,
  arith, true, In, All, All-map, Option-cases, inl, inr, ℕ_discrete,
}
use ctxfs.Common.Assoc.{lookup, insert}
use ctxfs.Common.Keys.{id_key, name_key}
use ctxfs.Common.Word.{u64_mod}
use ctxfs.Core.Digest.{Digest}
use ctxfs.Manifest.Inodes.{
  InodeKind, InodeEntry, InodeTable, directory, file, symlink, modify, allocate_inode, child_inos,
  mark_inode_populated, set_populated, insert_root, new_table, root_entry, is_populated,
  populated_of, is_dir_kind,
}
use ctxfs.Manifest.Inodes.Order.{IsChildOf, Lists, IsTable, modify-old, modify-new, lookup-modify}
use ctxfs.Manifest.Inodes.Allocate.{
  child_inos-set_populated, modify-IsChildOf, modify-Keeps, allocate_inode-Allocated,
}

-- A table that a file system has: a root in a new table, then children and marks.
pub data Built : InodeTable → Type 0 where
  root : (digest : Digest) → Built (insert_root digest new_table)
  child :
      (parent : ℕ) (name : Text) (kind : InodeKind) (t : InodeTable)
      → child_inos kind ≡ []
      → parent < t.next_ino
      → t.next_ino + 1 < u64_mod
      → Built t
      → Built (allocate_inode parent name kind t).1
  mark : (ino : ℕ) (t : InodeTable) → Built t → Built (mark_inode_populated ino t)

root_found :
    (digest : Digest) (ino : ℕ) (e : InodeEntry)
    → lookup ino (insert_root digest new_table).inodes ≡ some e
    → (ino ≡ 1) × (e ≡ root_entry digest)
unfolding lookup insert insert_root
root_found digest ino e h = ground arith

root-IsTable : (digest : Digest) → IsTable (insert_root digest new_table)
unfolding insert_root lookup child_inos
root-IsTable digest = record {
  numbered = λ ino e h.
      let (p, q) = root_found digest ino e h in
      (ap (λ (x : InodeEntry). x.ino) q ∙ sym p, subst (λ i. i < 2) (sym p) (omega arith));
  named = λ parent name ino h. absurd (ground arith);
  children = λ ino e h.
      let (p, q) = root_found digest ino e h in
      subst
        (λ (x : InodeEntry).
          All (IsChildOf (insert_root digest new_table).inodes ino) (child_inos x.kind))
        (sym q) tt;
  adopted = λ ino e h other. absurd (other (root_found digest ino e h).0);
  parents = λ ino e h.
      subst (λ (x : InodeEntry). x.parent < 2) (sym (root_found digest ino e h).1) (omega arith);
}

is_dir_kind-set_populated : (k : InodeKind) → is_dir_kind (set_populated k) ≡ is_dir_kind k
unfolding set_populated is_dir_kind
is_dir_kind-set_populated (directory digest children populated) = refl
is_dir_kind-set_populated (file digest size executable inline_content) = refl
is_dir_kind-set_populated (symlink target) = refl

module _ (ino : ℕ) (t : InodeTable) (order : IsTable t) where
  abbrev marked : List (ℕ × InodeEntry)
  marked = modify ino set_populated t.inodes

  marked-numbered :
      (k : ℕ) (e' : InodeEntry) → lookup k marked ≡ some e' → (e'.ino ≡ k) × (k < t.next_ino)
  marked-numbered k e' h =
      let (e, was, how) = modify-new ino k set_populated t.inodes e' h in
      let (i, p, n) = modify-Keeps ino k set_populated e e' how in
      (i ∙ (order.numbered k e was).0, (order.numbered k e was).1)

  marked-children :
      (k : ℕ) (e' : InodeEntry)
      → lookup k marked ≡ some e'
      → All (IsChildOf marked k) (child_inos e'.kind)
  marked-children k e' h =
      let (e, was, how) = modify-new ino k set_populated t.inodes e' h in
      let old : All (IsChildOf marked k) (child_inos e.kind) =
        All-map _ _ (child_inos e.kind) (modify-IsChildOf ino set_populated t.inodes k)
          (order.children k e was) in
      elim how [
        | inl (same, is) ↦
            subst (λ (x : InodeEntry). All (IsChildOf marked k) (child_inos x.kind)) (sym is)
              (subst (λ l. All (IsChildOf marked k) l) (sym (child_inos-set_populated e.kind)) old)
        | inr (other, is) ↦
            subst (λ (x : InodeEntry). All (IsChildOf marked k) (child_inos x.kind)) (sym is) old
      ]

  marked-Lists : (k p : ℕ) → Lists t.inodes p k → Lists marked p k
  marked-Lists k p listed e' h dir =
      let (e, was, how) = modify-new ino p set_populated t.inodes e' h in
      elim how [
        | inl (same, is) ↦
            let here : is_dir_kind (set_populated e.kind) ≡ true =
              subst (λ (x : InodeEntry). is_dir_kind x.kind ≡ true) is dir in
            subst (λ (x : InodeEntry). In k (child_inos x.kind)) (sym is)
              (subst (λ l. In k l) (sym (child_inos-set_populated e.kind))
                (listed e was (sym (is_dir_kind-set_populated e.kind) ∙ here)))
        | inr (other, is) ↦
            subst (λ (x : InodeEntry). In k (child_inos x.kind)) (sym is)
              (listed e was (subst (λ (x : InodeEntry). is_dir_kind x.kind ≡ true) is dir))
      ]

  mark-IsTable : IsTable (mark_inode_populated ino t)
  unfolding mark_inode_populated
  mark-IsTable = record {
    numbered = marked-numbered;
    named = λ parent name i h.
        let (e, here, p, n) = order.named parent name i h in
        let (e', h', keeps) = modify-old ino i set_populated t.inodes e here in
        (e', h', keeps.1 ∙ p, keeps.2 ∙ n);
    children = marked-children;
    adopted = λ k e' h other.
        let (e, was, how) = modify-new ino k set_populated t.inodes e' h in
        subst (λ p. Lists marked p k) (sym (modify-Keeps ino k set_populated e e' how).1)
          (marked-Lists k e.parent (order.adopted k e was other));
    parents = λ k e' h.
        let (e, was, how) = modify-new ino k set_populated t.inodes e' h in
        subst (λ p. p < t.next_ino) (sym (modify-Keeps ino k set_populated e e' how).1)
          (order.parents k e was);
  }

-- In every table that is built by `insert_root` on a new table, then by `allocate_inode` of kinds
-- without children, under parents whose number is below the next, with room for their numbers in 64
-- bits, and by `mark_populated`, in any order: each entry has its number, which is below the next;
-- a name leads to an entry of that name and parent; the children of an entry have it as their
-- parent; and each entry but the root is a child of its parent, if that is a directory.
pub Built-IsTable : (t : InodeTable) → Built t → IsTable t
Built-IsTable _ (root digest) = root-IsTable digest
Built-IsTable _ (child parent name kind t childless known room built) =
    (allocate_inode-Allocated parent name kind t (Built-IsTable t built) childless known
      room).order'
Built-IsTable _ (mark ino t built) = mark-IsTable ino t (Built-IsTable t built)

-- Whether the entry that was found is a directory.
abbrev pub dir_at : Option InodeEntry → Bool
dir_at none = false
dir_at (some e) = is_dir_kind e.kind

populated_of-set_populated : (k : InodeKind) → populated_of (set_populated k) ≡ is_dir_kind k
unfolding populated_of set_populated is_dir_kind
populated_of-set_populated (directory digest children populated) = refl
populated_of-set_populated (file digest size executable inline_content) = refl
populated_of-set_populated (symlink target) = refl

-- After `mark_populated` of a number, an inode is populated if it has that number and is a
-- directory, or if it was populated before and has another number.
pub is_populated-mark_inode_populated :
    (ino k : ℕ) (t : InodeTable)
    → is_populated k (mark_inode_populated ino t) ≡ elim (ℕ_discrete k ino) [
      | yes same ↦ dir_at (lookup k t.inodes)
      | no other ↦ is_populated k t
    ]
unfolding is_populated mark_inode_populated
is_populated-mark_inode_populated ino k t = elim (Option-cases (lookup k t.inodes)) [
  | inl absent ↦ ground (arith, lookup-modify ino k set_populated t.inodes)
  | inr (e, present) ↦
      ground (arith, lookup-modify ino k set_populated t.inodes, populated_of-set_populated e.kind)
]
