-- ===== src/Manifest/Inodes/Order.antt =====
-- The inode table stays in order: numbers, names and children agree.
use ctxfs.Common.{
  ℕ, ◌<◌, ◌≡◌, ◌≢◌, refl, ap, none, some, List, Text, arith, All, In, true, Option-cases, ◌⊎◌, inl,
  inr, ite, ℕ_discrete,
}
use ctxfs.Common.Assoc.{lookup, lookup-insert}
use ctxfs.Common.Keys.{id_key, name_key}
use ctxfs.Manifest.Inodes.{InodeKind, InodeEntry, InodeTable, modify, child_inos, is_dir_kind}

abbrev pub Inodes : Type 0
Inodes = List (ℕ × InodeEntry)

-- `ino` numbers an entry of this parent.
abbrev pub IsChildOf : Inodes → ℕ → ℕ → Type 0
IsChildOf inodes parent ino = (e : InodeEntry) × (lookup ino inodes ≡ some e) × (e.parent ≡ parent)

-- The children of the entry of this number, if it is a directory, have this one.
abbrev pub Lists : Inodes → ℕ → ℕ → Type 0
Lists inodes parent ino =
    (e : InodeEntry)
    → lookup parent inodes ≡ some e
    → is_dir_kind e.kind ≡ true
    → In ino (child_inos e.kind)

-- Entries know their numbers, which are below the next; a name leads to an entry of that name and
-- parent; the children of an entry have it as their parent; and every entry but the root is a child
-- of its parent, if that is a directory.
pub record IsTable (t : InodeTable) : Type 0 where
  pub numbered :
      (ino : ℕ) (e : InodeEntry) → lookup ino t.inodes ≡ some e → (e.ino ≡ ino) × (ino < t.next_ino)
  pub named :
      (parent : ℕ) (name : Text) (ino : ℕ)
      → lookup (parent, name) t.lookup_table ≡ some ino
      → (e : InodeEntry) × (lookup ino t.inodes ≡ some e) × (e.parent ≡ parent) × (e.name ≡ name)
  pub children :
      (ino : ℕ) (e : InodeEntry)
      → lookup ino t.inodes ≡ some e
      → All (IsChildOf t.inodes ino) (child_inos e.kind)
  pub adopted :
      (ino : ℕ) (e : InodeEntry)
      → lookup ino t.inodes ≡ some e
      → ino ≢ 1
      → Lists t.inodes e.parent ino
  pub parents : (ino : ℕ) (e : InodeEntry) → lookup ino t.inodes ≡ some e → e.parent < t.next_ino

lookup_at : (i j : ℕ) (l : Inodes) → i ≡ j → lookup i l ≡ lookup j l
lookup_at i j l e = ap (λ k. lookup k l) e

pub lookup-modify :
    (ino k : ℕ) (f : InodeKind → InodeKind) (inodes : Inodes)
    → lookup k (modify ino f inodes) ≡ elim (lookup k inodes) [
      | none ↦ none
      | some e ↦ ite (ℕ_discrete k ino) (some (record e { kind = f e.kind })) (some e)
    ]
unfolding modify
lookup-modify ino k f inodes = elim (Option-cases (lookup ino inodes)) [
  | inl absent ↦ ground (arith, lookup_at ino k inodes)
  | inr (e, present) ↦
      ground
        (arith, lookup-insert ino k (record e { kind = f e.kind }) inodes, lookup_at ino k inodes)
]

-- What a changed entry keeps.
abbrev pub Keeps : InodeEntry → InodeEntry → Type 0
Keeps e e' = (e'.ino ≡ e.ino) × (e'.parent ≡ e.parent) × (e'.name ≡ e.name)

pub modify-old :
    (ino k : ℕ) (f : InodeKind → InodeKind) (inodes : Inodes) (e : InodeEntry)
    → lookup k inodes ≡ some e
    → (e' : InodeEntry) × (lookup k (modify ino f inodes) ≡ some e') × Keeps e e'
modify-old ino k f inodes e h = elim (ℕ_discrete k ino) [
  | yes same ↦ (
    record e { kind = f e.kind },
    ground (arith, lookup-modify ino k f inodes),
    (refl, refl, refl),
  )
  | no other ↦ (e, ground (arith, lookup-modify ino k f inodes), (refl, refl, refl))
]

pub modify-new :
    (ino k : ℕ) (f : InodeKind → InodeKind) (inodes : Inodes) (e' : InodeEntry)
    → lookup k (modify ino f inodes) ≡ some e'
    → (e : InodeEntry) × (lookup k inodes ≡ some e)
      × (((k ≡ ino) × (e' ≡ record e { kind = f e.kind })) ⊎ ((k ≢ ino) × (e' ≡ e)))
modify-new ino k f inodes e' h = elim (Option-cases (lookup k inodes)) [
  | inl absent ↦ absurd (ground (arith, lookup-modify ino k f inodes))
  | inr (e, present) ↦ elim (ℕ_discrete k ino) [
    | yes same ↦ (e, present, inl (same, ground (arith, lookup-modify ino k f inodes)))
    | no other ↦ (e, present, inr (other, ground (arith, lookup-modify ino k f inodes)))
  ]
]
