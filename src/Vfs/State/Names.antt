-- ===== src/Vfs/State/Names.antt =====
-- What the names of a mount lead to: `ensure_populated`, `readdir` and `lookup`.
use ctxfs.Common.{
  ℕ, ◌+◌, ◌<◌, ◌≡◌, refl, sym, ◌∙◌, Bool, true, false, none, some, Result, ok, err, Result-cases,
  ◌++◌, List, Text, text, arith, All, length, Option-cases, inl, inr, subst,
}
use ctxfs.Common.Assoc.{lookup}
use ctxfs.Common.Word.{u64_mod}
use ctxfs.Core.Digest.{Digest}
use ctxfs.Core.Error.{CtxfsError}
use ctxfs.Manifest.Snapshot.{DirEntry, Directory}
use ctxfs.Vfs.Types.{Node, NodeKind, VfsError, provider_err_to_vfs, io, not_dir, not_found}
use ctxfs.Vfs.Tables.{
  Tables, Provider, id_key, name_key, populate, fetch_and_populate, ensure_populated, marked,
  populated_kind,
}
use ctxfs.Vfs.Populate.{IsChild, IsSound, Extends, Extends-refl}
use ctxfs.Vfs.Populate.Listing.{Populated, populate-Populated, AreChildren-All}

-- The provider's listings leave room for their ids in 64 bits.
abbrev pub HasRoom : Provider → Tables → Type 0
HasRoom p t =
    (digest : Digest) (content : List ℕ) (d : Directory)
    → p.fetch_directory digest ≡ ok content
    → p.parse_directory content ≡ ok d
    → t.next_id + length d.entries < u64_mod

-- What `ensure_populated` has done when it returns `r` and leaves `t'`.
pub record Ensured (dirid : ℕ) (t : Tables) (r : Result (List ℕ) VfsError) (t' : Tables)
    : Type 0 where
  pub sound : IsSound t'
  pub extends : Extends t t'
  pub failed : (e : VfsError) → r ≡ err e → t' ≡ t
  pub listed : (ids : List ℕ) → r ≡ ok ids → All (IsChild t' dirid) ids
  pub again :
      (ids : List ℕ) (p : Provider) → r ≡ ok ids → ensure_populated p dirid t' ≡ (ok ids, t')

module _ (p : Provider) (dirid : ℕ) (t : Tables) (sound : IsSound t) where
  Ensured-failed : (e : VfsError) → Ensured dirid t (err e) t
  Ensured-failed e = record {
    sound = sound;
    extends = Extends-refl t;
    failed = λ e' h. refl;
    listed = λ ids h. absurd (ground arith);
    again = λ ids q h. absurd (ground arith);
  }

  ensure_listed :
      (q : Provider) (t' : Tables) (n : Node) (digest : Digest) (ids : List ℕ)
      → lookup dirid t'.nodes ≡ some n
      → n.kind ≡ NodeKind.directory digest true
      → lookup dirid t'.dir_children ≡ some ids
      → ensure_populated q dirid t' ≡ (ok ids, t')
  unfolding ensure_populated
  ensure_listed q t' n digest ids h k l = ground arith

  fetch_fails :
      (digest : Digest) (e : CtxfsError)
      → p.fetch_directory digest ≡ err e
      → (e' : VfsError) × (fetch_and_populate p dirid digest t ≡ (err e', t))
  unfolding fetch_and_populate
  fetch_fails digest e h = (provider_err_to_vfs e (text "fetch_directory"), ground arith)

  parse_fails :
      (digest : Digest) (content : List ℕ) (e : Text)
      → p.fetch_directory digest ≡ ok content
      → p.parse_directory content ≡ err e
      → (e' : VfsError) × (fetch_and_populate p dirid digest t ≡ (err e', t))
  unfolding fetch_and_populate
  parse_fails digest content e h k = (io (text "parse directory: " ++ e), ground arith)

  pub fetch_succeeds :
      (digest : Digest) (content : List ℕ) (d : Directory)
      → p.fetch_directory digest ≡ ok content
      → p.parse_directory content ≡ ok d
      → fetch_and_populate p dirid digest t
        ≡ (ok (populate dirid d.entries t).1, (populate dirid d.entries t).0)
  unfolding fetch_and_populate
  fetch_succeeds digest content d h k = ground arith

  Ensured-Populated :
      (n : Node) (digest : Digest) (b : Bool) (entries : List DirEntry) (t' : Tables) (ids : List ℕ)
      → lookup dirid t.nodes ≡ some n
      → n.kind ≡ NodeKind.directory digest b
      → Populated dirid entries t t' ids
      → Ensured dirid t (ok ids) t'
  unfolding marked populated_kind
  Ensured-Populated n digest b entries t' ids here kind done = record {
    sound = done.sound;
    extends = done.extends;
    failed = λ e h. absurd (ground arith);
    listed = λ l h.
        subst (λ x. All (IsChild t' dirid) x) (ground arith)
          (AreChildren-All dirid t' entries ids done.children);
    again = λ l q h.
        ensure_listed q t' (marked n) digest l (done.marks n here) (ground arith)
          (done.lists ∙ ground arith);
  }

  Ensured-at :
      {r : Result (List ℕ) VfsError × Tables} {r' : Result (List ℕ) VfsError} {t' : Tables}
      → r ≡ (r', t')
      → Ensured dirid t r' t'
      → Ensured dirid t r.0 r.1
  Ensured-at e h =
      subst (λ (x : Result (List ℕ) VfsError × Tables). Ensured dirid t x.0 x.1) (sym e) h

  fetch_and_populate-Ensured :
      (n : Node) (digest : Digest) (b : Bool)
      → lookup dirid t.nodes ≡ some n
      → n.kind ≡ NodeKind.directory digest b
      → HasRoom p t
      → Ensured dirid t
          (fetch_and_populate p dirid digest t).0
          (fetch_and_populate p dirid digest t).1
  fetch_and_populate-Ensured n digest b here kind room =
      elim (Result-cases (p.fetch_directory digest)) [
        | inl (e, fails) ↦
            let (e', is) = fetch_fails digest e fails in Ensured-at is (Ensured-failed e')
        | inr (content, fetched) ↦ elim (Result-cases (p.parse_directory content)) [
          | inl (e, fails) ↦
              let (e', is) = parse_fails digest content e fetched fails in
              Ensured-at is (Ensured-failed e')
          | inr (d, parsed) ↦ Ensured-at (fetch_succeeds digest content d fetched parsed) (
              Ensured-Populated n digest b d.entries _ _ here kind
                (populate-Populated dirid d.entries t sound (room digest content d fetched parsed)))
        ]
      ]

  -- The three ways of `ensure_populated`: an error at once, the listing, or the known children.
  data Way : Type 0 where
    fails : (e : VfsError) → ensure_populated p dirid t ≡ (err e, t) → Way
    fetches :
        (n : Node) (digest : Digest) (b : Bool)
        → lookup dirid t.nodes ≡ some n
        → n.kind ≡ NodeKind.directory digest b
        → ensure_populated p dirid t ≡ fetch_and_populate p dirid digest t
        → Way
    knows :
        (n : Node) (digest : Digest) (ids : List ℕ)
        → lookup dirid t.nodes ≡ some n
        → n.kind ≡ NodeKind.directory digest true
        → lookup dirid t.dir_children ≡ some ids
        → ensure_populated p dirid t ≡ (ok ids, t)
        → Way

  way_at : (n : Node) (kind : NodeKind) → lookup dirid t.nodes ≡ some n → n.kind ≡ kind → Way
  unfolding ensure_populated
  way_at n (NodeKind.directory digest true) h k =
      elim (Option-cases (lookup dirid t.dir_children)) [
        | inl absent ↦ fetches n digest true h k (ground arith)
        | inr (ids, present) ↦ knows n digest ids h k present (ground arith)
      ]
  way_at n (NodeKind.directory digest false) h k = fetches n digest false h k (ground arith)
  way_at n (NodeKind.file digest size x c) h k = fails not_dir (ground arith)
  way_at n (NodeKind.symlink target) h k = fails not_dir (ground arith)

  way_missing : lookup dirid t.nodes ≡ none → Way
  unfolding ensure_populated
  way_missing h = fails not_found (ground arith)

  way : Way
  way = elim (Option-cases (lookup dirid t.nodes)) [
    | inl absent ↦ way_missing absent
    | inr (n, present) ↦ way_at n n.kind present refl
  ]

  way-Ensured :
      HasRoom p t
      → Way
      → Ensured dirid t (ensure_populated p dirid t).0 (ensure_populated p dirid t).1
  way-Ensured room (fails e is) = Ensured-at is (Ensured-failed e)
  way-Ensured room (fetches n digest b here kind is) =
      subst (λ (x : Result (List ℕ) VfsError × Tables). Ensured dirid t x.0 x.1) (sym is)
        (fetch_and_populate-Ensured n digest b here kind room)
  way-Ensured room (knows n digest ids here kind children is) = Ensured-at is (record {
    sound = sound;
    extends = Extends-refl t;
    failed = λ e h. refl;
    listed = λ l h. sound.listed dirid l (children ∙ ground arith);
    again = λ l q h. ensure_listed q t n digest l here kind (children ∙ ground arith);
  })

  -- In sound tables with room for the provider's listings, `ensure_populated` keeps the tables
  -- sound and loses no node and no name. If it fails the tables are as they were; if it returns
  -- children they are nodes of this directory, and a call on the tables that it leaves returns
  -- the same children and changes nothing, whatever the provider then answers.
  pub ensure_populated-Ensured :
      HasRoom p t → Ensured dirid t (ensure_populated p dirid t).0 (ensure_populated p dirid t).1
  ensure_populated-Ensured room = way-Ensured room way
