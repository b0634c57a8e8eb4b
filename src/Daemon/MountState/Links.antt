-- ===== src/Daemon/MountState/Links.antt =====
-- What the mount file holds after its operations.
use ctxfs.Common.{
  ℕ, ◌≡◌, ◌≢◌, refl, sym, subst, ◌∙◌, ap, Bool, false, none, some, Result, ok, err, List, [], ◌∷◌,
  ◌++◌, Text, text, Text-discrete, All, arith, Option-cases, ◌⊎◌, inl, inr,
}
use ctxfs.Daemon.MountState.{
  MountStateEntry, Entries, Json, IoError, invalid_data, not_found, StateFile, Disk, has_link,
  push_link, link_first, drop_link, is_empty_list, unlink_first, retain_others, read_entries,
  write_entries, add_entry,
}

-- What is written is read back.
abbrev pub ReadsBack : Json → Type 0
ReadsBack json =
    (entries : Entries) (content : List ℕ)
    → json.to_vec entries ≡ some content
    → json.from_slice content ≡ some entries

-- A written file holds the entries, or there was an error and the file is as it was.
abbrev pub Wrote : Json → Entries → StateFile → Result (Unit {0}) IoError × StateFile → Type 0
Wrote json entries f r =
    ((r.0 ≡ ok tt) × (read_entries json r.1 ≡ entries))
    ⊎ (((e : IoError) × (r.0 ≡ err e)) × (r.1 ≡ f))

drop_link-end :
    (s : Text) (ps : List Text) → has_link s ps ≡ false → drop_link s (ps ++ (s ∷ [])) ≡ some ps
unfolding has_link drop_link
drop_link-end s [] h = ground arith
drop_link-end s (p ∷ ps) h = elim (Text-discrete p s) [
  | yes same ↦ absurd (ground (arith, sym same))
  | no other ↦ ground (arith, drop_link-end s ps)
]

drop_link-absent : (s : Text) (ps : List Text) → has_link s ps ≡ false → drop_link s ps ≡ none
unfolding has_link drop_link
drop_link-absent s [] h = refl
drop_link-absent s (p ∷ ps) h = elim (Text-discrete p s) [
  | yes same ↦ absurd (ground (arith, sym same))
  | no other ↦ ground (arith, drop_link-absent s ps)
]

drop_link-push_link :
    (s : Text) (paths : List Text)
    → has_link s paths ≡ false
    → drop_link s (push_link s paths) ≡ some paths
unfolding push_link
drop_link-push_link s paths h = ground (arith, drop_link-end s paths)

-- No entry has the symlink.
abbrev pub LacksLink : Text → Entries → Type 0
LacksLink s es = All (λ (e : MountStateEntry). has_link s e.symlink_paths ≡ false) es

unlink_here :
    (s : Text) (e : MountStateEntry) (es : Entries) (paths : List Text)
    → drop_link s e.symlink_paths ≡ some paths
    → unlink_first s (e ∷ es) ≡ some (record e { symlink_paths = paths } ∷ es, is_empty_list paths)
unfolding unlink_first
unlink_here s e es paths h = ground arith

unlink_later :
    (s : Text) (e : MountStateEntry) (es es' : Entries) (empty : Bool)
    → drop_link s e.symlink_paths ≡ none
    → unlink_first s es ≡ some (es', empty)
    → unlink_first s (e ∷ es) ≡ some (e ∷ es', empty)
unfolding unlink_first
unlink_later s e es es' empty h k = ground arith

-- Where no entry has the symlink and one has the volume, to take the symlink off the entries that
-- `add_symlink` writes, as `remove_symlink` does, gives the entries back that were there before.
pub unlink_first-link_first :
    (v s : Text) (es es' : Entries)
    → LacksLink s es
    → link_first v s es ≡ some es'
    → (empty : Bool) × (unlink_first s es' ≡ some (es, empty))
unfolding link_first
unlink_first-link_first v s [] es' lacks h = absurd (ground arith)
unlink_first-link_first v s (e ∷ es) es' lacks h = elim (Text-discrete e.volume_path v) [
  | yes here ↦
      let is : (record e { symlink_paths = push_link s e.symlink_paths } ∷ es) ≡ es' =
        ground arith in
      (
        _,
        ap (unlink_first s) (sym is)
            ∙ unlink_here s (record e { symlink_paths = push_link s e.symlink_paths }) es
                e.symlink_paths (drop_link-push_link s e.symlink_paths lacks.0),
      )
  | no other ↦ elim (Option-cases (link_first v s es)) [
    | inl absent ↦ absurd (ground arith)
    | inr (rest, present) ↦
        let is : (e ∷ rest) ≡ es' = ground arith in
        let (empty, back) = unlink_first-link_first v s es rest lacks.1 present in
        (
          empty,
          ap (unlink_first s) (sym is)
              ∙ unlink_later s e rest es empty (drop_link-absent s e.symlink_paths lacks.0) back,
        )
  ]
]

-- No entry has the volume.
abbrev pub LacksVolume : Text → Entries → Type 0
LacksVolume v es = All (λ (e : MountStateEntry). e.volume_path ≢ v) es

module _ (json : Json) (reads : ReadsBack json) where
  write_fails :
      (disk : Disk) (es : Entries) (f : StateFile)
      → json.to_vec es ≡ none
      → write_entries json disk es f ≡ (err invalid_data, f)
  unfolding write_entries
  write_fails disk es f h = ground arith

  disk_fails :
      (e : IoError) (disk : Disk) (es : Entries) (content : List ℕ) (f : StateFile)
      → json.to_vec es ≡ some content
      → disk ≡ some e
      → write_entries json disk es f ≡ (err e, f)
  unfolding write_entries
  disk_fails e disk es content f h k = ground arith

  disk_takes :
      (disk : Disk) (es : Entries) (content : List ℕ) (f : StateFile)
      → json.to_vec es ≡ some content
      → disk ≡ none
      → write_entries json disk es f ≡ (ok tt, some content)
  unfolding write_entries
  disk_takes disk es content f h k = ground arith

  read_written :
      (es : Entries) (content : List ℕ)
      → json.to_vec es ≡ some content
      → read_entries json (some content) ≡ es
  unfolding read_entries
  read_written es content h = ground (arith, reads es content)

  write_entries-Wrote :
      (disk : Disk) (es : Entries) (f : StateFile) → Wrote json es f (write_entries json disk es f)
  write_entries-Wrote disk es f = elim (Option-cases (json.to_vec es)) [
    | inl fails ↦
        subst (λ r. Wrote json es f r) (sym (write_fails disk es f fails))
          (inr ((invalid_data, refl), refl))
    | inr (content, encodes) ↦ elim (Option-cases disk) [
      | inl fine ↦
          subst (λ r. Wrote json es f r) (sym (disk_takes disk es content f encodes fine))
            (inl (refl, read_written es content encodes))
      | inr (e, fails) ↦
          subst (λ r. Wrote json es f r) (sym (disk_fails e disk es content f encodes fails))
            (inr ((e, refl), refl))
    ]
  ]

  -- Where JSON that was written is read back, `add` ends in one of two ways: it succeeds, and the
  -- file then holds the entries it held and the new one at the end; or it returns an error, and the
  -- file is as it was.
  pub add_entry-Wrote :
      (disk : Disk) (entry : MountStateEntry) (f : StateFile)
      → Wrote json (read_entries json f ++ (entry ∷ [])) f (add_entry json disk entry f)
  unfolding add_entry
  add_entry-Wrote disk entry f = write_entries-Wrote disk (read_entries json f ++ (entry ∷ [])) f

  -- What a write of these entries does: it fails, if they have no JSON or the disk fails; else the
  -- file holds them.
  abbrev pub Writes : Disk → Entries → StateFile → Result (Unit {0}) IoError × StateFile → Type 0
  Writes disk es f r =
      ((json.to_vec es ≡ none) × (r ≡ (err invalid_data, f)))
      ⊎ (((content : List ℕ) × (json.to_vec es ≡ some content))
          × (((e : IoError) × (disk ≡ some e) × (r ≡ (err e, f)))
              ⊎ ((disk ≡ none) × (r.0 ≡ ok tt) × (read_entries json r.1 ≡ es))))

  -- `remove_volume` reports a volume that no entry has; else it writes the other volumes' entries.
  abbrev pub Removed : Disk → Text → StateFile → Result (Unit {0}) IoError × StateFile → Type 0
  Removed disk v f r =
      (LacksVolume v (read_entries json f)
        × (r ≡ (err (not_found (text "no mount entry for volume_path '" ++ (v ++ text "'"))), f)))
      ⊎ ((¬ LacksVolume v (read_entries json f))
          × LacksVolume v (retain_others v (read_entries json f))
          × Writes disk (retain_others v (read_entries json f)) f r)
