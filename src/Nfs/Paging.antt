-- ===== src/Nfs/Paging.antt =====
-- `readdir` in pages: what a client gets that asks on from the last entry.
use ctxfs.Common.{
  ℕ, zero, suc, ◌-◌, ◌<◌, ◌≤◌, ◌≡◌, ◌≢◌, refl, sym, ◌∙◌, ap, true, false, Result, ok, List, [], ◌∷◌,
  ◌++◌, map, append_assoc, append-nil, Text, length, length-append, take, All, ◌==◌, arith, ◌⊎◌,
  inl, inr,
}
use ctxfs.Vfs.Types.{NodeAttr, NodeType}
use ctxfs.Vfs.Tables.{Tables, Provider}
use ctxfs.Vfs.State.{getattr, readdir}
use ctxfs.Nfs.{
  NfsDirEntry, ReadDirResult, Child, NfsStat, page_loop, last_fileid, last_child, at_end,
  nfs_readdir, attr_to_fattr3,
}

-- What an entry shows of a child: its number and its name.
abbrev pub shown : NfsDirEntry → ℕ × Text
shown e = (e.fileid, e.name)

abbrev pub child_name : Child → ℕ × Text
child_name c = (c.0, c.1)

abbrev pub HasAttr : Tables → Child → Type 0
HasAttr t c = (a : NodeAttr) × (getattr c.0 t ≡ ok a)

take_nil : (n : ℕ) → take {A = ℕ × Text} n [] ≡ []
take_nil zero = refl
take_nil (suc n) = refl

take_zero : (n : ℕ) (l : List (ℕ × Text)) → n ≡ 0 → take n l ≡ []
take_zero zero l h = refl
take_zero (suc n) l h = absurd (omega arith)

take_suc :
    (n : ℕ) (x : ℕ × Text) (l : List (ℕ × Text)) → 0 < n → take n (x ∷ l) ≡ x ∷ take (n - 1) l
take_suc zero x l h = absurd (omega arith)
take_suc (suc n) x l h = ap (λ j. x ∷ take j l) (omega arith)

lt_or_le : (a b : ℕ) → (a < b) ⊎ (b ≤ a)
lt_or_le a b = ground arith

module _ (t : Tables) (start_after max_entries : ℕ) where
  abbrev Grows : List NfsDirEntry → List Child → Result (List NfsDirEntry) NfsStat → Type 0
  Grows acc children r =
      (es : List NfsDirEntry) × (r ≡ ok (acc ++ es))
      × (map shown es ≡ take (max_entries - length acc) (map child_name children))

  full :
      (acc : List NfsDirEntry) (c : Child) (children : List Child)
      → max_entries ≤ length acc
      → page_loop t start_after max_entries true acc (c ∷ children) ≡ ok acc
  unfolding page_loop
  full acc (i, n, k) children h = ground arith

  next :
      (acc : List NfsDirEntry) (i : ℕ) (n : Text) (k : NodeType) (a : NodeAttr)
      (children : List Child)
      → length acc < max_entries
      → getattr i t ≡ ok a
      → page_loop t start_after max_entries true acc ((i, n, k) ∷ children)
        ≡ page_loop t start_after max_entries true
            (acc ++ (record { fileid = i; name = n; attr = attr_to_fattr3 a } ∷ []))
            children
  unfolding page_loop
  next acc i n k a children h g = ground arith

  page_loop-Grows :
      (children : List Child) (acc : List NfsDirEntry)
      → All (HasAttr t) children
      → Grows acc children (page_loop t start_after max_entries true acc children)
  unfolding page_loop
  page_loop-Grows [] acc h =
      ([], ap ok (sym (append-nil acc)), sym (take_nil (max_entries - length acc)))
  page_loop-Grows ((i, n, k) ∷ children) acc h = elim (lt_or_le (length acc) max_entries) [
    | inr le ↦ (
      [],
      full acc (i, n, k) children le ∙ ap ok (sym (append-nil acc)),
      sym (
          take_zero (max_entries - length acc) (map child_name ((i, n, k) ∷ children))
            (omega arith)),
    )
    | inl lt ↦
        let (a, has) = h.0 in
        let e : NfsDirEntry = record { fileid = i; name = n; attr = attr_to_fattr3 a } in
        let (es, is, shows) = page_loop-Grows children (acc ++ (e ∷ [])) h.1 in
        (
          e ∷ es,
          next acc i n k a children lt has ∙ is ∙ ap ok (append_assoc acc (e ∷ []) es),
          ap (λ l. (i, n) ∷ l)
                (shows
                  ∙ ap (λ j. take j (map child_name children))
                      (omega (arith, length-append acc (e ∷ []))))
              ∙ sym (
                  take_suc (max_entries - length acc) (i, n) (map child_name children)
                    (omega arith)),
        )
  ]

  -- The loop skips what comes before the entry that is asked after, and that entry.
  page_loop-skip :
      (before : List Child) (x : Child) (after : List Child) (acc : List NfsDirEntry)
      → All (λ c. c.0 ≢ start_after) before
      → x.0 ≡ start_after
      → page_loop t start_after max_entries false acc (before ++ (x ∷ after))
        ≡ page_loop t start_after max_entries true acc after
  unfolding page_loop
  page_loop-skip [] (i, n, k) after acc h is = ground arith
  page_loop-skip ((i, n, k) ∷ before) x after acc h is =
      ground (arith, h.0, page_loop-skip before x after acc h.1 is)

module _ (p : Provider) (dirid max_entries : ℕ) (t t' : Tables) where
  readdir_pages :
      (start_after : ℕ) (children : List Child) (es : List NfsDirEntry)
      → readdir p dirid t ≡ (ok children, t')
      → page_loop t' start_after max_entries (start_after == 0) [] children ≡ ok es
      → nfs_readdir p dirid start_after max_entries t
        ≡ (ok (record { entries = es; end = at_end (last_fileid es) (last_child children) }), t')
  unfolding nfs_readdir
  readdir_pages start_after children es a b = ground arith

  -- Where `readdir` of the mount lists children that all have attributes, the first page, asked for
  -- with 0, is the first children, as many as are asked for: their numbers and names, in order.
  pub nfs_readdir-first :
      (children : List Child)
      → readdir p dirid t ≡ (ok children, t')
      → All (HasAttr t') children
      → (r : ReadDirResult) × (nfs_readdir p dirid 0 max_entries t ≡ (ok r, t'))
        × (map shown r.entries ≡ take max_entries (map child_name children))
  nfs_readdir-first children listed have =
      let (es, is, shows) = page_loop-Grows t' 0 max_entries children [] have in
      (
        _,
        readdir_pages 0 children es listed is,
        shows ∙ ap (λ j. take j (map child_name children)) (omega arith),
      )

  -- Where `readdir` of the mount lists children that all have attributes, the page that is asked for
  -- after a child, whose number is not 0 and is that of no child before it, is the next children,
  -- as many as are asked for: their numbers and names, in order.
  pub nfs_readdir-after :
      (before : List Child) (x : Child) (after : List Child)
      → readdir p dirid t ≡ (ok (before ++ (x ∷ after)), t')
      → All (HasAttr t') after
      → All (λ c. c.0 ≢ x.0) before
      → x.0 ≢ 0
      → (r : ReadDirResult) × (nfs_readdir p dirid x.0 max_entries t ≡ (ok r, t'))
        × (map shown r.entries ≡ take max_entries (map child_name after))
  nfs_readdir-after before x after listed have other positive =
      let (es, is, shows) = page_loop-Grows t' x.0 max_entries after [] have in
      let skips = page_loop-skip t' x.0 max_entries before x after [] other refl in
      let asked : (x.0 == 0) ≡ false = ground arith in
      (
        _,
        readdir_pages x.0 (before ++ (x ∷ after)) es listed (
            ap (λ b. page_loop t' x.0 max_entries b [] (before ++ (x ∷ after))) asked ∙ skips ∙ is),
        shows ∙ ap (λ j. take j (map child_name after)) (omega arith),
      )
