-- ===== src/Daemon/Requests/Ends.antt =====
-- Every mount can be ended, and what is reserved goes with the mounts.
use ctxfs.Common.{
  ℕ, ◌+◌, ◌^◌, ◌<◌, ◌≡◌, refl, sym, ap, ◌∙◌, subst, Option, none, some, Option-cases, List, [], ◌∷◌,
  map, Text, text_key, arith, inl, inr, length,
}
use ctxfs.Common.Assoc.{lookup, remove, remove_absent, Distinct}
use ctxfs.Core.Config.{Config}
use ctxfs.Cache.LinkedMap.{LinkedHashMap}
use ctxfs.Cache.State.{CacheEntry, RepoKey}
use ctxfs.Cache.Reserve.Counts.{Counts}
use ctxfs.Daemon.Live.{live}
use ctxfs.Daemon.MountState.{Json, Disk}
use ctxfs.Daemon.Server.{MountHandle, Mounts, Server, unregister}
use ctxfs.Daemon.Mount.Prepared.{reservation}
use ctxfs.Daemon.Unmount.{unregister_if, forget_volume, do_unmount_by_id, ids_of}
use ctxfs.Daemon.Requests.{Request, to_eject, step, run, losses}
use ctxfs.Daemon.Requests.Counted.{IsCounted}
use ctxfs.Daemon.Requests.Runs.{
  idle-run, IsIdle, do_unmount_none, do_unmount_some, do_unmount_by_id-Counted,
}

module _ (m : LinkedHashMap Text CacheEntry) (config : Config) (json : Json) (disk : Disk) where
  -- The mounts ended one after another.
  abbrev pub end_each : List Text → List (Request m)
  end_each ids = map (λ (id : Text). to_eject json disk id) ids

  mounts-forget :
      (v : Option Text) (s : Server m) → (forget_volume m json disk v s).mounts ≡ s.mounts
  unfolding forget_volume
  mounts-forget none s = refl
  mounts-forget (some v) s = refl

  mounts-unregister_if :
      (key : Option RepoKey) (s : Server m) → (unregister_if m json disk key s).mounts ≡ s.mounts
  unfolding unregister_if unregister
  mounts-unregister_if none s = refl
  mounts-unregister_if (some key) s = refl

  pub mounts-unmount :
      (id : Text) (s : Server m) → (do_unmount_by_id m json disk id s).1.mounts ≡ remove id s.mounts
  mounts-unmount id s = elim (Option-cases (lookup id s.mounts)) [
    | inl absent ↦
        ap (λ (t : Server m). t.mounts) (do_unmount_none m json disk id s absent)
        ∙ sym (remove_absent id s.mounts absent)
    | inr (h, found) ↦
        ap (λ (t : Server m). t.mounts) (do_unmount_some m json disk id h s found)
        ∙ mounts-forget h.info.volume_path _
        ∙ mounts-unregister_if h.repo_key _
  ]

  remove_head :
      (id : Text) (h : MountHandle) (ms : Mounts)
      → lookup id ms ≡ none
      → remove id ((id, h) ∷ ms) ≡ ms
  unfolding remove
  remove_head id h ms absent = ground (arith, remove_absent id ms absent)

  mounts-end_each :
      (ms : Mounts) (s : Server m)
      → s.mounts ≡ ms
      → Distinct ms
      → (run m config (end_each (ids_of ms)) s).mounts ≡ []
  unfolding run step ids_of
  mounts-end_each [] s e d = e
  mounts-end_each ((id, h) ∷ ms) s e d =
      mounts-end_each ms (do_unmount_by_id m json disk id s).1
        (mounts-unmount id s ∙ ap (remove id) e ∙ remove_head id h ms d.0) d.1

  end_each-Counted :
      (extra : RepoKey → ℕ) (bound : ℕ) (ids : List Text) (s : Server m)
      → IsCounted m extra bound s
      → IsCounted m extra bound (run m config (end_each ids) s)
  unfolding run step
  end_each-Counted extra bound [] s c = c
  end_each-Counted extra bound (id ∷ ids) s c =
      end_each-Counted extra bound ids _ (do_unmount_by_id-Counted m json disk extra bound id s c)

  uncounted :
      (k : RepoKey) (s : Server m) (extra : ℕ)
      → s.mounts ≡ []
      → extra ≡ 0
      → Counts (reservation m k s) (live k s.mounts + extra)
      → reservation m k s ≡ none
  unfolding live
  uncounted k s extra gone kept c = elim (Option-cases (reservation m k s)) [
    | inl absent ↦ absent
    | inr (e, present) ↦
        let counted = subst (λ o. Counts o (live k s.mounts + extra)) present c in
        let zero_live : live k s.mounts ≡ 0 = ap (live k) gone in
        absurd (omega (arith, counted.1, zero_live))
  ]

  -- After fewer than 2^32 requests to a service that began without mounts and reservations, ending
  -- the mounts that are left, one after another by their ids, leaves no mount, and no
  -- reservation of a repository that lost no registration.
  pub end_each-ends :
      (rs : List (Request m)) (s : Server m)
      → IsIdle m config s
      → length rs < 2 ^ 32
      → let s' = run m config rs s in
        let ended = run m config (end_each (ids_of s'.mounts)) s' in
        (ended.mounts ≡ [])
        × ((k : RepoKey) → losses m config k rs s ≡ 0 → reservation m k ended ≡ none)
  end_each-ends rs s idle room =
      let s' = run m config rs s in
      let c = idle-run m config rs s idle room in
      let ended = run m config (end_each (ids_of s'.mounts)) s' in
      let gone = mounts-end_each s'.mounts s' refl c.distinct in
      let counted = end_each-Counted _ _ (ids_of s'.mounts) s' c in
      (gone, λ k kept. uncounted k ended (losses m config k rs s) gone kept (counted.counts k))
