-- ===== src/Provider/Singleflight/Single.antt =====
-- At most one download of an archive is led at a time.
use ctxfs.Common.{
  ℕ, ◌+◌, ◌<◌, ◌≡◌, ◌≢◌, refl, sym, subst, ◌∙◌, ap, Bool, true, false, none, some, Option,
  Option-cases, Bool-cases, ◌⊎◌, inl, inr, List, [], ◌∷◌, All, All-map, In, In-All, arith, ◌==◌,
  ℕ_discrete, holds, if◌then◌else◌, ◌&&◌,
}
use ctxfs.Common.Assoc.{lookup, insert, remove, lookup-insert, lookup-remove}
use ctxfs.Common.Sort.{Pairwise}
use ctxfs.Provider.Singleflight.{
  TarballKey, TarballKey-discrete, tarball_key, Singleflight, SlotClaim, claim_singleflight_slot,
  release,
}

-- Whether two claims are for one slot of one key.
abbrev same_slot : SlotClaim → SlotClaim → Bool
same_slot c l = holds (TarballKey-discrete l.key c.key) && (l.slot == c.slot)

-- The leaders that are under way, without those of the slot of a claim.
unfoldable pub without_slot : SlotClaim → List SlotClaim → List SlotClaim
without_slot c [] = []
without_slot c (l ∷ live) =
    let rest = without_slot c live in if same_slot c l then rest else l ∷ rest

-- A leader is under way from its claim until a leader of its slot is released.
abbrev pub with_claim : SlotClaim → List SlotClaim → List SlotClaim
with_claim c live = if c.is_leader then c ∷ live else live

abbrev pub without_claim : SlotClaim → List SlotClaim → List SlotClaim
without_claim c live = if c.is_leader then without_slot c live else live

-- Claims and releases of claims in any order, with the claims that were made and the leaders
-- that are under way, the last one first.
pub data Run : Singleflight → (made live : List SlotClaim) → Type 0 where
  start : Run (record { registry = []; next = 0 }) [] []
  claims :
      (key : TarballKey) (s : Singleflight) (made live : List SlotClaim)
      → Run s made live
      → Run
          (claim_singleflight_slot key s).1
          ((claim_singleflight_slot key s).0 ∷ made)
          (with_claim (claim_singleflight_slot key s).0 live)
  releases :
      (c : SlotClaim) (s : Singleflight) (made live : List SlotClaim)
      → In c made
      → Run s made live
      → Run (release c s) made (without_claim c live)

-- A claim of the list leads the download of this key in this slot.
abbrev pub Leads : List SlotClaim → TarballKey → ℕ → Type 0
Leads l key slot = (c : SlotClaim) × In c l × (c.is_leader ≡ true) × (c.key ≡ key) × (c.slot ≡ slot)

-- No two leaders have one slot.
abbrev pub OneLeads : SlotClaim → SlotClaim → Type 0
OneLeads a b = a.is_leader ≡ true → b.is_leader ≡ true → a.slot ≢ b.slot

abbrev pub OtherKey : SlotClaim → SlotClaim → Type 0
OtherKey a b = a.key ≢ b.key

-- The registry has the slot of this leader, which was claimed.
abbrev pub IsHeld : Singleflight → List SlotClaim → SlotClaim → Type 0
IsHeld s made l = In l made × (l.is_leader ≡ true) × (lookup l.key s.registry ≡ some l.slot)

-- No two leaders under way have one key; what the registry has is exactly their slots; each claim
-- has a leader of its slot and key, and only one claim ever leads a slot.
pub record IsSingle (s : Singleflight) (made live : List SlotClaim) : Type 0 where
  pub alone : Pairwise OtherKey live
  pub held : All (IsHeld s made) live
  pub registered :
      (key : TarballKey) (slot : ℕ) → lookup key s.registry ≡ some slot → Leads live key slot
  pub fresh : All (λ (c : SlotClaim). c.slot < s.next) made
  pub single : Pairwise OneLeads made
  pub led : (c : SlotClaim) → In c made → Leads made c.key c.slot

Leads-later :
    (l : List SlotClaim) (key : TarballKey) (slot : ℕ) (c : SlotClaim)
    → Leads l key slot
    → Leads (c ∷ l) key slot
Leads-later l key slot c (x, i, lead, k, same) = (x, inr i, lead, k, same)

waiter_single :
    (w : SlotClaim) (made : List SlotClaim) → w.is_leader ≡ false → All (OneLeads w) made
waiter_single w [] f = tt
waiter_single w (c ∷ made) f = (λ t l. absurd (ground arith), waiter_single w made f)

waits :
    (key : TarballKey) (slot : ℕ) (s : Singleflight) (made live : List SlotClaim)
    → lookup key s.registry ≡ some slot
    → IsSingle s made live
    → IsSingle s (record { key = key; slot = slot; is_leader = false } ∷ made) live
waits key slot s made live found i =
    let w : SlotClaim = record { key = key; slot = slot; is_leader = false } in
    let (l, there, leads, k, same) = i.registered key slot found in
    let was : In l made = (In-All (IsHeld s made) live l i.held there).0 in
    let at : l.slot < s.next = In-All (λ (c : SlotClaim). c.slot < s.next) made l i.fresh was in
    record {
      alone = i.alone;
      held =
          All-map (IsHeld s made) (IsHeld s (w ∷ made)) live (λ x (a, b, d). (inr a, b, d)) i.held;
      registered = i.registered;
      fresh = (subst (λ n. n < s.next) same at, i.fresh);
      single = (waiter_single w made refl, i.single);
      led = λ c m. elim m [
        | inl is ↦
            subst (λ (x : SlotClaim). Leads (w ∷ made) x.key x.slot) (sym is)
              (Leads-later made key slot w (l, was, leads, k, same))
        | inr old ↦ Leads-later made c.key c.slot w (i.led c old)
      ];
    }

leader_single :
    (w : SlotClaim) (made : List SlotClaim)
    → All (λ (c : SlotClaim). c.slot < w.slot) made
    → All (OneLeads w) made
leader_single w [] f = tt
leader_single w (c ∷ made) f =
    (λ t l is. let lt : c.slot < w.slot = f.0 in absurd (omega arith), leader_single w made f.1)

module _ (key : TarballKey) (s : Singleflight) (made live : List SlotClaim)
    (absent : lookup key s.registry ≡ none) where
  abbrev leader : SlotClaim
  leader = record { key = key; slot = s.next; is_leader = true }

  abbrev led_registry : Singleflight
  led_registry = record { registry = insert key s.next s.registry; next = s.next + 1 }

  -- A leader under way has another key.
  other_key : (l : SlotClaim) → IsHeld s made l → key ≢ l.key
  other_key l (m, t, h) same =
      let gone : lookup l.key s.registry ≡ none =
        subst (λ k. lookup k s.registry ≡ none) same absent in
      absurd (ground arith)

  IsHeld-insert : (l : SlotClaim) → IsHeld s made l → IsHeld led_registry (leader ∷ made) l
  IsHeld-insert l (m, t, h) =
      let other = other_key l (m, t, h) in
      let differs : l.key ≢ key = λ is. other (sym is) in
      (inr m, t, ground (arith, lookup-insert key l.key s.next s.registry))

  leads : IsSingle s made live → IsSingle led_registry (leader ∷ made) (leader ∷ live)
  leads i = record {
    alone = (All-map (IsHeld s made) (OtherKey leader) live other_key i.held, i.alone);
    held = (
      (inl refl, refl, ground (arith, lookup-insert key key s.next s.registry)),
      All-map (IsHeld s made) (IsHeld led_registry (leader ∷ made)) live IsHeld-insert i.held,
    );
    registered = λ k n h. elim (TarballKey-discrete k key) [
      | yes is ↦
          let same : s.next ≡ n = ground (arith, lookup-insert key k s.next s.registry) in
          (leader, inl refl, refl, sym is, same)
      | no ne ↦
          Leads-later live k n leader
            (i.registered k n (ground (arith, lookup-insert key k s.next s.registry)))
    ];
    fresh = (
      omega arith,
      All-map (λ (c : SlotClaim). c.slot < s.next) (λ (c : SlotClaim). c.slot < s.next + 1) made
          (λ c lt. omega arith) i.fresh,
    );
    single = (leader_single leader made i.fresh, i.single);
    led = λ c m. elim m [
      | inl is ↦ (
        leader,
        inl refl,
        refl,
        ap (λ (x : SlotClaim). x.key) (sym is),
        ap (λ (x : SlotClaim). x.slot) (sym is),
      )
      | inr old ↦ Leads-later made c.key c.slot leader (i.led c old)
    ];
  }

claim_first :
    (key : TarballKey) (s : Singleflight)
    → lookup key s.registry ≡ none
    → claim_singleflight_slot key s ≡ (
      record { key = key; slot = s.next; is_leader = true },
      record { registry = insert key s.next s.registry; next = s.next + 1 },
    )
unfolding claim_singleflight_slot
claim_first key s absent = ground arith

claim_later :
    (key : TarballKey) (slot : ℕ) (s : Singleflight)
    → lookup key s.registry ≡ some slot
    → claim_singleflight_slot key s ≡ (record { key = key; slot = slot; is_leader = false }, s)
unfolding claim_singleflight_slot
claim_later key slot s found = ground arith

abbrev Claimed : List SlotClaim → List SlotClaim → SlotClaim × Singleflight → Type 0
Claimed made live (c, s) = IsSingle s (c ∷ made) (with_claim c live)

claim-Claimed :
    (key : TarballKey) (s : Singleflight) (made live : List SlotClaim)
    → IsSingle s made live
    → Claimed made live (claim_singleflight_slot key s)
claim-Claimed key s made live i = elim (Option-cases (lookup key s.registry)) [
  | inl absent ↦
      subst (Claimed made live) (sym (claim_first key s absent)) (leads key s made live absent i)
  | inr (slot, found) ↦
      subst (Claimed made live) (sym (claim_later key slot s found))
        (waits key slot s made live found i)
]

keeps_claim :
    (c l : SlotClaim) (live : List SlotClaim)
    → same_slot c l ≡ false
    → without_slot c (l ∷ live) ≡ l ∷ without_slot c live
unfolding without_slot
keeps_claim c l live is = ground arith

-- What is left of a list has what the list had, and another key or another slot.
without_slot-All :
    (P : SlotClaim → Type 0) (c : SlotClaim) (live : List SlotClaim)
    → All P live
    → All (λ (l : SlotClaim). P l × (same_slot c l ≡ false)) (without_slot c live)
unfolding without_slot
without_slot-All P c [] a = tt
without_slot-All P c (l ∷ live) (p, a) =
    let Q : SlotClaim → Type 0 = λ x. P x × (same_slot c x ≡ false) in
    let rest = without_slot-All P c live a in
    elim (Bool-cases (same_slot c l)) [
      | inl is ↦ rw is rest
      | inr is ↦ subst (All Q) (sym (keeps_claim c l live is)) ((p, is), rest)
    ]

without_slot-Pairwise :
    (c : SlotClaim) (live : List SlotClaim)
    → Pairwise OtherKey live
    → Pairwise OtherKey (without_slot c live)
unfolding without_slot
without_slot-Pairwise c [] a = tt
without_slot-Pairwise c (l ∷ live) (o, a) =
    let rest = without_slot-Pairwise c live a in
    elim (Bool-cases (same_slot c l)) [
      | inl is ↦ rw is rest
      | inr is ↦ rw is (
        All-map (λ (x : SlotClaim). OtherKey l x × (same_slot c x ≡ false)) (OtherKey l)
            (without_slot c live) (λ x h. h.0) (without_slot-All (OtherKey l) c live o),
        rest,
      )
    ]

In-without_slot :
    (c x : SlotClaim) (live : List SlotClaim)
    → same_slot c x ≡ false
    → In x live
    → In x (without_slot c live)
unfolding without_slot
In-without_slot c x [] f i = absurd i
In-without_slot c x (l ∷ live) f (inl is) =
    let other : same_slot c l ≡ false = subst (λ y. same_slot c y ≡ false) is f in rw other (inl is)
In-without_slot c x (l ∷ live) f (inr i) =
    let rest = In-without_slot c x live f i in
    elim (Bool-cases (same_slot c l)) [ inl is ↦ rw is rest | inr is ↦ rw is (inr rest) ]

other_slot : (c x : SlotClaim) → (x.key ≡ c.key → x.slot ≢ c.slot) → same_slot c x ≡ false
other_slot c x h = elim (TarballKey-discrete x.key c.key) [
  | yes is ↦ let other = h is in ground arith
  | no ne ↦ ground arith
]

slot_cases : (o : Option ℕ) (slot : ℕ) → (o ≡ some slot) ⊎ (o ≢ some slot)
slot_cases none slot = inr (λ h. absurd (ground arith))
slot_cases (some n) slot = elim (ℕ_discrete n slot) [
  | yes is ↦ inl (ap (λ x. some x) is)
  | no ne ↦ inr (λ h. ne (ground arith))
]

module _ (c : SlotClaim) (s : Singleflight) (made live : List SlotClaim)
    (i : IsSingle s made live) where
  -- A release of a slot that the registry does not have for the key.
  stale : (lookup c.key s.registry ≢ some c.slot) → IsSingle s made (without_slot c live)
  stale gone = record {
    alone = without_slot-Pairwise c live i.alone;
    held =
        All-map (λ (l : SlotClaim). IsHeld s made l × (same_slot c l ≡ false)) (IsHeld s made)
          (without_slot c live) (λ l h. h.0) (without_slot-All (IsHeld s made) c live i.held);
    registered = λ k n h.
        let (l, there, leads, is, same) = i.registered k n h in
        (
          l,
          In-without_slot c l live
              (other_slot c l (λ p q.
                gone (
                  ap (λ x. lookup x s.registry) (sym p ∙ is)
                  ∙ h
                  ∙ ap (λ x. some x) (sym same ∙ q))))
              there,
          leads,
          is,
          same,
        );
    fresh = i.fresh;
    single = i.single;
    led = i.led;
  }

  abbrev released : Singleflight
  released = record s { registry = remove c.key s.registry }

  IsHeld-remove :
      (l : SlotClaim)
      → lookup c.key s.registry ≡ some c.slot
      → IsHeld s made l × (same_slot c l ≡ false)
      → IsHeld released made l
  IsHeld-remove l found ((m, t, h), f) = elim (TarballKey-discrete l.key c.key) [
    | yes is ↦
        let here : lookup c.key s.registry ≡ some l.slot =
          subst (λ k. lookup k s.registry ≡ some l.slot) is h in
        absurd (ground arith)
    | no ne ↦ (m, t, ground (arith, lookup-remove c.key l.key s.registry))
  ]

  removed : lookup c.key s.registry ≡ some c.slot → IsSingle released made (without_slot c live)
  removed found = record {
    alone = without_slot-Pairwise c live i.alone;
    held =
        All-map (λ (l : SlotClaim). IsHeld s made l × (same_slot c l ≡ false))
          (IsHeld released made) (without_slot c live) (λ l h. IsHeld-remove l found h)
          (without_slot-All (IsHeld s made) c live i.held);
    registered = λ k n h. elim (TarballKey-discrete k c.key) [
      | yes same ↦ absurd (ground (arith, lookup-remove c.key k s.registry))
      | no ne ↦
          let (l, there, leads, is, same) =
            i.registered k n (ground (arith, lookup-remove c.key k s.registry)) in
          (
            l,
            In-without_slot c l live (other_slot c l (λ p q. ne (sym is ∙ p))) there,
            leads,
            is,
            same,
          )
    ];
    fresh = i.fresh;
    single = i.single;
    led = i.led;
  }

  release-waiter : c.is_leader ≡ false → release c s ≡ s
  unfolding release
  release-waiter f = ground arith

  release-stale : lookup c.key s.registry ≢ some c.slot → release c s ≡ s
  unfolding release
  release-stale gone = elim (Option-cases (lookup c.key s.registry)) [
    | inl absent ↦ ground arith
    | inr (slot, found) ↦
        let other : slot ≢ c.slot = λ is. gone (found ∙ ap (λ x. some x) is) in ground arith
  ]

  release-removed :
      c.is_leader ≡ true → lookup c.key s.registry ≡ some c.slot → release c s ≡ released
  unfolding release
  release-removed t found = ground arith

  abbrev Released : Singleflight → Type 0
  Released s' = IsSingle s' made (without_claim c live)

  release-Released : Released (release c s)
  unfolding without_slot
  release-Released = elim (Bool-cases c.is_leader) [
    | inr waiter ↦ subst Released (sym (release-waiter waiter)) (rw waiter i)
    | inl leads_slot ↦ elim (slot_cases (lookup c.key s.registry) c.slot) [
      | inl found ↦
          subst Released (sym (release-removed leads_slot found)) (rw leads_slot (removed found))
      | inr gone ↦ subst Released (sym (release-stale gone)) (rw leads_slot (stale gone))
    ]
  ]

nothing : IsSingle (record { registry = []; next = 0 }) [] []
unfolding lookup
nothing = record {
  alone = tt;
  held = tt;
  registered = λ k n h. absurd (ground arith);
  fresh = tt;
  single = tt;
  led = λ c m. absurd m;
}

-- After any claims and releases of claims in any order, where a leader is under way from its claim to
-- the first release of a leader of its key and slot: no two leaders under way have one key; the
-- registry has exactly their keys, each with its slot; each claim shares its slot with a leader that
-- claimed the same key; and no two leaders ever have one slot.
pub Run-IsSingle :
    {s : Singleflight} {made live : List SlotClaim} → Run s made live → IsSingle s made live
Run-IsSingle start = nothing
Run-IsSingle (claims key s made live r) = claim-Claimed key s made live (Run-IsSingle r)
Run-IsSingle (releases c s made live m r) = release-Released c s made live (Run-IsSingle r)
