-- ===== src/Cache/Resolution.antt =====
-- crates/ctxfs-cache/src/resolution.rs: resolved package sources, kept in a JSON file. The clock is an
-- argument; JSON is `serde_json`'s, a parameter; whether the disk takes a write is an argument.
use ctxfs.Common.{
  ℕ, ◌-◌, ◌≡◌, Bool, true, false, ◌&&◌, Option, none, some, List, [], Text, text_key, Text-discrete,
  ltb, if◌then◌else◌, length, arith, ite,
}
use ctxfs.Common.Assoc.{lookup, insert, lookup-insert}

-- A source is the `ResolvedSource` of a provider.
module _ (Source : Type 0) where
  pub record CachedResolution : Type 0 where
    pub source : Source
    pub resolved_at : ℕ
    pub is_latest : Bool

  abbrev pub Resolutions : Type 0
  Resolutions = List (Text × CachedResolution)

  pub record ResolutionCache : Type 0 where
    pub entries : Resolutions
    pub latest_ttl_secs : ℕ
    pub file : Option (List ℕ)

  pub record ResolutionJson : Type 0 where
    pub to_vec : Resolutions → Option (List ℕ)
    pub from_slice : List ℕ → Option Resolutions

  -- A file that is missing or cannot be parsed is an empty cache.
  unfoldable pub load : ResolutionJson → Option (List ℕ) → ℕ → ResolutionCache
  load json none ttl = record { entries = []; latest_ttl_secs = ttl; file = none }
  load json (some content) ttl = record {
    entries = elim (json.from_slice content) [ none ↦ [] | some entries ↦ entries ];
    latest_ttl_secs = ttl;
    file = some content;
  }

  unfoldable pub expired : ℕ → ℕ → CachedResolution → Bool
  expired now ttl entry = entry.is_latest && ltb ttl (now - entry.resolved_at)

  unfoldable pub get_resolution : ℕ → Text → ResolutionCache → Option Source
  get_resolution now key c = elim (lookup key c.entries) [
    | none ↦ none
    | some entry ↦ if expired now c.latest_ttl_secs entry then none else some entry.source
  ]

  -- `persist`: whether it succeeds, and the file after.
  unfoldable pub persist :
      ResolutionJson → Bool → Resolutions → Option (List ℕ) → Bool × Option (List ℕ)
  persist json takes entries file = elim (json.to_vec entries) [
    | none ↦ (false, file)
    | some content ↦ if takes then (true, some content) else (false, file)
  ]

  unfoldable pub put_resolution :
      ResolutionJson → Bool → ℕ → Text → Source → Bool → ResolutionCache → Bool × ResolutionCache
  put_resolution json takes now key source is_latest c =
      let entries =
        insert key (record { source = source; resolved_at = now; is_latest = is_latest })
          c.entries in
      let (done, file) = persist json takes entries c.file in
      (done, record c { entries = entries; file = file })

  unfoldable pub clear_resolutions :
      ResolutionJson → Bool → ResolutionCache → Bool × ResolutionCache
  clear_resolutions json takes c =
      let (done, file) = persist json takes [] c.file in
      (done, record c { entries = []; file = file })

  unfoldable pub entry_count : ResolutionCache → ℕ
  entry_count c = length c.entries

  -- After a `put` at one time, whatever becomes of its write, a `get` at a later time returns for the
  -- same key the source that was put, unless the entry tracks the latest version and its age in
  -- seconds is greater than the time to live, so that with a time to live of zero a `get` in the
  -- second of the `put` returns the source; and for any other key it returns what it would have
  -- returned before.
  pub get_resolution-put_resolution :
      (json : ResolutionJson) (takes : Bool) (now later : ℕ) (key other : Text) (source : Source)
      (is_latest : Bool) (c : ResolutionCache)
      → get_resolution later other (put_resolution json takes now key source is_latest c).1
        ≡ ite
            (Text-discrete other key)
            (if is_latest && ltb c.latest_ttl_secs (later - now) then none else some source)
            (get_resolution later other c)
  unfolding get_resolution put_resolution expired
  get_resolution-put_resolution json takes now later key other source is_latest c = ground (
    arith,
    lookup-insert key other (record { source = source; resolved_at = now; is_latest = is_latest })
        c.entries,
  )
