-- ===== src/Tests/Eviction.antt =====
-- The eviction loop and the reservations: runs, and the theorems at inputs that meet their hypotheses.
use ctxfs.Common.{
  ℕ, ◌+◌, ◌<◌, ◌≤◌, ◌^◌, ◌≡◌, refl, true, false, Option, none, some, List, [], ◌∷◌, Text, text,
  text_key, Text-discrete, arith,
}
use ctxfs.Common.Assoc.{lookup, insert, remove}
use ctxfs.Common.Word.{u64_mod, add64, sub64}
use ctxfs.Core.Digest.{HashAlgorithm, sha1}
use ctxfs.Cache.LinkedMap.{LinkedHashMap, refresh}
use ctxfs.Cache.State.{
  RepoKey, RepoKey-discrete, repo_key, ReservationEntry, CacheEntry, CacheState, contains,
  owned_bytes, working_set_bytes_for, protects, any_protects, is_protected_by_reservation,
  Reservations,
}
use ctxfs.Cache.Evict.{
  evict_oldest, rotate, evict_front, evict_round, evict_loop, lru_insert, total_without,
  lru_insert_evict, EvictRun,
}
use ctxfs.Cache.Evict.Accounting.{IsAccounted, sizes}
use ctxfs.Cache.Evict.Protection.{Settled, lru_insert_evict-settles}
use ctxfs.Cache.Evict.Budget.{IsReserved, lru_insert_evict-IsReserved}
use ctxfs.Cache.Evict.Tracks.{Tracks, lru_insert_evict-Tracks}
use ctxfs.Cache.Reserve.{explicit_sum, rebalance_default_reservations}
use ctxfs.Cache.Reserve.Rebalance.{reserved_sum, reserved_sum-rebalance-le}
use ctxfs.Cache.Reserve.Mounts.{refcount_of}
use ctxfs.Tests.OrderedList.{ordered_list}

abbrev pub index : LinkedHashMap Text CacheEntry
index = ordered_list Text CacheEntry

program : Unit {0}
unfolding lookup insert remove refresh contains owned_bytes working_set_bytes_for protects
    any_protects is_protected_by_reservation evict_oldest rotate evict_front evict_round evict_loop
    lru_insert total_without lru_insert_evict add64 sub64 Text-discrete RepoKey-discrete
    explicit_sum
program = tt

abbrev pub repo : RepoKey
repo = record { host = text "gh"; owner = text "o"; repo = text "r" }

abbrev pub empty : CacheState index
empty = record { entries = ([], tt); total_bytes = 0; blob_owners = []; reservations = [] }

abbrev pub one : CacheState index
one = lru_insert index (text "aa1") 6 sha1 empty

abbrev mount : ReservationEntry
mount = record { reserved_bytes = 6; is_explicit_override = true; refcount = 1 }

-- The repository owns `aa1`, and may keep 6 bytes.
abbrev reserved : CacheState index
reserved = record one {
  blob_owners = (text "aa1", repo ∷ []) ∷ [];
  reservations = (repo, mount) ∷ [];
}

evicted_of : Option (EvictRun index) → Option (List (Text × HashAlgorithm) × ℕ × ℕ)
evicted_of none = none
evicted_of (some r) = some (r.evicted, r.blocked, r.state.total_bytes)

-- Without a reservation the oldest goes; with one it is passed over, and the new blob goes.
evicts_oldest :
    evicted_of (lru_insert_evict index 10 (text "bb2") 6 sha1 one)
    ≡ some ((text "aa1", sha1) ∷ [], 0, 6)
unfolding program evicted_of
evicts_oldest = refl

passes_over_reserved :
    evicted_of (lru_insert_evict index 10 (text "bb2") 6 sha1 reserved)
    ≡ some ((text "bb2", sha1) ∷ [], 1, 6)
unfolding program evicted_of
passes_over_reserved = refl

pub one-IsAccounted : IsAccounted index one
unfolding program sizes
one-IsAccounted = record { sums = refl; fits = omega arith }

one_room : one.total_bytes + 6 < u64_mod
unfolding program
one_room = omega arith

lru_insert_evict-settles_example :
    (r : EvictRun index) × (lru_insert_evict index 10 (text "bb2") 6 sha1 one ≡ some r)
    × IsAccounted index r.state
    × Settled index 10 r.state
lru_insert_evict-settles_example =
    lru_insert_evict-settles index 10 (text "bb2") 6 sha1 one one-IsAccounted one_room

aa1-IsReserved :
    IsReserved index repo
      (text "aa1")
      mount
      (record { size = 6; algorithm = sha1 })
      (lru_insert index (text "bb2") 6 sha1 reserved)
unfolding program
aa1-IsReserved = record { reserved = refl; within = omega arith; owns = refl; cached = refl }

lru_insert_evict-IsReserved_example :
    (r : EvictRun index) × (lru_insert_evict index 10 (text "bb2") 6 sha1 reserved ≡ some r)
    × IsReserved index repo (text "aa1") mount (record { size = 6; algorithm = sha1 }) r.state
lru_insert_evict-IsReserved_example =
    lru_insert_evict-IsReserved index repo (text "aa1") mount
      (record { size = 6; algorithm = sha1 }) (omega arith) 10 (text "bb2") 6 sha1 reserved
      aa1-IsReserved

lru_insert_evict-Tracks_example :
    (r : EvictRun index) × (lru_insert_evict index 10 (text "bb2") 6 sha1 one ≡ some r)
    × Tracks
        (index.iter (lru_insert index (text "bb2") 6 sha1 one).entries)
        (index.iter r.state.entries)
        r.evicted
lru_insert_evict-Tracks_example = lru_insert_evict-Tracks index 10 (text "bb2") 6 sha1 one

-- One explicit and two default mounts.
abbrev three : Reservations
three =
    (repo, mount)
    ∷ (record repo { repo = text "s" }, record mount { is_explicit_override = false })
    ∷ (record repo { repo = text "t" }, record mount { is_explicit_override = false })
    ∷ []

three_fits : explicit_sum three ≤ 20
unfolding program
three_fits = omega arith

reserved_sum-rebalance-le_example : reserved_sum (rebalance_default_reservations 20 three) ≤ 20
reserved_sum-rebalance-le_example = reserved_sum-rebalance-le 20 three (omega arith) three_fits

reserved_mount : lookup repo reserved.reservations ≡ some mount
unfolding program
reserved_mount = refl

reserved_room : refcount_of (lookup repo reserved.reservations) + 1 < 2 ^ 32
unfolding program
reserved_room = omega arith

one_unreserved : lookup repo one.reservations ≡ none
unfolding program
one_unreserved = refl
