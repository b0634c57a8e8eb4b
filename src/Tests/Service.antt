-- ===== src/Tests/Service.antt =====
-- The service: a run of requests, and the theorems at inputs that meet their hypotheses.
use ctxfs.Common.{
  ℕ, ◌+◌, ◌^◌, ◌<◌, ◌≡◌, refl, true, none, some, Result, ok, err, List, [], ◌∷◌, Text, text,
  text_key, Text-discrete, arith, Option-cases, inl, inr,
}
use ctxfs.Common.Assoc.{lookup, remove}
use ctxfs.Common.Word.{add64}
use ctxfs.Core.Backend.{nfs}
use ctxfs.Core.Config.{Config}
use ctxfs.Core.Digest.{sha1, Digest, to_path}
use ctxfs.Core.Error.{CtxfsError, cache}
use ctxfs.Core.Source.{
  SourceSpec, provider_of, split_once, rsplit_once, split_subpath, github_spec, parse_github,
  parse_as, parse, github, id_of, provider_name, replace,
}
use ctxfs.Cache.State.{RepoKey, repo_key}
use ctxfs.Cache.Evict.{lru_insert, lru_insert_evict, evict_loop, total_without}
use ctxfs.Cache.Reserve.{register_mount}
use ctxfs.Cache.Reserve.Counts.{Counts}
use ctxfs.Cache.Blob.{Os, written, BlobCache, blob_path, put, track, remove_files}
use ctxfs.Cache.Blob.Reserved.{reservations-put}
use ctxfs.Cache.Resolution.{ResolutionJson}
use ctxfs.Daemon.Live.{live}
use ctxfs.Daemon.MountState.{Json}
use ctxfs.Daemon.Resolve.{
  is_github, github_coordinates, github_source_of, fetch_options_of, coordinates, repo_key_of,
}
use ctxfs.Daemon.Server.{
  register, ResolvedSource, MountOptions, MountInfo, ready, MountPrep, Server, Outside,
}
use ctxfs.Daemon.Mount.{
  after_fetch, fetch_registered, prepare_resolved, prepare_mount, start_nfs, nfs_info, started_nfs,
  nfs_prepared, do_mount_nfs, do_mount,
}
use ctxfs.Daemon.Mount.Prepared.{reservation}
use ctxfs.Daemon.Unmount.{not_mounted, do_unmount_by_id, mount_status, ids_of}
use ctxfs.Daemon.Requests.{Request, to_mount, to_unmount, run, losses}
use ctxfs.Daemon.Requests.Runs.{IsIdle, run-Counts}
use ctxfs.Daemon.Requests.Ends.{end_each, end_each-ends}
use ctxfs.Daemon.Requests.Started.{mount_status-do_mount, do_mount_nfs-leaks}
use ctxfs.Git.Prefetch.{FetchOptions}
use ctxfs.Manifest.Snapshot.{Snapshot}
use ctxfs.Provider.Fetcher.{disabled}
use ctxfs.Tests.Eviction.{index, empty, repo}

abbrev config : Config
config = record {
  socket_path = text "s";
  pid_file = text "p";
  cache_dir = text "c";
  cache_max_bytes = 10;
  log_level = text "info";
  github_token = none;
  redis_url = none;
  latest_ttl_secs = 9;
  tree_cache_max_bytes = 9;
  default_backend = none;
  fskit_bundle_id = none;
  prefetch_threshold_count = 1;
  prefetch_max_bytes = 2;
  github_host = text "gh";
}

abbrev snapshot : Snapshot
snapshot = record {
  source = text "github:o/r@v";
  commit_sha = text "c0";
  root_directory = record { algorithm = sha1; hex = text "d0" };
  created_at = text "t";
}

abbrev json : Json
json = record { to_vec = λ e. some []; from_slice = λ b. some [] }

abbrev resolution_json : ResolutionJson ResolvedSource
resolution_json = record { to_vec = λ e. some []; from_slice = λ b. some [] }

abbrev os : Os
os = record { readable = λ p. true; removable = λ p. true }

abbrev blob : Digest
blob = record { algorithm = sha1; hex = text "aa1" }

-- A fetch that finds one small blob, and puts it into the cache.
fetch :
    SourceSpec
    → FetchOptions
    → BlobCache index
    → Result (List ℕ × List Text) CtxfsError × BlobCache index
fetch source options c = elim (put index os written c blob (text "sixsix")) [
  | none ↦ (err (cache (text "panic")), c)
  | some (r, c') ↦ (ok (1 ∷ [], text "aa1" ∷ []), c')
]

fetch-reservations :
    (source : SourceSpec) (options : FetchOptions) (c : BlobCache index)
    → (fetch source options c).1.state.reservations ≡ c.state.reservations
unfolding fetch
fetch-reservations source options c =
    elim (Option-cases (put index os written c blob (text "sixsix"))) [
      | inl out ↦ ground arith
      | inr ((r, c'), done) ↦
          let same = reservations-put index os c c' blob r written (text "sixsix") done in
          ground arith
    ]

-- What the outside does where the port of the NFS server is given.
abbrev outside : Result ℕ Text → Outside index
outside port = record {
  now = 5;
  time_text = text "now";
  resolution_json = resolution_json;
  resolution_disk = true;
  resolve_latest = λ p n. ok n;
  resolve = λ p n v. ok (record { owner = n; repo = n; git_ref = v; subpath = none });
  fetch = fetch;
  fetch-reservations = fetch-reservations;
  from_slice = λ b. ok snapshot;
  create_dir_all = λ p. none;
  pick_free_port = port;
  new_vfs = λ s p. none;
  spawn = λ p. none;
  start_fskit = λ s n p b. err (text "none");
  mount_json = json;
  mount_disk = none;
}

abbrev options : MountOptions
options = record { prefetch = disabled; cache_reservation_bytes = none }

abbrev server : Server index
server = record {
  cache = record {
    root = text "/c" ∷ [];
    max_bytes = 10;
    state = empty;
    eviction_blocked_total = 0;
    files = [];
  };
  resolutions = record { entries = []; latest_ttl_secs = 9; file = none };
  mounts = [];
  mount_file = none;
}

server-IsIdle : IsIdle index config server
server-IsIdle = (refl, refl)

abbrev source : Text
source = text "github:o/r@v"

abbrev spec : SourceSpec
spec = record { provider_type = github; name = text "o/r"; version = text "v"; subpath = none }

abbrev prep : MountPrep
prep = record {
  source_spec = spec;
  github_source = spec;
  snapshot = snapshot;
  subpath = none;
  repo_key = repo;
}

abbrev info : MountInfo
info = record {
  id = text "github_o_r_v";
  source = source;
  mount_point = text "/m";
  commit_sha = text "c0";
  status = ready;
  mounted_at = text "now";
  nfs_port = some 7;
  backend = nfs;
  volume_path = none;
  symlink_paths = [];
}

program : Unit {0}
unfolding provider_of split_once rsplit_once split_subpath github_spec parse_github parse_as parse
    is_github github_coordinates github_source_of fetch_options_of coordinates repo_key_of
    after_fetch fetch_registered prepare_resolved prepare_mount Text-discrete fetch start_nfs
    started_nfs nfs_prepared do_mount_nfs do_mount nfs_info id_of provider_name replace put
    blob_path to_path track lru_insert_evict evict_loop lru_insert remove register register_mount
    add64 total_without lookup remove_files
program = tt

prepared : (prepare_mount index config (outside (ok 7)) source options server).0 ≡ ok prep
unfolding program
prepared = refl

prepared_again :
    (prepare_mount index config (outside (err (text "full"))) source options server).0 ≡ ok prep
unfolding program
prepared_again = refl

full : start_nfs index config (outside (err (text "full"))) (text "/m") prep ≡ err (text "full")
unfolding start_nfs
full = refl

mounted : (do_mount index config (outside (ok 7)) source (text "/m") nfs options server).0 ≡ ok info
unfolding program
mounted = refl

mount_status-do_mount_example :
    let s' = (do_mount index config (outside (ok 7)) source (text "/m") nfs options server).1 in
    (mount_status index json none (text "github_o_r_v") s' ≡ ok info)
    × (mount_status index json none
          (text "github_o_r_v")
          (do_unmount_by_id index json none (text "github_o_r_v") s').1
        ≡ err (not_mounted (text "github_o_r_v")))
mount_status-do_mount_example =
    mount_status-do_mount index config (outside (ok 7)) json none source (text "/m") nfs options
      server info mounted

do_mount_nfs-leaks_example :
    let r =
      do_mount_nfs index config (outside (err (text "full"))) source (text "/m") options server in
    (r.0 ≡ err (text "full"))
    × (r.1.mounts ≡ [])
    × ((n : ℕ)
        → n + 1 < 2 ^ 32
        → Counts (reservation index repo server) n
        → Counts (reservation index repo r.1) (n + 1))
do_mount_nfs-leaks_example =
    do_mount_nfs-leaks index config (outside (err (text "full"))) source (text "/m") options server
      prep (text "full") prepared_again full

-- A mount that does not start, one that does, and its end.
abbrev requests : List (Request index)
requests =
    to_mount (outside (err (text "full"))) source (text "/m") nfs options
    ∷ to_mount (outside (ok 7)) source (text "/m") nfs options
    ∷ to_unmount json none (text "/m")
    ∷ []

run-Counts_example :
    let s' = run index config requests server in
    Counts
      (reservation index repo s')
      (live repo s'.mounts + losses index config repo requests server)
run-Counts_example = run-Counts index config requests server repo server-IsIdle (omega arith)

end_each-ends_example :
    let s' = run index config requests server in
    let ended = run index config (end_each index config json none (ids_of s'.mounts)) s' in
    (ended.mounts ≡ [])
    × ((k : RepoKey) → losses index config k requests server ≡ 0 → reservation index k ended ≡ none)
end_each-ends_example =
    end_each-ends index config json none requests server server-IsIdle (omega arith)
