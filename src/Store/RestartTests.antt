-- ===== src/Store/RestartTests.antt =====
-- What is kept across a restart, at concrete inputs.
use dagstore.Shared.{
  arith, get_elem?, true, Option, List, String, string_eq, ◌≡◌, refl, false, none, some, [], ◌∷◌,
  lookup, insert,
}
use mathlib.Core.Path.{subst}
use dagstore.Error.{
  Error, ok, err, external, message, state_not_restored, state_not_recovered, not_a_directory,
}
use dagstore.ShardKey.{key_eq}
use dagstore.ShardState.{errored}
use dagstore.Throttle.{noop}
use dagstore.Mount.Registry.{new_registry, represent, instantiate}
use dagstore.Mount.Registry
use dagstore.Mount.Registry.Laws.{
  IsPaired, new_registry-IsPaired, register-IsPaired, instantiate-represent,
}
use dagstore.Mount.Interface.{Url}
use dagstore.Store.Types.{Shard, PersistedShard}
use dagstore.Store.Persist.{marshal, unmarshal, error_text}
use dagstore.Store.System.Orphans.{referenced, DirEntry, is_referenced, files_at}
use dagstore.Store.Start.{
  do_not_recover, ensure_dir, restore_state, reset_all, start, start_with_files,
}
use dagstore.Store.Properties.Cleared.{start_clears}
use dagstore.Mount.Upgrader.{upgrade, transient_path}
use dagstore.Store.System.Defs.{System}
use dagstore.Store.Properties.Persistence.{ReadsUrl, unmarshal-marshal}
use dagstore.Store.Example.{
  broken, fresh_store, datastore_key, example, host_mount, host_registry, no_file, a_key,
}

pub host_registry-IsPaired : IsPaired host_mount host_registry
unfolding Registry.register new_registry lookup insert
host_registry-IsPaired =
    register-IsPaired host_mount "host" "" new_registry (new_registry-IsPaired host_mount)

abbrev host_url : Url
host_url = record { scheme = "host"; host = "peer"; raw_query = "" }

represent-peer : represent host_mount "peer" host_registry ≡ ok host_url
unfolding represent lookup
represent-peer = refl

instantiate-represent_example : instantiate host_mount host_url host_registry ≡ ok "peer"
instantiate-represent_example =
    instantiate-represent host_mount "peer" host_registry host_url host_registry-IsPaired
      (λ template scheme same. refl) represent-peer

register-IsPaired_example :
    IsPaired host_mount (Registry.register host_mount "host" "" new_registry).0
register-IsPaired_example =
    register-IsPaired host_mount "host" "" new_registry (new_registry-IsPaired host_mount)

abbrev record_of_broken : PersistedShard
record_of_broken = record {
  key = "a";
  url = "host://peer";
  transient_path = "";
  state = errored;
  lazy = false;
  error = "io";
}

marshal-broken : marshal {X = example} host_registry broken ≡ ok record_of_broken
unfolding marshal represent lookup message
marshal-broken = refl

-- The URL of a shard on the host is read back.
pub reads_peer : (s : Shard example) → s.mount.underlying ≡ "peer" → ReadsUrl host_registry s
reads_peer s h u e =
    let same : host_url ≡ u = ground (arith, represent-peer) in
    subst (λ v. example.parse_url (host_mount.url_text v) ≡ ok v) same refl

unmarshal-marshal_example :
    (s' : Shard example) × (unmarshal {X = example} host_registry noop "/transients" no_file
        record_of_broken
      ≡ ok s')
    × (s'.key ≡ a_key)
    × (s'.state ≡ errored)
    × (s'.lazy ≡ false)
    × (s'.mount.underlying ≡ "peer")
    × (error_text (message example.decimal) s'.err
        ≡ error_text (message example.decimal) (some (external "io")))
    × (s'.w_acquire ≡ [])
    × (s'.refs ≡ 0)
unmarshal-marshal_example =
    unmarshal-marshal {X = example} host_registry host_registry-IsPaired noop "/transients" no_file
      broken record_of_broken (λ template scheme same. refl) refl (reads_peer broken refl)
      marshal-broken

-- Two files; a shard tracks the second.
abbrev two_files : List DirEntry
two_files =
    record { path = "/transients/old"; is_dir = false }
    ∷ record { path = "/transients/a"; is_dir = false }
    ∷ []

abbrev removable : String → Option Error
removable path = none

-- A record whose transient is the second.
abbrev recorded : System example
recorded = record fresh_store {
  store = (datastore_key "a", record record_of_broken { transient_path = "/transients/a" }) ∷ [];
}

abbrev outcome_of : Option Error → (System example × List DirEntry) × Option Error
outcome_of query =
    start_with_files query removable 1 do_not_recover (λ path. true) (recorded, two_files)

abbrev tracking : Shard example
tracking = record broken {
  mount = record (broken.mount) { path = "/transients/a"; ready = true };
  refs = 0;
}

catalogue_of_one : get_elem? (outcome_of none).0.0.shards 0 ≡ some (a_key, 0)
unfolding start_with_files start restore_state unmarshal instantiate lookup insert upgrade
catalogue_of_one = refl

heap_of_one : get_elem? (outcome_of none).0.0.heap 0 ≡ some tracking
unfolding start_with_files start restore_state reset_all unmarshal instantiate lookup insert upgrade
heap_of_one = refl

old_is_untracked :
    is_referenced "/transients/old"
      (referenced (outcome_of none).0.0.heap (outcome_of none).0.0.shards)
    ≡ false
unfolding start_with_files start restore_state reset_all unmarshal instantiate lookup insert upgrade
    referenced is_referenced transient_path
old_is_untracked = refl

start_clears_example :
    (outcome_of (some (external "io"))
      ≡ ((recorded, two_files), some (state_not_restored (state_not_recovered (external "io")))))
    × ((outcome_of none).1 ≡ none)
    × (files_at "/transients/a" (outcome_of none).0.1 ≡ 1)
    × (files_at "/transients/old" (outcome_of none).0.1 ≡ 0)
start_clears_example =
    start_clears {X = example} removable 1 do_not_recover (λ path. true) recorded two_files
      (external "io") 0 a_key 0 tracking "/transients/old" catalogue_of_one heap_of_one
      old_is_untracked

test_ensure_dir :
    (ensure_dir "/transients" (ok true) none ≡ none)
    × (ensure_dir "/transients" (ok false) none ≡ some (not_a_directory "/transients"))
    × (ensure_dir "/transients" (err (external "absent")) (some (external "full"))
        ≡ some (external "full"))
unfolding ensure_dir
test_ensure_dir = (refl, refl, refl)
