-- ===== src/Store/MirrorTests.antt =====
-- A store that is started again on what an earlier run has left, at a concrete run.
use dagstore.Shared.{ℕ, ◌≡◌, refl, true, none, some, lookup, insert}
use dagstore.Error.{ok}
use dagstore.ShardKey.{key_eq}
use dagstore.Index.Memory.{get_full_index, add_full_index, stat_full_index, index_size}
use dagstore.Index.Inverted.{add_multihashes_for_shard}
use dagstore.Mount.Upgrader.{upgrade, transient_path}
use dagstore.Mount.Registry.{represent}
use dagstore.Store.Async.{
  acquire_fetched, acquire_indexed, initialize_fetched, initialize_added, invert,
}
use dagstore.Store.Persist.{persist, marshal}
use dagstore.Store.Control.{
  on_make_available, trigger, acquirers, on_acquire, on_register, on_initialize, handle,
}
use dagstore.Store.Start.{
  Config, do_not_recover, recover_now, new_dag_store, start, restore_state, reset_all,
}
use dagstore.Store.System.Defs.{System}
use dagstore.Store.System.Calls.{register_shard, acquire_shard}
use dagstore.Store.System.Loop.{process, settle, control_step}
use dagstore.Store.System.Steps.{
  run, step, on_sends, on_fetches, on_generates, on_adds, on_indexes, deliver,
}
use dagstore.Store.Properties.Mirrored.Runs.{lasts, all_last}
use dagstore.Store.Properties.Mirrored.Reset.{IsRestartedAt}
use dagstore.Store.Properties.Mirrored.Restarted.{start_recovers}
use dagstore.Store.Example.{fresh_store, no_file, example, config, a_key}
use dagstore.Store.RestartTests.{host_registry-IsPaired, reads_peer}
use dagstore.Store.Tests.{
  to_accessor, served, in_use, fresh_store-made, run-to_accessor, served_shard,
}

to_accessor_lasts : all_last to_accessor (start 1 do_not_recover no_file fresh_store) ≡ true
unfolding run start step control_step register_shard acquire_shard lookup insert upgrade process
    settle handle on_register on_initialize on_make_available on_acquire trigger acquirers
    stat_full_index add_full_index get_full_index index_size invert add_multihashes_for_shard
    on_sends on_fetches on_generates on_adds on_indexes acquire_fetched acquire_indexed
    initialize_fetched initialize_added deliver persist marshal represent restore_state reset_all
    transient_path lasts all_last
to_accessor_lasts = refl

-- The second life.
abbrev next_config : Config example
next_config = record config { datastore = served.store }

abbrev next_store : System example
next_store = record fresh_store { store = served.store }

next_store-made : new_dag_store none next_config ≡ ok next_store
unfolding new_dag_store
next_store-made = refl

start_recovers_example :
    (r : ℕ) × (lookup a_key (start 1 recover_now no_file next_store).shards ≡ some r)
    × IsRestartedAt in_use (start 1 recover_now no_file next_store).heap r
start_recovers_example =
    start_recovers none none config next_config fresh_store served next_store 1 1 do_not_recover
      recover_now no_file no_file to_accessor 0 in_use fresh_store-made refl to_accessor_lasts
      run-to_accessor served_shard (λ e. cc) host_registry-IsPaired (λ template scheme same. refl)
      (reads_peer in_use refl) next_store-made refl refl
