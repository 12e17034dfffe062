-- ===== src/Store/ServedTests.antt =====
-- A registration and an acquisition, at concrete inputs.
use dagstore.Shared.{
  arith, inl, String, ◌≡◌, refl, true, false, none, List, [], ◌∷◌, lookup, insert,
}
use dagstore.Error.{ok, external}
use dagstore.ShardState.{available}
use dagstore.Store.Types.{Shard}
use dagstore.ShardKey.{key_eq}
use dagstore.Index.Memory.{add_full_index, stat_full_index, index_size}
use dagstore.Mount.Upgrader.{upgrade}
use dagstore.Store.Turn.{index_exists}
use dagstore.Store.System.Steps.{Transient}
use dagstore.Store.Properties.Served.{Reaches}
use dagstore.Store.Properties.Served.Refused.{IsRefused, failed_fetch_refuses}
use dagstore.Store.Properties.Served.Complete.{IsServed, register_then_acquire}
use dagstore.Store.Example.{
  quiet_world, fresh_store, no_file, example, a_key, upgraded, shard, store_of,
}
use dagstore.Store.QueryTests.{example-IsIndexing}

abbrev in_transients : Transient
in_transients = record { path = "/transients/a"; ready = true }

abbrev multihashes : List String
multihashes = "mh" ∷ []

upgrade-peer :
    upgrade example.os example.mount no_file "peer" fresh_store.throttle_ready_fetch
      fresh_store.transients_dir "a" ""
    ≡ ok upgraded
unfolding upgrade
upgrade-peer = refl

no_index_yet : index_exists (example.repo.stat_full_index fresh_store.indices a_key) ≡ false
unfolding stat_full_index lookup index_size
no_index_yet = refl

index_taken : (example.repo.add_full_index fresh_store.indices a_key multihashes).1 ≡ none
unfolding add_full_index insert index_size
index_taken = refl

register_then_acquire_example :
    Reaches
      (IsServed {X = example} quiet_world 1 5 2 6 in_transients "data" multihashes a_key fresh_store
        0)
      fresh_store
unfolding lookup
register_then_acquire_example =
    register_then_acquire {X = example} quiet_world 1 5 2 6 in_transients "data" multihashes a_key
      fresh_store "peer" "" no_file upgraded example-IsIndexing
      (record { external = refl; internal = refl; completion = refl; results = refl }) refl
      upgrade-peer no_index_yet index_taken

-- A shard that can be acquired, and whose mount fails to fetch.
abbrev idle : Shard example
idle = record shard { state = available }

failed_fetch_refuses_example :
    Reaches
      (IsRefused {X = example} quiet_world 1 5 in_transients (external "io") 0 (store_of idle) idle)
      (store_of idle)
unfolding lookup
failed_fetch_refuses_example =
    failed_fetch_refuses {X = example} quiet_world 1 5 in_transients (external "io") 0
      (store_of idle) idle a_key refl refl (inl refl) (omega arith) refl refl refl refl
