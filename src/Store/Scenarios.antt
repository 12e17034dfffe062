-- ===== src/Store/Scenarios.antt =====
-- Runs of a few rounds of the event loop on one shard.
use dagstore.Shared.{
  string_eq, ◌≡◌, ◌≢◌, refl, true, false, none, some, [], ◌∷◌, get_elem?, lookup, arith,
}
use dagstore.Error.{initialization_failed, external}
use dagstore.ShardKey.{key_eq}
use dagstore.ShardState.{new, initializing, available, serving, recovering, errored}
use dagstore.Store.Types.{
  background, Task, Shard, register, initialize, make_available, destroy, acquire, fail, release,
  recover,
}
use dagstore.Store.Turn.{acquire_async, initialize_shard, Turn, quiet}
use dagstore.Index.Memory.{stat_full_index}
use dagstore.Store.Control.{
  on_register, on_initialize, on_make_available, on_acquire, on_release, on_fail, on_recover,
  on_destroy,
}
use dagstore.Store.Start.{do_not_recover, recover_now, reset}
use dagstore.Store.System.Defs.{System}
use dagstore.Store.System.Gc.{GcAnswers, gc, reclaimable}
use dagstore.Store.Properties.Collection.{gc_sweeps}
use dagstore.Mount.Upgrader.{delete_transient}
use dagstore.Store.Properties.Restart.{reset_accepted}
use dagstore.Store.System.Loop.{process}
use dagstore.Store.Properties.Faults.{
  release_lost_in_recovery, errored_serves_again, recovering_stuck, acquire_overtakes_register,
}
use dagstore.Store.Properties.Destruction.{refused_destroy_forgets, stale_destroy_unregisters}
use dagstore.Store.Example.{
  broken, store_of, example, datastore_key, quiet_world, a_key, waiter, task, shard,
}

release_lost_in_recovery_example :
    let t₁ = on_recover none waiter (task recover) broken [] in
    let t₂ = on_release (task release) t₁.shard t₁.indices in
    let t₃ = on_make_available (task make_available) t₂.shard t₂.indices in
    (t₃.shard.state ≡ available)
    × (t₃.shard.refs ≡ 1)
    × (reclaimable t₃.shard ≡ true)
    × ((on_destroy waiter (task destroy) t₃.shard t₃.indices).removed ≡ false)
release_lost_in_recovery_example =
    release_lost_in_recovery none waiter waiter (task recover) (task release) (task make_available)
      (task destroy) broken [] 0 refl refl refl

errored_serves_again_example :
    let t₁ = on_release (task release) broken [] in
    let t₂ = on_acquire waiter (task acquire) t₁.shard t₁.indices in
    (t₁.shard.state ≡ available)
    × (t₁.shard.err ≡ some (external "io"))
    × (t₂.results ≡ [])
    × (t₂.spawned ≡ acquire_async waiter 0 ∷ [])
errored_serves_again_example =
    errored_serves_again (task release) (task acquire) waiter broken [] (external "io") refl refl
      refl

abbrev in_recovery : Shard example
in_recovery = record shard { state = recovering }

recovering_stuck_example :
    let (s', op) = reset do_not_recover false recovering in_recovery in
    let t₁ = on_acquire waiter (task acquire) s' [] in
    let t₂ = on_recover none waiter (task recover) t₁.shard t₁.indices in
    (op ≡ none)
    × (t₁.shard.w_acquire ≡ waiter ∷ [])
    × (t₁.staged ≡ [])
    × (t₁.spawned ≡ [])
    × (t₁.results ≡ [])
    × (t₂.staged ≡ [])
    × (t₂.spawned ≡ [])
    × (t₂.shard ≡ t₁.shard)
    × (t₂.shard.state ≡ recovering)
recovering_stuck_example =
    recovering_stuck do_not_recover false none waiter waiter (task acquire) (task recover)
      in_recovery [] refl

-- The acquisition's task and the registration's, and what they put on `internalCh`.
abbrev initialize_task : Task
initialize_task = record {
  waiter = some (record waiter { ctx = background });
  op = initialize;
  shard = 0;
  err = none;
}

abbrev fail_task : Task
fail_task = record {
  waiter = none;
  op = fail;
  shard = 0;
  err = some (initialization_failed initializing);
}

abbrev overtaking : Turn example
unfolding on_acquire
overtaking = on_acquire waiter (task acquire) shard []

abbrev initialized : Turn example
initialized = record (quiet (record (overtaking.shard) { state = initializing }) []) {
  spawned = initialize_shard background 0 ∷ [];
}

acquire_overtakes_register_example :
    let t₃ = on_register (task register) initialized.shard [] in
    (initialize_task.op ≡ initialize)
    × (fail_task.op ≡ fail)
    × (fail_task.err ≡ some (initialization_failed initializing))
    × (t₃.results ≡ [])
    × (t₃.shard.w_register ≡ none)
    × ((on_fail none fail_task t₃.shard t₃.indices).shard.state ≡ errored)
unfolding on_acquire on_initialize on_register stat_full_index lookup
acquire_overtakes_register_example =
    acquire_overtakes_register none waiter waiter (task acquire) (task register) shard []
      initialized refl refl refl initialize_task refl refl fail_task refl

abbrev busy : Shard example
busy = record shard { state = available; refs = 1 }

refused_destroy_forgets_example :
    (d : System example) × (process quiet_world (task destroy) (store_of busy) ≡ some d)
    × (get_elem? d.heap 0 ≡ some busy)
    × (d.shards ≡ (a_key, 0) ∷ [])
    × (lookup (datastore_key "a") d.store ≡ none)
refused_destroy_forgets_example =
    refused_destroy_forgets quiet_world (task destroy) (store_of busy) busy waiter refl refl refl
      (omega arith) refl

-- The catalogue names the second shard under the key of the first.
abbrev registered_again : System example
registered_again = record (store_of shard) { shards = (a_key, 1) ∷ [] }

lookup-registered_again : lookup a_key registered_again.shards ≡ some 1
unfolding lookup
lookup-registered_again = refl

stale_destroy_unregisters_example :
    (d : System example) × (process quiet_world (task destroy) registered_again ≡ some d)
    × (lookup a_key d.shards ≡ none)
stale_destroy_unregisters_example =
    stale_destroy_unregisters quiet_world (task destroy) registered_again shard waiter refl refl
      refl 1 lookup-registered_again (omega arith) (λ e. cc) refl

abbrev kept : GcAnswers
kept = record { removed = λ n. none; put_failed = λ n. false }

abbrev with_file : Shard example
with_file = record broken { mount = record (broken.mount) { path = "/transients/a"; ready = true } }

gc_sweeps_example :
    let d = store_of with_file in
    (get_elem? (gc kept d).0.heap 0 ≡ some broken) × ((gc kept d).0.shards ≡ (a_key, 0) ∷ [])
unfolding reclaimable delete_transient
gc_sweeps_example = gc_sweeps kept 0 (store_of with_file)

reset_accepted_example :
    let (s', op) = reset recover_now false errored broken in
    (s'.state ≢ serving)
    × (s'.state ≢ initializing)
    × (op ≡ some register → s'.state ≡ new)
    × (op ≡ some recover → s'.state ≡ errored)
    × (s'.refs ≡ 1)
    × (s'.key ≡ a_key)
reset_accepted_example = reset_accepted recover_now false broken
