-- ===== src/Store/Tests.antt =====
-- Runs and applications of the model at concrete inputs.
use dagstore.Shared.{
  ◌+◌, ℕ, ◌≡◌, ◌≤◌, refl, Bool, true, false, Option, none, some, List, [], ◌∷◌, length, get_elem?,
  arith, lookup, insert, total,
}
use dagstore.Error.{ok, active_references}
use dagstore.Index.Memory.{get_full_index, add_full_index, stat_full_index, index_size}
use dagstore.Index.Inverted.{add_multihashes_for_shard}
use dagstore.Mount.Upgrader.{upgrade}
use dagstore.ShardState.{available, serving}
use dagstore.Store.Types.{Accessor, Shard, register, acquire, destroy}
use dagstore.Store.Turn.{dispatch_result, failed_with}
use dagstore.Store.Async.{
  acquire_fetched, acquire_indexed, initialize_fetched, initialize_added, invert,
}
use dagstore.Store.Persist.{persist, marshal}
use dagstore.Mount.Registry.{represent}
use dagstore.Mount.Upgrader.{transient_path}
use dagstore.Store.Control.{
  on_make_available, trigger, acquirers, on_acquire, on_destroy, on_register, on_initialize, handle,
}
use dagstore.Store.Start.{do_not_recover, new_dag_store, start, restore_state, reset_all}
use dagstore.Store.System.Defs.{System}
use dagstore.Store.System.Calls.{register_shard, acquire_shard}
use dagstore.Store.System.Loop.{process, settle, control_step}
use dagstore.Store.System.Steps.{
  Event, registers, acquires, controls, sends, fetches, generates, adds, indexes, delivers, run,
  step, on_sends, on_fetches, on_generates, on_adds, on_indexes, deliver,
}
use dagstore.Store.Soundness.Measure.{holders, refs_at}
use dagstore.Store.Properties.Safety.{run_safe, open_accessor_protects}
use dagstore.Store.Properties.Transitions.{Changes, handle-Changes}
use dagstore.Store.Properties.Deliveries.{due, asked, deliveries}
use dagstore.Store.Properties.Deliveries.Started.{answered_as_asked}
use dagstore.Store.Properties.Answers.{left, parked, brought, handle_owed}
use dagstore.Store.Example.{
  quiet_world, fresh_store, no_file, example, config, a_key, waiter, task, shard,
}

pub fresh_store-made : new_dag_store none config ≡ ok fresh_store
unfolding new_dag_store
fresh_store-made = refl

-- A shard is registered and initialized, and an accessor of it is handed out.
abbrev pub to_accessor : List (Event example)
to_accessor =
    registers 1 a_key "peer" (some 5)
      (record { existing_transient = ""; lazy_initialization = false }) (λ path. false)
    ∷ sends 1
    ∷ controls quiet_world true
    ∷ controls quiet_world true
    ∷ generates 2 (record { path = "/transients/a"; ready = true }) (ok "data") (ok ("mh" ∷ []))
    ∷ adds 2
    ∷ sends 2
    ∷ controls quiet_world false
    ∷ delivers false
    ∷ acquires 1 a_key (some 6)
    ∷ sends 3
    ∷ controls quiet_world true
    ∷ fetches 4 (record { path = "/transients/a"; ready = true }) (ok "data") none
    ∷ indexes 4 none
    ∷ sends 4
    ∷ delivers false
    ∷ []

abbrev from_some : {A : Type 0} → Option A → A → A
from_some none a = a
from_some (some b) a = b

abbrev is_some : {A : Type 0} → Option A → Bool
is_some none = false
is_some (some b) = true

abbrev pub served : System example
served = from_some (run to_accessor (start 1 do_not_recover no_file fresh_store)) fresh_store

test_accessor : length served.accessors ≡ 1
unfolding run start step control_step register_shard acquire_shard lookup insert upgrade process
    settle handle on_register on_initialize on_make_available on_acquire trigger acquirers
    stat_full_index add_full_index get_full_index index_size invert add_multihashes_for_shard
    on_sends on_fetches on_generates on_adds on_indexes acquire_fetched acquire_indexed
    initialize_fetched initialize_added deliver persist marshal represent restore_state reset_all
    transient_path
test_accessor = refl

run_safe_example :
    (d : System example) × (run to_accessor (start 1 do_not_recover no_file fresh_store) ≡ some d)
    × ((n : ℕ) → holders n d ≤ refs_at n d.heap)
    × (length d.internal_ch ≤ 1)
run_safe_example =
    run_safe none config fresh_store fresh_store-made 1 do_not_recover no_file to_accessor
      (omega arith)

abbrev open_accessor : Accessor example
open_accessor = record { reader = "data"; idx = "mh" ∷ []; shard = 0 }

abbrev pub in_use : Shard example
in_use = record shard {
  state = serving;
  refs = 1;
  mount = record (shard.mount) { path = "/transients/a"; ready = true };
}

is_some-from_some :
    {A : Type 0} (o : Option A) (a : A) → is_some o ≡ true → o ≡ some (from_some o a)
is_some-from_some none a h = cc
is_some-from_some (some b) a h = refl

runs_to_accessor : is_some (run to_accessor (start 1 do_not_recover no_file fresh_store)) ≡ true
unfolding run start step control_step register_shard acquire_shard lookup insert upgrade process
    settle handle on_register on_initialize on_make_available on_acquire trigger acquirers
    stat_full_index add_full_index get_full_index index_size invert add_multihashes_for_shard
    on_sends on_fetches on_generates on_adds on_indexes acquire_fetched acquire_indexed
    initialize_fetched initialize_added deliver persist marshal represent restore_state reset_all
    transient_path
runs_to_accessor = refl

pub run-to_accessor : run to_accessor (start 1 do_not_recover no_file fresh_store) ≡ some served
run-to_accessor =
    is_some-from_some (run to_accessor (start 1 do_not_recover no_file fresh_store)) fresh_store
      runs_to_accessor

served_accessor : get_elem? served.accessors 0 ≡ some open_accessor
unfolding run start step control_step register_shard acquire_shard lookup insert upgrade process
    settle handle on_register on_initialize on_make_available on_acquire trigger acquirers
    stat_full_index add_full_index get_full_index index_size invert add_multihashes_for_shard
    on_sends on_fetches on_generates on_adds on_indexes acquire_fetched acquire_indexed
    initialize_fetched initialize_added deliver persist marshal represent restore_state reset_all
    transient_path
served_accessor = refl

pub served_shard : get_elem? served.heap 0 ≡ some in_use
unfolding run start step control_step register_shard acquire_shard lookup insert upgrade process
    settle handle on_register on_initialize on_make_available on_acquire trigger acquirers
    stat_full_index add_full_index get_full_index index_size invert add_multihashes_for_shard
    on_sends on_fetches on_generates on_adds on_indexes acquire_fetched acquire_indexed
    initialize_fetched initialize_added deliver persist marshal represent restore_state reset_all
    transient_path
served_shard = refl

open_accessor_protects_example :
    let t = on_destroy waiter (task destroy) in_use served.indices in
    (t.removed ≡ false)
    × (t.shard ≡ in_use)
    × (t.results ≡ dispatch_result (failed_with in_use (active_references 1)) (waiter ∷ []))
open_accessor_protects_example =
    open_accessor_protects none config fresh_store fresh_store-made 1 do_not_recover no_file
      to_accessor served 0 open_accessor in_use waiter (task destroy) (omega arith) run-to_accessor
      served_accessor served_shard

abbrev idle : Shard example
idle = record shard { state = available }

handle-acquire :
    handle none none (task acquire) idle [] ≡ some (on_acquire waiter (task acquire) idle [])
unfolding handle
handle-acquire = refl

handle-Changes_example :
    Changes acquire available (on_acquire waiter (task acquire) idle []).shard.state
handle-Changes_example =
    handle-Changes none none (task acquire) idle [] (on_acquire waiter (task acquire) idle [])
      handle-acquire

handle-register :
    handle none none (task register) shard [] ≡ some (on_register (task register) shard [])
unfolding handle
handle-register = refl

abbrev each : ℕ → ℕ
each channel = 1

handle_owed_example :
    left each (on_register (task register) shard [])
    ≡ parked each shard + brought each register (some waiter)
handle_owed_example =
    handle_owed each (task register) shard [] none none (on_register (task register) shard [])
      (λ e. (refl, refl)) (λ e. refl) handle-register

answered_as_asked_example :
    deliveries each to_accessor (start 1 do_not_recover no_file fresh_store) + due each served
    ≤ total (asked each) to_accessor
answered_as_asked_example =
    answered_as_asked each none config fresh_store fresh_store-made 1 do_not_recover no_file
      to_accessor served run-to_accessor
