-- ===== src/Store/RoundTests.antt =====
-- Rounds of the event loop on internal tasks, at concrete inputs.
use dagstore.Shared.{
  ◌≡◌, refl, true, false, Option, none, some, List, [], ◌∷◌, length, arith, lookup, insert,
}
use dagstore.Error.{ok}
use dagstore.Mount.Upgrader.{upgrade, transient_path}
use dagstore.Mount.Registry.{represent}
use dagstore.Store.Persist.{persist, marshal}
use dagstore.Store.Control.{on_register, handle}
use dagstore.Store.Start.{do_not_recover, new_dag_store, start, restore_state, reset_all}
use dagstore.Store.System.Defs.{System}
use dagstore.Store.System.Calls.{register_shard}
use dagstore.Store.System.Loop.{Answers, process, settle, control_step}
use dagstore.Store.System.Steps.{Event, registers, controls, sends, run, step, on_sends}
use dagstore.Store.Properties.Draining.{drain, internal_drains}
use dagstore.Store.Example.{quiet_world, fresh_store, no_file, example, config, a_key}

store_made : new_dag_store none config ≡ ok fresh_store
unfolding new_dag_store
store_made = refl

-- A registration that has its first round: an initialization is queued.
abbrev to_initialization : List (Event example)
to_initialization =
    registers 1 a_key "peer" (some 5)
      (record { existing_transient = ""; lazy_initialization = false }) (λ path. false)
    ∷ sends 1
    ∷ controls quiet_world true
    ∷ []

abbrev from_some : {A : Type 0} → Option A → A → A
from_some none a = a
from_some (some b) a = b

abbrev queued : System example
queued = from_some (run to_initialization (start 1 do_not_recover no_file fresh_store)) fresh_store

test_queued : length queued.internal_ch ≡ 1
unfolding run start step control_step register_shard lookup insert upgrade process settle handle
    on_register on_sends persist marshal represent restore_state reset_all transient_path
test_queued = refl

run-to_initialization :
    run to_initialization (start 1 do_not_recover no_file fresh_store) ≡ some queued
unfolding run start step control_step register_shard lookup insert upgrade process settle handle
    on_register on_sends persist marshal represent restore_state reset_all transient_path
run-to_initialization = refl

abbrev quiet_rounds : List Answers
quiet_rounds = quiet_world ∷ quiet_world ∷ quiet_world ∷ []

internal_drains_example :
    (d : System example) × (drain quiet_rounds queued ≡ some d) × (d.internal_ch ≡ [])
internal_drains_example =
    internal_drains none config fresh_store store_made 1 do_not_recover no_file to_initialization
      queued quiet_rounds (omega arith) run-to_initialization (omega arith)
