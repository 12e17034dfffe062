-- ===== src/Store/Properties/Transitions.antt =====
-- The diagram of shard states that the event loop follows.
use dagstore.Shared.{ℕ, ◌+◌, ◌≡◌, refl, Option, none, some, List, [], ◌∷◌, arith}
use mathlib.Core.Path.{subst}
use mathlib.Core.Option.{some-injective}
use dagstore.Error.{Error}
use dagstore.ShardState.{ShardState, initializing, available, serving, recovering, errored}
use dagstore.Store.Types.{
  Externals, Waiter, OpType, register, initialize, make_available, destroy, acquire, fail, release,
  recover, Task, Shard,
}
use dagstore.Store.Turn.{Turn, u32}
use dagstore.Store.Control.{
  trigger, dispatch_op, on_register, on_initialize, on_make_available, on_acquire, on_release,
  on_fail, on_recover, on_destroy, handle,
}

-- The changes of state that an operation may make.
pub data Changes : OpType → ShardState → ShardState → Type 0 where
  stays : {op : OpType} {s : ShardState} → Changes op s s
  initializes : {s : ShardState} → Changes initialize s initializing
  becomes_available : {s : ShardState} → Changes make_available s available
  serves_parked : {s : ShardState} → Changes make_available s serving
  serves : Changes acquire available serving
  falls_idle : Changes release serving available
  falls_idle_errored : Changes release errored available
  fails : {s : ShardState} → Changes fail s errored
  recovers : Changes recover errored recovering

ruleset changes = (
  stays, initializes, becomes_available, serves_parked, serves, falls_idle, falls_idle_errored,
  fails, recovers,
)

module _ {X : Externals} where
  state-trigger :
      (ws : List Waiter) (s : Shard X) → s.state ≡ serving → (trigger ws s).state ≡ serving
  unfolding trigger
  state-trigger [] s h = h
  state-trigger (w ∷ ws) s h = state-trigger ws _ refl

  trigger-Changes :
      (ws : List Waiter) (s : Shard X) (before : ShardState)
      → s.state ≡ available
      → Changes make_available before (trigger ws s).state
  trigger-Changes [] s before h = unfold trigger in rw h becomes_available
  trigger-Changes (w ∷ ws) s before h =
      unfold trigger in
      rw (state-trigger ws (record s { state = serving; refs = u32 (s.refs + 1) }) refl)
        serves_parked

  module _ (tsk : Task) (s : Shard X) (repo : X.Repo) where
    on_register-Changes : Changes register s.state (on_register tsk s repo).shard.state
    unfolding on_register
    on_register-Changes = grind (arith, changes)

    on_acquire-Changes :
        (w : Waiter) → Changes acquire s.state (on_acquire w tsk s repo).shard.state
    unfolding on_acquire
    on_acquire-Changes w = grind (arith, changes)

    on_release-Changes : Changes release s.state (on_release tsk s repo).shard.state
    unfolding on_release
    on_release-Changes = grind (arith, changes)

    on_initialize-Changes :
        (t : Turn X) → on_initialize tsk s repo ≡ some t → Changes initialize s.state t.shard.state
    unfolding on_initialize
    on_initialize-Changes t h = grind (arith, initializes)

    on_recover-Changes :
        (removed : Option Error) (w : Waiter)
        → Changes recover s.state (on_recover removed w tsk s repo).shard.state
    unfolding on_recover
    on_recover-Changes removed w = grind (arith, changes)

    on_destroy-Changes :
        (w : Waiter) → Changes destroy s.state (on_destroy w tsk s repo).shard.state
    unfolding on_destroy
    on_destroy-Changes w = grind (arith, changes)

    on_fail-Changes : (fch : Option ℕ) → Changes fail s.state (on_fail fch tsk s repo).shard.state
    unfolding on_fail
    on_fail-Changes fch = fails

    on_make_available-Changes :
        Changes make_available s.state (on_make_available tsk s repo).shard.state
    unfolding on_make_available
    on_make_available-Changes = trigger-Changes s.w_acquire _ s.state refl

  -- The turn that was returned is the turn that was made.
  returned :
      (op : OpType) (before : ShardState) (made t : Turn X)
      → some made ≡ some t
      → Changes op before made.shard.state
      → Changes op before t.shard.state
  returned op before made t h =
      subst (λ u. Changes op before u.shard.state) (some-injective made t h)

  dispatch_op-Changes :
      (fch : Option ℕ) (removed : Option Error) (op : OpType) (w : Option Waiter) (tsk : Task)
      (s : Shard X) (repo : X.Repo) (t : Turn X)
      → dispatch_op fch removed op w tsk s repo ≡ some t
      → Changes op s.state t.shard.state
  dispatch_op-Changes fch removed register w tsk s repo t h =
      returned register s.state _ t h (on_register-Changes tsk s repo)
  dispatch_op-Changes fch removed initialize w tsk s repo t h = on_initialize-Changes tsk s repo t h
  dispatch_op-Changes fch removed make_available w tsk s repo t h =
      returned make_available s.state _ t h (on_make_available-Changes tsk s repo)
  dispatch_op-Changes fch removed destroy none tsk s repo t h = cc
  dispatch_op-Changes fch removed destroy (some w) tsk s repo t h =
      returned destroy s.state _ t h (on_destroy-Changes tsk s repo w)
  dispatch_op-Changes fch removed acquire none tsk s repo t h = cc
  dispatch_op-Changes fch removed acquire (some w) tsk s repo t h =
      returned acquire s.state _ t h (on_acquire-Changes tsk s repo w)
  dispatch_op-Changes fch removed fail w tsk s repo t h =
      returned fail s.state _ t h (on_fail-Changes tsk s repo fch)
  dispatch_op-Changes fch removed release w tsk s repo t h =
      returned release s.state _ t h (on_release-Changes tsk s repo)
  dispatch_op-Changes fch removed recover none tsk s repo t h = cc
  dispatch_op-Changes fch removed recover (some w) tsk s repo t h =
      returned recover s.state _ t h (on_recover-Changes tsk s repo removed w)

  -- Every round of the event loop that does not crash changes the state of its shard, if at all, along
  -- an edge of the diagram `Changes` for its operation: initialization starts from any state,
  -- `OpShardMakeAvailable` ends in available or serving, only an available shard begins to serve by an
  -- acquisition, a serving or errored shard falls back to available by a release, a failure ends in
  -- errored, and only an errored shard begins to recover. Registration and destruction change no state.
  pub handle-Changes :
      (fch : Option ℕ) (removed : Option Error) (tsk : Task) (s : Shard X) (repo : X.Repo)
      (t : Turn X)
      → handle fch removed tsk s repo ≡ some t
      → Changes tsk.op s.state t.shard.state
  unfolding handle
  handle-Changes fch removed tsk s repo t h =
      dispatch_op-Changes fch removed tsk.op tsk.waiter tsk s repo t h
