-- ===== src/Store/Control.antt =====
-- dagstore_control.go: the cases of the `switch` in `control`, each as a function of the task and its
-- shard. A nil pointer that Go would dereference is `none`.
use dagstore.Shared.{
  ℕ, ◌+◌, ◌-◌, true, false, not, ◌&&◌, ◌||◌, Option, none, some, List, [], ◌∷◌, ◌++◌, if◌then◌else◌,
  ltb, nat_beq,
}
use dagstore.Error.{
  wrapped, initialization_failed, in_errored_state, failed_to_register, failed_to_recover,
  failed_to_acquire, refused_to_recover, active_references,
}
use dagstore.ShardState.{initializing, available, serving, recovering, errored}
use dagstore.Error.{Error}
use dagstore.Mount.Upgrader.{delete_transient}
use dagstore.Store.Types.{
  Externals, background, of_store, Waiter, OpType, register, initialize, make_available, destroy,
  acquire, fail, release, recover, Task, Shard,
}
use dagstore.Store.Turn.{
  Spawn, acquire_async, initialize_shard, Turn, is_new, is_errored, is_serving, is_available, u32,
  quiet, dispatch_result, dispatch_to, failed_with, succeeded, index_exists,
}

-- A task that the event loop puts on `internalCh`.
abbrev pub staged : Option Waiter → OpType → ℕ → Option Error → List Task
staged w op shard e = record { waiter = w; op = op; shard = shard; err = e } ∷ []

-- The loop over `wAcquire`: a reference and a goroutine for each waiter.
unfoldable pub trigger : {X : Externals} → List Waiter → Shard X → Shard X
trigger [] s = s
trigger (w ∷ ws) s = trigger ws (record s { state = serving; refs = u32 (s.refs + 1) })

unfoldable pub acquirers : ℕ → List Waiter → List Spawn
acquirers shard [] = []
acquirers shard (w ∷ ws) = acquire_async w shard ∷ acquirers shard ws

module _ {X : Externals} where
  -- case OpShardRegister
  unfoldable pub on_register : Task → Shard X → X.Repo → Turn X
  on_register tsk s repo =
      if not (is_new s.state)
      then record (quiet s repo) {
        staged = staged none fail tsk.shard (some (initialization_failed s.state));
      }
      else if s.lazy
      then record (quiet s repo) { results = dispatch_to (succeeded s) tsk.waiter }
      else record (quiet (record s { w_register = tsk.waiter }) repo) {
        staged = staged tsk.waiter initialize tsk.shard none;
      }

  -- case OpShardInitialize
  unfoldable pub on_initialize : Task → Shard X → X.Repo → Option (Turn X)
  on_initialize tsk s repo =
      let t = quiet (record s { state = initializing }) repo in
      if index_exists (X.repo.stat_full_index repo s.key)
      then some (record t { staged = staged none make_available tsk.shard none })
      else elim tsk.waiter [
        | none ↦ none
        | some w ↦ some (record t { spawned = initialize_shard w.ctx tsk.shard ∷ [] })
      ]

  -- case OpShardMakeAvailable
  unfoldable pub on_make_available : Task → Shard X → X.Repo → Turn X
  unfolding trigger acquirers
  on_make_available tsk s repo =
      let s' = record s { state = available; err = none; w_register = none; w_recover = none } in
      record (quiet (record (trigger s.w_acquire s') { w_acquire = [] }) repo) {
        results = dispatch_to (succeeded s) s.w_register ++ dispatch_to (succeeded s) s.w_recover;
        spawned = acquirers tsk.shard s.w_acquire;
      }

  -- case OpShardAcquire, of a task with waiter `v`
  unfoldable pub on_acquire : Waiter → Task → Shard X → X.Repo → Turn X
  on_acquire v tsk s repo =
      let w : Waiter = record { ctx = v.ctx; out_ch = v.out_ch; notify_dead = none } in
      let parked = record s { w_acquire = s.w_acquire ++ w ∷ [] } in
      if is_errored s.state
      then if s.recover_on_next_acquire
        then record (quiet (record parked { recover_on_next_acquire = false }) repo) {
          staged =
              staged (some (record { ctx = of_store; out_ch = none; notify_dead = none })) recover
                tsk.shard none;
        }
        else record (quiet s repo) {
          results = dispatch_result (failed_with s (in_errored_state (wrapped s.err))) (w ∷ []);
        }
      else if not (is_available s.state) && not (is_serving s.state)
      then record (quiet parked repo) {
        staged =
            if is_new s.state
            then staged (some (record v { ctx = background })) initialize tsk.shard none
            else [];
      }
      else record (quiet (record s { state = serving; refs = u32 (s.refs + 1) }) repo) {
        spawned = acquire_async w tsk.shard ∷ [];
      }

  -- case OpShardRelease
  unfoldable pub on_release : Task → Shard X → X.Repo → Turn X
  on_release tsk s repo =
      if (not (is_serving s.state) && not (is_errored s.state)) || nat_beq s.refs 0
      then quiet s repo
      else let s' = record s { refs = s.refs - 1 } in
        quiet (if nat_beq s'.refs 0 then record s' { state = available } else s') repo

  -- case OpShardFail; `failure_ch` is the application's failure channel
  unfoldable pub on_fail : Option ℕ → Task → Shard X → X.Repo → Turn X
  on_fail failure_ch tsk s repo =
      let e = wrapped tsk.err in
      let s' = record s {
        state = errored;
        err = tsk.err;
        w_register = none;
        w_recover = none;
        w_acquire = [];
      } in
      record (quiet s' repo) {
        results =
            dispatch_to (failed_with s (failed_to_register e)) s.w_register
            ++ (dispatch_to (failed_with s (failed_to_recover e)) s.w_recover
                ++ dispatch_result (failed_with s (failed_to_acquire e)) s.w_acquire);
        failures = elim failure_ch [
          | none ↦ []
          | some ch ↦
              record {
                w = record { ctx = of_store; out_ch = some ch; notify_dead = none };
                res = record { key = s.key; error = tsk.err; accessor = none };
              }
              ∷ []
        ];
      }

  -- case OpShardRecover, of a task with waiter `w`; `removed` is what `os.Remove` answers
  unfoldable pub on_recover : Option Error → Waiter → Task → Shard X → X.Repo → Turn X
  unfolding delete_transient
  on_recover removed w tsk s repo =
      if not (is_errored s.state)
      then record (quiet s repo) {
        results = dispatch_result (failed_with s (refused_to_recover s.state)) (w ∷ []);
      }
      else let mount = (delete_transient X.os removed s.mount).0 in
        let s' = record s { state = recovering; w_recover = some w; mount = mount } in
        record (quiet s' (X.repo.drop_full_index repo s.key).0) {
          spawned = initialize_shard w.ctx tsk.shard ∷ [];
        }

  -- case OpShardDestroy, of a task with waiter `w`
  unfoldable pub on_destroy : Waiter → Task → Shard X → X.Repo → Turn X
  on_destroy w tsk s repo =
      if is_serving s.state || ltb 0 s.refs
      then record (quiet s repo) {
        results = dispatch_result (failed_with s (active_references s.refs)) (w ∷ []);
      }
      else record (quiet s repo) {
        results = dispatch_result (succeeded s) (w ∷ []);
        removed = true;
      }

  -- The `switch`, for an operation, a waiter that is not nil, or none.
  abbrev pub dispatch_op :
      Option ℕ → Option Error → OpType → Option Waiter → Task → Shard X → X.Repo → Option (Turn X)
  dispatch_op fch removed register w tsk s repo = some (on_register tsk s repo)
  dispatch_op fch removed initialize w tsk s repo = on_initialize tsk s repo
  dispatch_op fch removed make_available w tsk s repo = some (on_make_available tsk s repo)
  dispatch_op fch removed release w tsk s repo = some (on_release tsk s repo)
  dispatch_op fch removed fail w tsk s repo = some (on_fail fch tsk s repo)
  dispatch_op fch removed acquire (some w) tsk s repo = some (on_acquire w tsk s repo)
  dispatch_op fch removed recover (some w) tsk s repo = some (on_recover removed w tsk s repo)
  dispatch_op fch removed destroy (some w) tsk s repo = some (on_destroy w tsk s repo)
  dispatch_op fch removed op none tsk s repo = none

  unfoldable pub handle : Option ℕ → Option Error → Task → Shard X → X.Repo → Option (Turn X)
  handle failure_ch removed tsk s repo = dispatch_op failure_ch removed tsk.op tsk.waiter tsk s repo
