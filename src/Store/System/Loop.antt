-- ===== src/Store/System/Loop.antt =====
-- dagstore_control.go and dagstore_gc.go: a round of the event loop on the whole store.
use dagstore.Shared.{
  Bool, true, false, Option, none, some, List, [], ◌∷◌, ◌++◌, map, set, get_elem?, erase, string_eq,
  if◌then◌else◌,
}
use dagstore.Error.{Error}
use dagstore.ShardKey.{key_eq}
use dagstore.Store.Types.{Externals, OpType, destroy, Task}
use dagstore.Store.Turn.{Turn}
use dagstore.Store.Control.{handle}
use dagstore.Store.Async.{started}
use dagstore.Store.Persist.{persist}
use dagstore.Store.System.Defs.{System}
use dagstore.Store.System.Calls.{shard_info}

-- What the file system and the datastore answer in a round.
pub record Answers : Type 0 where
  pub removed : Option Error
  pub put_failed : Bool
  pub delete_failed : Bool

abbrev pub is_destroy : OpType → Bool
is_destroy destroy = true
is_destroy _ = false

module _ {X : Externals} where
  -- After the `switch`: what the turn left, the record of the shard, and the trace. Whether `Destroy`
  -- was refused is not looked at.
  unfoldable pub settle : Answers → Task → Turn X → System X → System X
  settle a tsk t d = record d {
    heap = set d.heap tsk.shard t.shard;
    shards = if t.removed then erase t.shard.key d.shards else d.shards;
    indices = t.indices;
    store =
        if is_destroy tsk.op
        then (if a.delete_failed then d.store else erase (X.new_key t.shard.key.str) d.store)
        else persist d.mounts a.put_failed t.shard d.store;
    internal_ch = d.internal_ch ++ t.staged;
    dispatch_results_ch = d.dispatch_results_ch ++ t.results;
    dispatch_failures_ch = d.dispatch_failures_ch ++ t.failures;
    traces =
        if d.trace_ch
        then d.traces ++ record { key = t.shard.key; op = tsk.op; after = shard_info t.shard } ∷ []
        else d.traces;
    goroutines = d.goroutines ++ map started t.spawned;
  }

  -- A round on a task that has been taken off its channel; `none` is a crash. A pointer of Go always
  -- has its shard, so an index outside the heap stands for nothing.
  unfoldable pub process : Answers → Task → System X → Option (System X)
  process a tsk d = elim (get_elem? d.heap tsk.shard) [
    | none ↦ some d
    | some s ↦ elim (handle d.failure_ch a.removed tsk s d.indices) [
      | none ↦ none
      | some t ↦ some (settle a tsk t d)
    ]
  ]

  abbrev pub process_completion : Answers → List Task → System X → Option (System X)
  process_completion a [] d = some d
  process_completion a (tsk ∷ rest) d = process a tsk (record d { completion_ch = rest })

  abbrev pub process_external : Answers → List Task → System X → Option (System X)
  process_external a [] d = some d
  process_external a (tsk ∷ rest) d = process a tsk (record d { external_ch = rest })

  -- `internalCh` comes first; else the `select` picks one of the two others, as `external` says.
  abbrev pub process_next : Answers → (external : Bool) → List Task → System X → Option (System X)
  process_next a external (tsk ∷ rest) d = process a tsk (record d { internal_ch = rest })
  process_next a true [] d = process_external a d.external_ch d
  process_next a false [] d = process_completion a d.completion_ch d

  -- `consumeNext` and the round on the task that it returns.
  unfoldable pub control_step : Answers → (external : Bool) → System X → Option (System X)
  control_step a external d = process_next a external d.internal_ch d
