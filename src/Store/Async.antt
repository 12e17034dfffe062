-- ===== src/Store/Async.antt =====
-- dagstore_async.go: the goroutines that the event loop starts, cut at their accesses to what they share.
use dagstore.Shared.{ℕ, Option, none, some, List, [], ◌∷◌, map}
use dagstore.Error.{
  Error, Result, ok, err, no_reader_on_acquire, no_reader_on_initialization, no_index_read,
  index_not_added, index_not_recovered,
}
use dagstore.ShardKey.{Key}
use dagstore.Store.Types.{
  Externals, Context, Waiter, OpType, make_available, fail, release, Task, ShardResult, Dispatch,
}
use dagstore.Store.Turn.{Spawn, dispatch_result}
use dagstore.Store.Turn

-- A send that a goroutine makes: `queueTask` on one of two channels, or to the dispatcher.
pub data Send (X : Externals) : Type 0 where
  to_external to_completion : Task → Send X
  to_results : Dispatch X → Send X

pub data Goroutine (X : Externals) : Type 0 where
  -- `acquireAsync`, before `Fetch` and before `GetFullIndex`.
  acquiring : Waiter → ℕ → Goroutine X
  indexing : Waiter → ℕ → X.Reader → Goroutine X
  -- `initializeShard`, before `Fetch` and before `AddFullIndex`.
  initializing : Context → ℕ → Goroutine X
  adding : Context → ℕ → X.Index → Goroutine X
  -- The sends that are left, in order.
  sending : List (Send X) → Goroutine X

abbrev pub started : {X : Externals} → Spawn → Goroutine X
started (Turn.acquire_async w shard) = acquiring w shard
started (Turn.initialize_shard ctx shard) = initializing ctx shard

abbrev pub task_of : OpType → ℕ → Option Error → Task
task_of op shard e = record { waiter = none; op = op; shard = shard; err = e }

module _ {X : Externals} where
  -- The result of an acquisition that failed by `e`, to its waiter.
  abbrev pub refused : Key → Error → Waiter → List (Send X)
  refused k e w =
      map to_results
        (dispatch_result (record { key = k; error = some e; accessor = none }) (w ∷ []))

  -- From `Fetch` on: `reader` is its answer, `ctx_err` what `ctx.Err` answers then.
  unfoldable pub acquire_fetched :
      Waiter → ℕ → Key → Result X.Reader → (ctx_err : Option Error) → Goroutine X
  acquire_fetched w shard k reader (some e) =
      sending (to_completion (task_of release shard none) ∷ refused k e w)
  acquire_fetched w shard k (err e) none = sending (
      to_completion (task_of release shard none)
      ∷ to_completion (task_of fail shard (some (no_reader_on_acquire e)))
      ∷ refused k e w)
  acquire_fetched w shard k (ok reader) none = indexing w shard reader

  -- From `GetFullIndex` on: `idx` is its answer.
  unfoldable pub acquire_indexed :
      Waiter → ℕ → Key → X.Reader → Result X.Index → (ctx_err : Option Error) → Goroutine X
  acquire_indexed w shard k reader idx (some e) =
      sending (to_completion (task_of release shard none) ∷ refused k e w)
  acquire_indexed w shard k reader (err e) none = sending (
      to_completion (task_of release shard none)
      ∷ to_completion (task_of fail shard (some (index_not_recovered k e)))
      ∷ refused k e w)
  acquire_indexed w shard k reader (ok idx) none =
      sending (map to_results (dispatch_result found (record w { notify_dead = some shard } ∷ [])))
    where
      found : ShardResult X
      found = record {
        key = k;
        error = none;
        accessor = some (record { reader = reader; idx = idx; shard = shard });
      }

  -- From `Fetch` on: `idx` is the answer of `ReadOrGenerateIndex` under the throttler.
  unfoldable pub initialize_fetched :
      Context → ℕ → Result X.Reader → (idx : Result X.Index) → Goroutine X
  initialize_fetched ctx shard (err e) idx =
      sending (to_completion (task_of fail shard (some (no_reader_on_initialization e))) ∷ [])
  initialize_fetched ctx shard (ok reader) (err e) =
      sending (to_completion (task_of fail shard (some (no_index_read e))) ∷ [])
  initialize_fetched ctx shard (ok reader) (ok idx) = adding ctx shard idx

  -- `AddFullIndex` answered `added`.
  unfoldable pub initialize_added : ℕ → (added : Option Error) → Goroutine X
  initialize_added shard (some e) =
      sending (to_completion (task_of fail shard (some (index_not_added e))) ∷ [])
  initialize_added shard none = sending (to_completion (task_of make_available shard none) ∷ [])

-- `AddMultihashesForShard`, if the index is iterable and was added. Its error is logged.
unfoldable pub invert :
    (X : Externals) → Key → X.Index → (added : Option Error) → X.TopLevel → X.TopLevel
invert X k idx (some e) top = top
invert X k idx none top = elim (X.iterable idx) [
  | none ↦ top
  | some mhs ↦ (X.add_multihashes_for_shard top mhs k).0
]
