-- ===== src/Store/Properties/Deliveries.antt =====
-- dagstore.go, dispatcher.go: the results that are due on a channel, and those that are delivered.
pub mod Rounds
pub mod Moves
pub mod Calls
pub mod Runs
pub mod Started
use dagstore.Shared.{ℕ, ◌+◌, Bool, true, false, Option, none, some, List, [], ◌∷◌, total}
use dagstore.Store.Types.{Externals, Task, Dispatch}
use dagstore.Store.Async.{
  Send, to_external, to_completion, to_results, Goroutine, acquiring, indexing, initializing,
  adding, sending,
}
use dagstore.Store.System.Defs.{System}
use dagstore.Store.System.Steps.{
  Event, registers, destroys, acquires, recovers, delivers, run, step,
}
use dagstore.Store.Properties.Answers.{owed_on, owed, parked, brought}

-- `f` is a number for each channel, as in `Answers`.
module _ (f : ℕ → ℕ) where
  abbrev pub task_owed : Task → ℕ
  task_owed t = brought f t.op t.waiter

  abbrev pub result_owed : {X : Externals} → Dispatch X → ℕ
  result_owed r = owed f r.w

  abbrev pub send_owed : {X : Externals} → Send X → ℕ
  send_owed (to_external t) = task_owed t
  send_owed (to_completion t) = task_owed t
  send_owed (to_results r) = result_owed r

  abbrev pub goroutine_owed : {X : Externals} → Goroutine X → ℕ
  goroutine_owed (acquiring w shard) = owed f w
  goroutine_owed (indexing w shard reader) = owed f w
  goroutine_owed (initializing ctx shard) = 0
  goroutine_owed (adding ctx shard idx) = 0
  goroutine_owed (sending l) = total send_owed l

  -- The results that are still due: to waiters that shards have parked, that queued tasks bring and that
  -- goroutines serve, and results on their way.
  unfoldable pub due : {X : Externals} → System X → ℕ
  due d =
      total (parked f) d.heap
      + total task_owed d.external_ch
      + total task_owed d.internal_ch
      + total task_owed d.completion_ch
      + total result_owed d.dispatch_results_ch
      + total goroutine_owed d.goroutines

  -- The result that a call asks for.
  abbrev pub asked : {X : Externals} → Event X → ℕ
  asked (registers ctx key mnt out opts alive) = owed_on f out
  asked (destroys ctx key out) = owed_on f out
  asked (acquires ctx key out) = owed_on f out
  asked (recovers ctx key out) = owed_on f out
  asked e = 0

  abbrev pub first_owed : {X : Externals} → List (Dispatch X) → ℕ
  first_owed [] = 0
  first_owed (r ∷ rest) = result_owed r

  -- The result that a step of the dispatcher sends to its waiter.
  abbrev pub delivered : {X : Externals} → Event X → System X → ℕ
  delivered (delivers false) d = first_owed d.dispatch_results_ch
  delivered e d = 0

  -- The deliveries of a run that does not crash.
  unfoldable pub deliveries : {X : Externals} → List (Event X) → System X → ℕ
  unfolding step
  deliveries [] d = 0
  deliveries (e ∷ es) d = delivered e d + elim (step e d) [ none ↦ 0 | some d' ↦ deliveries es d' ]
