-- ===== src/Store/Properties/Served.antt =====
-- dagstore.go, dagstore_control.go, dagstore_async.go: runs in which the store does what it is asked for.
pub mod Begun
pub mod Acquired
pub mod Refused
pub mod Steps
pub mod Registered
pub mod Complete
use dagstore.Shared.{
  ℕ, ◌+◌, ◌≡◌, refl, ap, ◌∙◌, String, Bool, true, false, Option, none, some, List, [], ◌∷◌, ◌++◌,
  length, get_elem?, set, lookup, arith,
}
use dagstore.Error.{Error, ok, Result}
use dagstore.ShardKey.{Key, key_eq}
use dagstore.Store.Types.{Externals, Context, Waiter, Task, Shard, Dispatch, acquire}
use dagstore.Store.Turn.{Turn}
use dagstore.Store.Control.{handle}
use dagstore.Store.Async.{
  Send, Goroutine, acquiring, indexing, initializing, adding, sending, acquire_fetched,
  acquire_indexed, initialize_fetched, initialize_added, invert,
}
use dagstore.Store.System.Defs.{System}
use dagstore.Store.System.Calls.{call_task, queue_external, acquire_shard}
use dagstore.Store.System.Loop.{
  Answers, settle, process, process_external, process_completion, process_next, control_step,
}
use dagstore.Store.System.Steps.{
  Event, Transient, with_transient, goes_on, sent, hand_over, acquires, controls, fetches, indexes,
  generates, adds, sends, delivers, at, on_fetches, on_indexes, on_generates, on_adds, on_sends,
  deliver, step, run,
}

module _ {X : Externals} where
  -- Some run leads to such a state.
  abbrev pub Reaches : (System X → Type 0) → System X → Type 0
  Reaches P d = (es : List (Event X)) × (d' : System X) × (run es d ≡ some d') × P d'

  pub here : (P : System X → Type 0) (d : System X) → P d → Reaches P d
  unfolding run
  here P d p = ([], d, refl, p)

  pub next :
      (P : System X → Type 0) (e : Event X) (d d1 : System X)
      → step e d ≡ some d1
      → Reaches P d1
      → Reaches P d
  unfolding run
  next P e d d1 stepped (es, d', ran, p) = (e ∷ es, d', rw (stepped, run) ran, p)

  pub acquires_lem :
      (ctx : ℕ) (key : Key) (out : Option ℕ) (d : System X) (shard : ℕ)
      → lookup key d.shards ≡ some shard
      → step (acquires ctx key out) d ≡ some (queue_external (call_task acquire shard ctx out) d)
  unfolding step acquire_shard
  acquires_lem ctx key out d shard e = rw (e, acquire_shard) refl

  pub sends_lem :
      (i : ℕ) (x : Send X) (rest : List (Send X)) (d : System X)
      → get_elem? d.goroutines i ≡ some (sending (x ∷ rest))
      → step (sends i) d ≡ some (goes_on i (sending rest) (sent x d))
  unfolding step on_sends
  sends_lem i x rest d e = rw (e, at) refl

  pub controls_external :
      (a : Answers) (tsk : Task) (rest : List Task) (d : System X) (s : Shard X) (t : Turn X)
      → d.internal_ch ≡ []
      → d.external_ch ≡ tsk ∷ rest
      → get_elem? d.heap tsk.shard ≡ some s
      → handle d.failure_ch a.removed tsk s d.indices ≡ some t
      → step (controls a true) d ≡ some (settle a tsk t (record d { external_ch = rest }))
  unfolding step control_step process
  controls_external a tsk rest d s t quiet first found handled =
      rw (quiet, process_next)
        (rw (first, process_external) (rw (found, process) (rw (handled, process) refl)))

  pub fetches_lem :
      (i : ℕ) (tr : Transient) (reader : X.Reader) (w : Waiter) (shard : ℕ) (d : System X)
      (s : Shard X)
      → get_elem? d.goroutines i ≡ some (acquiring w shard)
      → get_elem? d.heap shard ≡ some s
      → step (fetches i tr (ok reader) none) d
        ≡ some (
            goes_on i
              (indexing w shard reader)
              (record d { heap = set d.heap shard (with_transient tr s) }))
  unfolding step on_fetches acquire_fetched
  fetches_lem i tr reader w shard d s e found = rw (e, at) (rw (found, on_fetches) refl)

  pub indexes_lem :
      (i : ℕ) (w : Waiter) (shard : ℕ) (reader : X.Reader) (d : System X) (s : Shard X)
      (idx : Result X.Index)
      → get_elem? d.goroutines i ≡ some (indexing w shard reader)
      → get_elem? d.heap shard ≡ some s
      → X.repo.get_full_index d.indices s.key ≡ idx
      → step (indexes i none) d ≡ some (goes_on i (acquire_indexed w shard s.key reader idx none) d)
  unfolding step on_indexes
  indexes_lem i w shard reader d s idx e found read =
      rw (e, at) (rw (found, on_indexes) (rw read refl))

  pub delivers_lem :
      (r : Dispatch X) (rest : List (Dispatch X)) (d : System X)
      → d.dispatch_results_ch ≡ r ∷ rest
      → step (delivers false) d
        ≡ some (hand_over r.res.accessor (record d { dispatch_results_ch = rest }))
  unfolding step deliver
  delivers_lem r rest d e = rw (e, deliver) refl
