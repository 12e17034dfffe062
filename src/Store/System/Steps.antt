-- ===== src/Store/System/Steps.antt =====
-- Every step that the running store can take next, with what the outside world answers in it, and runs.
use dagstore.Shared.{
  ℕ, String, Bool, true, false, Option, none, some, List, [], ◌∷◌, ◌++◌, set, get_elem?,
}
use dagstore.Error.{Error, Result}
use dagstore.ShardKey.{Key}
use dagstore.Store.Types.{Externals, Accessor, Dispatch, Shard, release}
use dagstore.Store.Async.{
  Send, to_external, to_completion, to_results, Goroutine, acquiring, indexing, initializing,
  adding, sending, task_of, acquire_fetched, acquire_indexed, initialize_fetched, initialize_added,
  invert,
}
use dagstore.Store.System.Defs.{System}
use dagstore.Store.System.Calls.{
  RegisterOpts, register_shard, destroy_shard, acquire_shard, recover_shard, close_accessor,
}
use dagstore.Store.System.Loop.{Answers, control_step}
use dagstore.Store.System.Gc.{GcAnswers, gc}

-- The transient that a `Fetch` leaves behind.
pub record Transient : Type 0 where
  pub path : String
  pub ready : Bool

pub data Event (X : Externals) : Type 0 where
  registers : ℕ → Key → X.Mount → Option ℕ → RegisterOpts → (alive : String → Bool) → Event X
  destroys acquires recovers : ℕ → Key → Option ℕ → Event X
  closes : ℕ → Event X
  controls : Answers → (external : Bool) → Event X
  collects : GcAnswers → Event X
  -- Steps of the goroutine at an index.
  fetches : ℕ → Transient → Result X.Reader → (ctx_err : Option Error) → Event X
  indexes : ℕ → (ctx_err : Option Error) → Event X
  generates : ℕ → Transient → Result X.Reader → Result X.Index → Event X
  adds : ℕ → Event X
  sends : ℕ → Event X
  -- The dispatchers; `dead` is whether the waiter's context ended first.
  delivers : (dead : Bool) → Event X
  delivers_failure : Event X

module _ {X : Externals} where
  abbrev pub with_transient : Transient → Shard X → Shard X
  with_transient t s = record s { mount = record (s.mount) { path = t.path; ready = t.ready } }

  -- The goroutine at an index goes on as `g`.
  abbrev pub goes_on : ℕ → Goroutine X → System X → System X
  goes_on i g d = record d { goroutines = set d.goroutines i g }

  unfoldable pub on_fetches :
      ℕ → Transient → Result X.Reader → Option Error → Goroutine X → System X → System X
  unfolding acquire_fetched
  on_fetches i t reader ctx_err (acquiring w shard) d = elim (get_elem? d.heap shard) [
    | none ↦ d
    | some s ↦
        goes_on i (acquire_fetched w shard s.key reader ctx_err)
          (record d { heap = set d.heap shard (with_transient t s) })
  ]
  on_fetches i t reader ctx_err g d = d

  unfoldable pub on_indexes : ℕ → Option Error → Goroutine X → System X → System X
  unfolding acquire_indexed
  on_indexes i ctx_err (indexing w shard reader) d = elim (get_elem? d.heap shard) [
    | none ↦ d
    | some s ↦
        goes_on i
          (acquire_indexed w shard s.key reader (X.repo.get_full_index d.indices s.key) ctx_err) d
  ]
  on_indexes i ctx_err g d = d

  unfoldable pub on_generates :
      ℕ → Transient → Result X.Reader → Result X.Index → Goroutine X → System X → System X
  unfolding initialize_fetched
  on_generates i t reader idx (initializing ctx shard) d = elim (get_elem? d.heap shard) [
    | none ↦ d
    | some s ↦
        goes_on i (initialize_fetched ctx shard reader idx)
          (record d { heap = set d.heap shard (with_transient t s) })
  ]
  on_generates i t reader idx g d = d

  unfoldable pub on_adds : ℕ → Goroutine X → System X → System X
  unfolding initialize_added
  on_adds i (adding ctx shard idx) d = elim (get_elem? d.heap shard) [
    | none ↦ d
    | some s ↦
        let (repo, added) = X.repo.add_full_index d.indices s.key idx in
        goes_on i (initialize_added shard added) (record d {
          indices = repo;
          top_level_index = invert X s.key idx added d.top_level_index;
        })
  ]
  on_adds i g d = d

  abbrev pub sent : Send X → System X → System X
  sent (to_external t) d = record d { external_ch = d.external_ch ++ t ∷ [] }
  sent (to_completion t) d = record d { completion_ch = d.completion_ch ++ t ∷ [] }
  sent (to_results r) d = record d { dispatch_results_ch = d.dispatch_results_ch ++ r ∷ [] }

  unfoldable pub on_sends : ℕ → Goroutine X → System X → System X
  on_sends i (sending (x ∷ rest)) d = goes_on i (sending rest) (sent x d)
  on_sends i g d = d

  abbrev pub at : (Goroutine X → System X → System X) → ℕ → System X → System X
  at f i d = elim (get_elem? d.goroutines i) [ none ↦ d | some g ↦ f g d ]

  -- shard.go: `deliver`, of a result that has a channel.
  abbrev pub hand_over : Option (Accessor X) → System X → System X
  hand_over none d = d
  hand_over (some a) d = record d { accessors = d.accessors ++ a ∷ [] }

  abbrev pub notify_dead : Option ℕ → System X → System X
  notify_dead none d = d
  notify_dead (some shard) d = record d {
    completion_ch = d.completion_ch ++ task_of release shard none ∷ [];
  }

  -- dispatcher.go: the dispatcher of the results.
  unfoldable pub deliver : (dead : Bool) → List (Dispatch X) → System X → System X
  deliver dead [] d = d
  deliver true (r ∷ rest) d = notify_dead r.w.notify_dead (record d { dispatch_results_ch = rest })
  deliver false (r ∷ rest) d = hand_over r.res.accessor (record d { dispatch_results_ch = rest })

  unfoldable pub deliver_failure : List (Dispatch X) → System X → System X
  deliver_failure [] d = d
  deliver_failure (r ∷ rest) d = record d { dispatch_failures_ch = rest }

  -- A garbage collection waits while there is an internal task.
  unfoldable pub on_collects : GcAnswers → System X → System X
  unfolding gc
  on_collects a d = elim d.internal_ch [ [] ↦ (gc a d).0 | t ∷ ts ↦ d ]

  -- `none` is a crash of the event loop.
  unfoldable pub step : Event X → System X → Option (System X)
  step (registers ctx key mnt out opts alive) d =
      some (register_shard ctx key mnt out opts alive d).0
  step (destroys ctx key out) d = some (destroy_shard ctx key out d).0
  step (acquires ctx key out) d = some (acquire_shard ctx key out d).0
  step (recovers ctx key out) d = some (recover_shard ctx key out d).0
  step (closes i) d = some (close_accessor i d)
  step (controls a external) d = control_step a external d
  step (collects a) d = some (on_collects a d)
  step (fetches i t reader ctx_err) d = some (at (on_fetches i t reader ctx_err) i d)
  step (indexes i ctx_err) d = some (at (on_indexes i ctx_err) i d)
  step (generates i t reader idx) d = some (at (on_generates i t reader idx) i d)
  step (adds i) d = some (at (on_adds i) i d)
  step (sends i) d = some (at (on_sends i) i d)
  step (delivers dead) d = some (deliver dead d.dispatch_results_ch d)
  step delivers_failure d = some (deliver_failure d.dispatch_failures_ch d)

  unfoldable pub run : List (Event X) → System X → Option (System X)
  unfolding step
  run [] d = some d
  run (e ∷ es) d = elim (step e d) [ none ↦ none | some d' ↦ run es d' ]
