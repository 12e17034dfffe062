-- ===== src/Store/Lifecycle/Tests.antt =====
-- `Close` at concrete inputs.
use dagstore.Shared.{
  ℕ, zero, suc, ◌≡◌, refl, true, false, none, some, List, [], ◌∷◌, get_elem?, arith,
}
use dagstore.Store.Types.{Context, caller, Task, acquire, fail, Shard}
use dagstore.Store.Example.{task, shard, example}
use dagstore.Store.Lifecycle.{
  result, failure, emitting, returned, receiving, delivering, waiting, closed, Lifecycle, takes,
  hands, stops, LifecycleEvent, queues, consumes, puts, quits, async_puts, results_step,
  failures_step, closes, close_returns, queue_task, dispatcher_step, on_puts, lifecycle_step,
  lifecycle_run, started_lifecycle,
}
use dagstore.Store.Lifecycle.Closing.{IsFrozen, close_is_final}
use dagstore.Store.Lifecycle.Blocking.{
  NeverCloses, round_sends, acquisitions, failed_round_blocks_close,
}
use dagstore.ShardState.{initializing}
use dagstore.Store.Control.{on_acquire, on_fail}
use dagstore.Store.Lifecycle.Returning.{Returns, close_can_return}
use dagstore.Store.Lifecycle.Lost.{accepted_is_lost}

-- A task is processed and its result handed over, then the store is closed.
abbrev orderly : List LifecycleEvent
orderly =
    queues (task acquire) true
    ∷ consumes true (result (caller 1) ∷ [])
    ∷ puts
    ∷ results_step takes
    ∷ results_step hands
    ∷ closes
    ∷ quits
    ∷ results_step stops
    ∷ failures_step stops
    ∷ close_returns
    ∷ []

orderly_closes : (lifecycle_run orderly (started_lifecycle true)).close ≡ closed
unfolding lifecycle_run lifecycle_step started_lifecycle queue_task on_puts dispatcher_step
orderly_closes = refl

abbrev late : List LifecycleEvent
late =
    queues (task acquire) true
    ∷ consumes true []
    ∷ async_puts (caller 2)
    ∷ results_step takes
    ∷ async_puts (caller 3)
    ∷ []

close_is_final_example :
    IsFrozen
      (lifecycle_run orderly (started_lifecycle true))
      (lifecycle_run late (lifecycle_run orderly (started_lifecycle true)))
close_is_final_example = close_is_final true orderly late orderly_closes

-- A store whose event loop is in a round that has a result left, while `Close` waits.
abbrev in_round : List Context → Lifecycle
in_round results_ch = record {
  is_cancelled = true;
  ended = 1 ∷ [];
  external_ch = [];
  control = emitting (result (caller 1)) (failure ∷ []);
  results_ch = results_ch;
  failures_ch = [];
  results = delivering (caller 1);
  failures = receiving;
  owed = 1;
  close = waiting;
}

close_can_return_example : Returns (in_round (caller 2 ∷ []))
close_can_return_example =
    close_can_return (in_round (caller 2 ∷ [])) refl refl refl (omega arith) (omega arith) refl refl

-- `n` callers, and the steps in which their acquisitions are queued and parked.
abbrev callers : ℕ → List (Context × ℕ)
callers zero = []
callers (suc n) = (caller n, n) ∷ callers n

abbrev parkings : ℕ → List LifecycleEvent
parkings zero = []
parkings (suc n) = queues (task acquire) true ∷ consumes true [] ∷ parkings n

abbrev parked : Lifecycle
unfolding lifecycle_run lifecycle_step started_lifecycle queue_task
parked = lifecycle_run (parkings 129) (started_lifecycle true)

abbrev initializing_shard : Shard example
initializing_shard = record shard { state = initializing }

failed_round_blocks_close_example :
    let (s', repo') = acquisitions (callers 129) (task acquire) initializing_shard [] in
    NeverCloses (
      lifecycle_step
        (consumes false (round_sends true (on_fail (some 7) (task fail) s' repo')))
        parked)
unfolding parked acquisitions on_fail on_acquire
failed_round_blocks_close_example =
    failed_round_blocks_close (callers 129) (task acquire) (task fail) (some 7) true
      initializing_shard [] parked refl (omega arith) refl refl refl (omega arith) (omega arith)

abbrev over : Lifecycle
over = record (in_round []) { control = returned }

accepted_is_lost_example :
    (ch : List Task) × (queue_task true true 128 (task acquire) [] ≡ some (ch, none))
    × ((es : List LifecycleEvent)
        → get_elem? (lifecycle_run es (record over { external_ch = ch })).external_ch 0
          ≡ some (task acquire))
accepted_is_lost_example = accepted_is_lost (task acquire) over refl (omega arith)
