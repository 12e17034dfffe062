-- ===== src/Store/Lifecycle.antt =====
-- dagstore.go, dagstore_control.go, dispatcher.go: `Close`, and how the event loop and the dispatchers end.
-- A round of the event loop is what it sends, in order; the tasks of `internalCh` and `completionCh` and
-- the requests of garbage collections are not followed. The event of a round carries its sends. They may
-- be any that answer no more calls than have been taken and not answered, so that what is stated of all
-- runs covers those of the store, whatever its shards; where a run is constructed, the sends of its rounds
-- are those of the handlers (`round_sends`), or none.
pub mod Closing
pub mod Blocking
pub mod Lost
pub mod Returning
mod Tests
use dagstore.Shared.{
  ℕ, suc, ◌-◌, Bool, true, false, Option, none, some, List, [], ◌∷◌, ◌++◌, length, ltb, nat_beq,
  ◌||◌, ◌&&◌, if◌then◌else◌, not,
}
use dagstore.Error.{Error, dag_store_closed}
use dagstore.Store.Types.{Context, background, of_store, caller, Task}

-- What a round sends: a result to a waiter of some context, a failure, and a trace.
pub data Output : Type 0 where
  result : Context → Output
  failure trace : Output

-- The event loop: in `consumeNext`, with sends of its round left, and after it has returned.
pub data ControlLoop : Type 0 where
  consuming : ControlLoop
  emitting : Output → List Output → ControlLoop
  returned : ControlLoop

-- A dispatcher: at its `select`, in `deliver`, and after it has returned.
pub data Dispatcher : Type 0 where
  receiving : Dispatcher
  delivering : Context → Dispatcher
  stopped : Dispatcher

-- Whether `Close` has been called, and has returned.
pub data CloseCall : Type 0 where
  not_called waiting closed : CloseCall

pub record Lifecycle : Type 0 where
  -- Whether the context of the store has ended, and the callers' that have.
  pub is_cancelled : Bool
  pub ended : List ℕ
  pub external_ch : List Task
  pub control : ControlLoop
  -- The contexts of the waiters in the two channels of the dispatchers.
  pub results_ch : List Context
  pub failures_ch : List Context
  pub results : Dispatcher
  pub failures : Dispatcher
  -- The calls whose task the event loop has taken and has not answered itself.
  pub owed : ℕ
  pub close : CloseCall

-- A step of a dispatcher; `hands` is that the application receives what it delivers.
pub data DispatcherEvent : Type 0 where
  takes hands gives_up stops : DispatcherEvent

pub data LifecycleEvent : Type 0 where
  ends : ℕ → LifecycleEvent
  queues : Task → (sends : Bool) → LifecycleEvent
  -- The event loop takes a task, for a round that makes the sends.
  consumes : (external : Bool) → List Output → LifecycleEvent
  puts traces quits : LifecycleEvent
  -- A goroutine of `acquireAsync` dispatches its result. `Close` does not wait for it.
  async_puts : Context → LifecycleEvent
  results_step failures_step : DispatcherEvent → LifecycleEvent
  closes close_returns : LifecycleEvent

abbrev pub among : ℕ → List ℕ → Bool
among n [] = false
among n (m ∷ rest) = nat_beq m n || among n rest

-- `ctx.Done`
abbrev pub is_done : Context → Lifecycle → Bool
is_done background s = false
is_done of_store s = s.is_cancelled
is_done (caller n) s = among n s.ended

-- `queueTask`: the channel after it, and what it returns; `none` is a call that waits. Where the context
-- has ended and the channel has room, the `select` takes either, as `sends` says.
unfoldable pub queue_task :
    (is_cancelled sends : Bool) → (room : ℕ) → Task → List Task → Option (List Task × Option Error)
queue_task is_cancelled sends room tsk ch =
    if ltb (length ch) room && (sends || not is_cancelled)
    then some (ch ++ tsk ∷ [], none)
    else if is_cancelled
    then some (ch, some dag_store_closed)
    else none

abbrev pub after_sends : List Output → ControlLoop
after_sends [] = consuming
after_sends (o ∷ rest) = emitting o rest

-- `select` of a dispatcher, and that of `deliver`.
unfoldable pub dispatcher_step :
    (is_cancelled : Bool)
    → (is_done : Context → Bool) → DispatcherEvent
    → Dispatcher
    → List Context
    → Dispatcher × List Context
dispatcher_step is_cancelled is_done takes receiving (c ∷ rest) = (delivering c, rest)
dispatcher_step is_cancelled is_done hands (delivering c) ch = (receiving, ch)
dispatcher_step is_cancelled is_done gives_up (delivering c) ch =
    (if is_done c then receiving else delivering c, ch)
dispatcher_step is_cancelled is_done stops receiving ch =
    (if is_cancelled then stopped else receiving, ch)
dispatcher_step is_cancelled is_done e d ch = (d, ch)

-- `d.dispatchResultsCh <- ...` and `d.dispatchFailuresCh <- ...`, of 128 elements. There is no `select`.
unfoldable pub on_puts : ControlLoop → Lifecycle → Lifecycle
on_puts (emitting (result c) rest) s =
    if ltb (length s.results_ch) 128
    then record s { control = after_sends rest; results_ch = s.results_ch ++ c ∷ [] }
    else s
on_puts (emitting failure rest) s =
    if ltb (length s.failures_ch) 128
    then record s { control = after_sends rest; failures_ch = s.failures_ch ++ of_store ∷ [] }
    else s
on_puts control s = s

-- `d.traceCh <- n`: the application receives the trace.
abbrev pub on_traces : ControlLoop → Lifecycle → Lifecycle
on_traces (emitting trace rest) s = record s { control = after_sends rest }
on_traces control s = s

abbrev pub pop : List Task → List Task
pop [] = []
pop (t ∷ ts) = ts

-- The results among the sends of a round.
abbrev pub result_count : List Output → ℕ
result_count [] = 0
result_count (result c ∷ rest) = suc (result_count rest)
result_count (o ∷ rest) = result_count rest

-- A round answers calls whose tasks have been taken, each at most once.
unfoldable pub on_round : List Output → Lifecycle → Lifecycle → Lifecycle
on_round outs taken s =
    if ltb taken.owed (result_count outs)
    then s
    else record taken { control = after_sends outs; owed = taken.owed - result_count outs }

-- `consumeNext`, which looks at `d.ctx` and at the channels in the same `select`, and the round after it.
abbrev pub on_consumes : (external : Bool) → List Output → ControlLoop → Lifecycle → Lifecycle
unfolding on_round
on_consumes true outs consuming s = elim s.external_ch [
  | [] ↦ s
  | t ∷ ts ↦ on_round outs (record s { external_ch = ts; owed = suc s.owed }) s
]
on_consumes false outs consuming s = on_round outs s s
on_consumes external outs control s = s

abbrev pub on_quits : ControlLoop → Lifecycle → Lifecycle
on_quits consuming s = if s.is_cancelled then record s { control = returned } else s
on_quits control s = s

-- `d.wg.Wait`
abbrev pub has_ended : ControlLoop → Dispatcher → Dispatcher → Bool
has_ended returned stopped stopped = true
has_ended control results failures = false

abbrev pub on_close_returns : CloseCall → Lifecycle → Lifecycle
on_close_returns waiting s =
    if has_ended s.control s.results s.failures then record s { close = closed } else s
on_close_returns call s = s

abbrev pub called : CloseCall → CloseCall
called not_called = waiting
called call = call

unfoldable pub lifecycle_step : LifecycleEvent → Lifecycle → Lifecycle
unfolding queue_task dispatcher_step on_puts on_round
lifecycle_step (ends n) s = record s { ended = n ∷ s.ended }
lifecycle_step (queues tsk sends) s = elim (queue_task s.is_cancelled sends 128 tsk s.external_ch) [
  | none ↦ s
  | some (ch, e) ↦ record s { external_ch = ch }
]
lifecycle_step (consumes external outs) s = on_consumes external outs s.control s
lifecycle_step puts s = on_puts s.control s
lifecycle_step (async_puts c) s =
    if ltb (length s.results_ch) 128 then record s { results_ch = s.results_ch ++ c ∷ [] } else s
lifecycle_step traces s = on_traces s.control s
lifecycle_step quits s = on_quits s.control s
lifecycle_step (results_step e) s =
    let (d, ch) = dispatcher_step s.is_cancelled (λ c. is_done c s) e s.results s.results_ch in
    record s { results = d; results_ch = ch }
lifecycle_step (failures_step e) s =
    let (d, ch) = dispatcher_step s.is_cancelled (λ c. is_done c s) e s.failures s.failures_ch in
    record s { failures = d; failures_ch = ch }
lifecycle_step closes s = record s { is_cancelled = true; close = called s.close }
lifecycle_step close_returns s = on_close_returns s.close s

unfoldable pub lifecycle_run : List LifecycleEvent → Lifecycle → Lifecycle
unfolding lifecycle_step
lifecycle_run [] s = s
lifecycle_run (e ∷ es) s = lifecycle_run es (lifecycle_step e s)

-- `Start`: the dispatcher of failures is there if the application has a failure channel.
unfoldable pub started_lifecycle : (has_failure_ch : Bool) → Lifecycle
started_lifecycle has_failure_ch = record {
  is_cancelled = false;
  ended = [];
  external_ch = [];
  control = consuming;
  results_ch = [];
  failures_ch = [];
  results = receiving;
  failures = if has_failure_ch then receiving else stopped;
  owed = 0;
  close = not_called;
}
