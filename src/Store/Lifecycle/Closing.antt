-- ===== src/Store/Lifecycle/Closing.antt =====
-- dagstore.go: what holds when `Close` returns, and when it does not return.
use dagstore.Shared.{
  ◌≤◌, ◌≡◌, ◌≢◌, refl, sym, ap, ◌∙◌, Bool, true, List, [], ◌∷◌, ◌++◌, length, ltb, arith,
  Bool-cases, inl, inr,
}
use mathlib.Core.List.{append-nil, append_assoc}
use dagstore.Store.Types.{Context}
use dagstore.Store.Lifecycle.{
  Output, result, emitting, returned, Dispatcher, stopped, CloseCall, not_called, waiting, closed,
  Lifecycle, DispatcherEvent, LifecycleEvent, ends, queues, consumes, puts, traces, quits,
  async_puts, results_step, failures_step, closes, close_returns, queue_task, on_round, is_done,
  dispatcher_step, on_puts, has_ended, on_close_returns, lifecycle_step, lifecycle_run,
  started_lifecycle,
}

-- The goroutines have ended, and what they have left.
pub record HasEnded (s : Lifecycle) : Type 0 where
  pub control : s.control ≡ returned
  pub results : s.results ≡ stopped
  pub failures : s.failures ≡ stopped

pub record IsFrozen (s s' : Lifecycle) : Type 0 where
  pub ended : HasEnded s'
  pub sent : List Context
  pub results_ch : s'.results_ch ≡ s.results_ch ++ sent
  pub failures_ch : s'.failures_ch ≡ s.failures_ch

dispatcher_step-stopped :
    (b : Bool) (f : Context → Bool) (e : DispatcherEvent) (d : Dispatcher) (ch : List Context)
    → d ≡ stopped
    → dispatcher_step b f e d ch ≡ (d, ch)
unfolding dispatcher_step
dispatcher_step-stopped b f e d ch h = ground arith

-- A step that leaves the channels.
record IsStill (s s' : Lifecycle) : Type 0 where
  ended : HasEnded s'
  results_ch : s'.results_ch ≡ s.results_ch
  failures_ch : s'.failures_ch ≡ s.failures_ch

still : (s s' : Lifecycle) → IsStill s s' → IsFrozen s s'
still s s' v = record {
  ended = v.ended;
  sent = [];
  results_ch = v.results_ch ∙ sym (append-nil s.results_ch);
  failures_ch = v.failures_ch;
}

put-IsFrozen :
    (c : Context) (s : Lifecycle) → HasEnded s → IsFrozen s (lifecycle_step (async_puts c) s)
unfolding lifecycle_step
put-IsFrozen c s v = elim (Bool-cases (ltb (length s.results_ch) 128)) [
  | inl e ↦
      let same : lifecycle_step (async_puts c) s
          ≡ record s { results_ch = s.results_ch ++ c ∷ [] } =
        rw e refl in
      record {
        ended = ground arith;
        sent = c ∷ [];
        results_ch = ground arith;
        failures_ch = ground arith;
      }
  | inr e ↦ still s (lifecycle_step (async_puts c) s) (ground arith)
]

step-IsFrozen : (e : LifecycleEvent) (s : Lifecycle) → HasEnded s → IsFrozen s (lifecycle_step e s)
unfolding lifecycle_step on_puts on_round queue_task
step-IsFrozen (ends n) s v = still s _ (ground arith)
step-IsFrozen (queues tsk sends) s v = still s _ (ground arith)
step-IsFrozen (consumes external outs) s v = still s _ (ground arith)
step-IsFrozen puts s v = still s _ (ground arith)
step-IsFrozen (async_puts c) s v = put-IsFrozen c s v
step-IsFrozen traces s v = still s _ (ground arith)
step-IsFrozen quits s v = still s _ (ground arith)
step-IsFrozen (results_step e) s v = still s _ (
    ground (
      arith,
      dispatcher_step-stopped s.is_cancelled (λ c. is_done c s) e s.results s.results_ch v.results,
    ))
step-IsFrozen (failures_step e) s v = still s _ (
    ground (
      arith,
      dispatcher_step-stopped s.is_cancelled (λ c. is_done c s) e s.failures s.failures_ch
          v.failures,
    ))
step-IsFrozen closes s v = still s _ (ground arith)
step-IsFrozen close_returns s v = still s _ (ground arith)

run-IsFrozen :
    (es : List LifecycleEvent) (s : Lifecycle) → HasEnded s → IsFrozen s (lifecycle_run es s)
unfolding lifecycle_run
run-IsFrozen [] s v = still s s (record { ended = v; results_ch = refl; failures_ch = refl })
run-IsFrozen (e ∷ es) s v =
    let first = step-IsFrozen e s v in
    let later = run-IsFrozen es (lifecycle_step e s) first.ended in
    record {
      ended = later.ended;
      sent = first.sent ++ later.sent;
      results_ch =
          later.results_ch
          ∙ (ap (λ l. l ++ later.sent) first.results_ch
              ∙ append_assoc s.results_ch first.sent later.sent);
      failures_ch = later.failures_ch ∙ first.failures_ch;
    }

HasEnded-has_ended : (s : Lifecycle) → has_ended s.control s.results s.failures ≡ true → HasEnded s
HasEnded-has_ended s e = ground arith

on_close_returns-HasEnded :
    (call : CloseCall) (s : Lifecycle)
    → (on_close_returns call s).close ≡ closed
    → (s.close ≡ closed → HasEnded s)
    → HasEnded s
on_close_returns-HasEnded not_called s h v = v h
on_close_returns-HasEnded closed s h v = v h
on_close_returns-HasEnded waiting s h v =
    elim (Bool-cases (has_ended s.control s.results s.failures)) [
      | inl e ↦ HasEnded-has_ended s e
      | inr e ↦ v (ground arith)
    ]

-- `Close` has returned only if everything has ended.
step_close :
    (e : LifecycleEvent) (s : Lifecycle)
    → (lifecycle_step e s).close ≡ closed
    → (s.close ≡ closed → HasEnded s)
    → HasEnded s
unfolding lifecycle_step on_puts on_round queue_task
step_close (ends n) s h v = v h
step_close (queues tsk sends) s h v = v (ground arith)
step_close (consumes external outs) s h v = v (ground arith)
step_close puts s h v = v (ground arith)
step_close (async_puts c) s h v = v (ground arith)
step_close traces s h v = v (ground arith)
step_close quits s h v = v (ground arith)
step_close (results_step e) s h v = v h
step_close (failures_step e) s h v = v h
step_close closes s h v = v (ground arith)
step_close close_returns s h v = on_close_returns-HasEnded s.close s h v

run_close :
    (es : List LifecycleEvent) (s : Lifecycle)
    → (s.close ≡ closed → HasEnded s)
    → (lifecycle_run es s).close ≡ closed
    → HasEnded (lifecycle_run es s)
unfolding lifecycle_run
run_close [] s v h = v h
run_close (e ∷ es) s v h =
    run_close es (lifecycle_step e s) (λ g. (step-IsFrozen e s (step_close e s g v)).ended) h

-- Whatever happens before `Close` and while it waits: once it has returned, the event loop and both
-- dispatchers have returned and stay so. Whatever happens then, what is left in the channel of the
-- results stays there in its order, and what goroutines of `acquireAsync` still send goes behind it: no
-- result is taken for delivery. The channel of the failures does not change.
pub close_is_final :
    (has_failure_ch : Bool) (es es' : List LifecycleEvent)
    → (lifecycle_run es (started_lifecycle has_failure_ch)).close ≡ closed
    → IsFrozen
        (lifecycle_run es (started_lifecycle has_failure_ch))
        (lifecycle_run es' (lifecycle_run es (started_lifecycle has_failure_ch)))
unfolding started_lifecycle
close_is_final has_failure_ch es es' h =
    run-IsFrozen es' (lifecycle_run es (started_lifecycle has_failure_ch))
      (run_close es (started_lifecycle has_failure_ch) (λ e. cc) h)

-- The event loop has a result to dispatch, its channel is full, and its dispatcher has returned.
pub record IsStuck (c : Context) (rest : List Output) (s : Lifecycle) : Type 0 where
  pub control : s.control ≡ emitting (result c) rest
  pub results : s.results ≡ stopped
  pub full : 128 ≤ length s.results_ch
  pub not_closed : s.close ≢ closed

step-IsStuck :
    (c : Context) (rest : List Output) (e : LifecycleEvent) (s : Lifecycle)
    → IsStuck c rest s
    → IsStuck c rest (lifecycle_step e s)
unfolding lifecycle_step on_puts on_round queue_task
step-IsStuck c rest (ends n) s v = ground arith
step-IsStuck c rest (queues tsk sends) s v = ground arith
step-IsStuck c rest (consumes external outs) s v = ground arith
step-IsStuck c rest puts s v = ground arith
step-IsStuck c rest (async_puts o) s v = ground arith
step-IsStuck c rest traces s v = ground arith
step-IsStuck c rest quits s v = ground arith
step-IsStuck c rest (results_step e) s v = ground (
  arith,
  dispatcher_step-stopped s.is_cancelled (λ c. is_done c s) e s.results s.results_ch v.results,
)
step-IsStuck c rest (failures_step e) s v = ground arith
step-IsStuck c rest closes s v = ground arith
step-IsStuck c rest close_returns s v = ground arith

-- If the dispatcher of results has returned, its channel is full, and the event loop has a result to
-- dispatch, then `Close` never returns, whatever the application and the goroutines do.
pub full_channel_blocks_close :
    (c : Context) (rest : List Output) (es : List LifecycleEvent) (s : Lifecycle)
    → IsStuck c rest s
    → (lifecycle_run es s).close ≢ closed
unfolding lifecycle_run
full_channel_blocks_close c rest [] s v = v.not_closed
full_channel_blocks_close c rest (e ∷ es) s v =
    full_channel_blocks_close c rest es (lifecycle_step e s) (step-IsStuck c rest e s v)
