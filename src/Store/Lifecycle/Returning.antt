-- ===== src/Store/Lifecycle/Returning.antt =====
-- dagstore.go: a schedule on which `Close` returns.
use dagstore.Shared.{
  ℕ, suc, ◌+◌, ◌≤◌, ◌<◌, ◌≡◌, refl, sym, Bool, true, false, List, [], ◌∷◌, ◌++◌, length, ltb, arith,
  length-append,
}
use mathlib.Core.Path.{subst}
use dagstore.Store.Types.{Context, background, of_store, caller, Task}
use dagstore.Store.Lifecycle.{
  Output, result, failure, trace, ControlLoop, consuming, emitting, returned, Dispatcher, receiving,
  delivering, stopped, waiting, closed, Lifecycle, gives_up, stops, LifecycleEvent, puts, quits,
  results_step, failures_step, close_returns, among, dispatcher_step, on_puts, after_sends,
  result_count, lifecycle_step, lifecycle_run,
}

-- Some run lets `Close` return.
abbrev pub Returns : Lifecycle → Type 0
Returns s = (es : List LifecycleEvent) × ((lifecycle_run es s).close ≡ closed)

via : (e : LifecycleEvent) (s : Lifecycle) → Returns (lifecycle_step e s) → Returns s
unfolding lifecycle_run
via e s (es, h) = (e ∷ es, h)

-- `ctx.Done` of a store that is being closed.
abbrev pub is_over : List ℕ → Context → Bool
is_over ended background = false
is_over ended of_store = true
is_over ended (caller n) = among n ended

-- What a dispatcher delivers is not waited for.
abbrev pub lets_go : List ℕ → Dispatcher → Bool
lets_go ended (delivering c) = is_over ended c
lets_go ended d = true

-- The failures that a round has left, and whether it has no trace left.
abbrev pub failure_count : List Output → ℕ
failure_count [] = 0
failure_count (failure ∷ rest) = suc (failure_count rest)
failure_count (o ∷ rest) = failure_count rest

abbrev pub trace_free : List Output → Bool
trace_free [] = true
trace_free (trace ∷ rest) = false
trace_free (o ∷ rest) = trace_free rest

-- What the event loop still has to send.
abbrev pub left_of : ControlLoop → List Output
left_of (emitting o outs) = o ∷ outs
left_of control = []

module _ (ended : List ℕ) (external : List Task) (owed : ℕ) where
  -- A store that is being closed.
  abbrev closing : ControlLoop → List Context → List Context → Dispatcher → Dispatcher → Lifecycle
  closing control results_ch failures_ch results failures = record {
    is_cancelled = true;
    ended = ended;
    external_ch = external;
    control = control;
    results_ch = results_ch;
    failures_ch = failures_ch;
    results = results;
    failures = failures;
    owed = owed;
    close = waiting;
  }

  all_ended : (rch fch : List Context) → Returns (closing returned rch fch stopped stopped)
  unfolding lifecycle_run lifecycle_step
  all_ended rch fch = (close_returns ∷ [], refl)

  gives_up_failure :
      (rch fch : List Context) (c : Context)
      → is_over ended c ≡ true
      → lifecycle_step (failures_step gives_up) (closing returned rch fch stopped (delivering c))
        ≡ closing returned rch fch stopped receiving
  unfolding lifecycle_step dispatcher_step
  gives_up_failure rch fch background h = cc
  gives_up_failure rch fch of_store h = refl
  gives_up_failure rch fch (caller n) h = rw h refl

  gives_up_result :
      (rch fch : List Context) (c : Context) (d : Dispatcher)
      → is_over ended c ≡ true
      → lifecycle_step (results_step gives_up) (closing returned rch fch (delivering c) d)
        ≡ closing returned rch fch receiving d
  unfolding lifecycle_step dispatcher_step
  gives_up_result rch fch background d h = cc
  gives_up_result rch fch of_store d h = refl
  gives_up_result rch fch (caller n) d h = rw h refl

  failures_end :
      (rch fch : List Context) (d : Dispatcher)
      → lets_go ended d ≡ true
      → Returns (closing returned rch fch stopped d)
  unfolding lifecycle_run lifecycle_step dispatcher_step
  failures_end rch fch stopped h = all_ended rch fch
  failures_end rch fch receiving h =
      via (failures_step stops) (closing returned rch fch stopped receiving) (all_ended rch fch)
  failures_end rch fch (delivering c) h =
      via (failures_step gives_up) (closing returned rch fch stopped (delivering c)) (
        subst Returns (sym (gives_up_failure rch fch c h)) (
          via (failures_step stops) (closing returned rch fch stopped receiving)
            (all_ended rch fch)))

  results_end :
      (rch fch : List Context) (r d : Dispatcher)
      → lets_go ended r ≡ true
      → lets_go ended d ≡ true
      → Returns (closing returned rch fch r d)
  unfolding lifecycle_run lifecycle_step dispatcher_step
  results_end rch fch stopped d g h = failures_end rch fch d h
  results_end rch fch receiving d g h =
      via (results_step stops) (closing returned rch fch receiving d) (failures_end rch fch d h)
  results_end rch fch (delivering c) d g h =
      via (results_step gives_up) (closing returned rch fch (delivering c) d) (
        subst Returns (sym (gives_up_result rch fch c d g)) (
          via (results_step stops) (closing returned rch fch receiving d)
            (failures_end rch fch d h)))

  module _ (r d : Dispatcher) (r_over : lets_go ended r ≡ true)
      (d_over : lets_go ended d ≡ true) where
    put_result :
        (rch fch : List Context) (c : Context) (rest : List Output)
        → length rch < 128
        → lifecycle_step puts (closing (emitting (result c) rest) rch fch r d)
          ≡ closing (after_sends rest) (rch ++ c ∷ []) fch r d
    unfolding lifecycle_step on_puts
    put_result rch fch c rest h = rw (room) refl
      where
        room : ltb (length rch) 128 ≡ true
        room = ground arith

    put_failure :
        (rch fch : List Context) (rest : List Output)
        → length fch < 128
        → lifecycle_step puts (closing (emitting failure rest) rch fch r d)
          ≡ closing (after_sends rest) rch (fch ++ of_store ∷ []) r d
    unfolding lifecycle_step on_puts
    put_failure rch fch rest h = rw (room) refl
      where
        room : ltb (length fch) 128 ≡ true
        room = ground arith

    drained :
        (outs : List Output) (rch fch : List Context)
        → trace_free outs ≡ true
        → result_count outs + length rch ≤ 128
        → failure_count outs + length fch ≤ 128
        → Returns (closing (after_sends outs) rch fch r d)
    unfolding lifecycle_step
    drained [] rch fch h fits fits' =
        via quits (closing consuming rch fch r d) (results_end rch fch r d r_over d_over)
    drained (result c ∷ rest) rch fch h fits fits' =
        via puts (closing (emitting (result c) rest) rch fch r d) (
          subst Returns (sym (put_result rch fch c rest (omega arith)))
            (drained rest (rch ++ c ∷ []) fch h (omega (arith, length-append rch (c ∷ []))) fits'))
    drained (failure ∷ rest) rch fch h fits fits' =
        via puts (closing (emitting failure rest) rch fch r d) (
          subst Returns (sym (put_failure rch fch rest (omega arith))) (
            drained rest rch (fch ++ of_store ∷ []) h fits
              (omega (arith, length-append fch (of_store ∷ [])))))
    drained (trace ∷ rest) rch fch h fits fits' = cc

    from_control :
        (control : ControlLoop) (rch fch : List Context)
        → trace_free (left_of control) ≡ true
        → result_count (left_of control) + length rch ≤ 128
        → failure_count (left_of control) + length fch ≤ 128
        → Returns (closing control rch fch r d)
    unfolding lifecycle_step
    from_control consuming rch fch h fits fits' = drained [] rch fch h fits fits'
    from_control returned rch fch h fits fits' = results_end rch fch r d r_over d_over
    from_control (emitting o outs) rch fch h fits fits' = drained (o ∷ outs) rch fch h fits fits'

pub close_can_return :
    (s : Lifecycle)
    → s.is_cancelled ≡ true
    → s.close ≡ waiting
    → trace_free (left_of s.control) ≡ true
    → result_count (left_of s.control) + length s.results_ch ≤ 128
    → failure_count (left_of s.control) + length s.failures_ch ≤ 128
    → lets_go s.ended s.results ≡ true
    → lets_go s.ended s.failures ≡ true
    → Returns s
close_can_return s cancelled call quiet fits fits' r_over d_over =
    subst (λ b. Returns (record s { is_cancelled = b })) (sym cancelled)
      (subst (λ k. Returns (record s { is_cancelled = true; close = k })) (sym call)
        (from_control s.ended s.external_ch s.owed s.results s.failures r_over d_over s.control
          s.results_ch s.failures_ch quiet fits fits'))
