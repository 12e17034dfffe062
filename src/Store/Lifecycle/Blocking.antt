-- ===== src/Store/Lifecycle/Blocking.antt =====
-- dispatcher.go, dagstore_control.go: a run of the store in which `Close` is never able to return.
use dagstore.Shared.{
  ℕ, ◌-◌, suc, ◌+◌, ◌≤◌, ◌<◌, ◌≡◌, ◌≢◌, refl, sym, ap, ◌∙◌, Bool, false, Option, true, some, none,
  List, [], ◌∷◌, ◌++◌, map, length, ltb, if◌then◌else◌, arith, inl, inr, length-append, Bool-cases,
}
use dagstore.ShardState.{initializing}
use dagstore.Store.Types.{Externals, Context, Waiter, Task, Shard, Dispatch, ShardResult}
use mathlib.Core.Path.{subst}
use dagstore.Error.{wrapped, failed_to_register, failed_to_recover, failed_to_acquire}
use dagstore.Store.Turn.{Turn, dispatch_result, dispatch_to, failed_with}
use dagstore.Store.Control.{on_acquire, on_fail}
use dagstore.Store.Lifecycle.{
  Output, result, failure, trace, consuming, emitting, receiving, closed, not_called, Lifecycle,
  stops, LifecycleEvent, consumes, puts, results_step, closes, after_sends, dispatcher_step,
  on_puts, on_round, result_count, lifecycle_step, lifecycle_run,
}
use dagstore.Store.Lifecycle.Closing.{IsStuck, full_channel_blocks_close}

-- From some run on, `Close` does not return in any.
abbrev pub NeverCloses : Lifecycle → Type 0
NeverCloses s =
    (es : List LifecycleEvent) × ((es' : List LifecycleEvent)
      → (lifecycle_run es' (lifecycle_run es s)).close ≢ closed)

via : (e : LifecycleEvent) (s : Lifecycle) → NeverCloses (lifecycle_step e s) → NeverCloses s
unfolding lifecycle_run
via e s (es, h) = (e ∷ es, h)

-- A store that nobody has closed, with the dispatcher of results at its `select`.
record IsOpen (s : Lifecycle) : Type 0 where
  results : s.results ≡ receiving
  close : s.close ≡ not_called

module _ (rest : List Output) where
  -- The store is closed, and the dispatcher returns.
  blocked :
      (c : Context) (outs : List Output) (s : Lifecycle)
      → IsOpen s
      → s.control ≡ emitting (result c) outs
      → 128 ≤ length s.results_ch
      → NeverCloses s
  unfolding lifecycle_run lifecycle_step dispatcher_step
  blocked c outs s v h full =
      let called = lifecycle_step closes s in
      let over = lifecycle_step (results_step stops) called in
      let stuck : IsStuck c outs over = record {
        control = ground arith;
        results = ground arith;
        full = ground arith;
        not_closed = λ e. ground arith;
      } in
      via closes s
        (via (results_step stops) called ([], λ es. full_channel_blocks_close c outs es over stuck))

  -- The channel fills.
  filled :
      (cs : List Context) (s : Lifecycle)
      → IsOpen s
      → s.control ≡ after_sends (map result cs ++ rest)
      → length s.results_ch ≤ 128
      → 128 < length s.results_ch + length cs
      → NeverCloses s
  unfolding lifecycle_step on_puts
  filled [] s v h few many = absurd (omega arith)
  filled (c ∷ cs) s v h few many = elim (Bool-cases (ltb (length s.results_ch) 128)) [
    | inr e ↦ blocked c (map result cs ++ rest) s v h (ground arith)
    | inl e ↦
        let next = record s {
          control = after_sends (map result cs ++ rest);
          results_ch = s.results_ch ++ c ∷ [];
        } in
        let put : lifecycle_step puts s ≡ next = rw (h, lifecycle_step) (rw e refl) in
        let longer = length-append s.results_ch (c ∷ []) in
        via puts s (
          filled cs (lifecycle_step puts s)
            (record {
              results = ap (λ (x : Lifecycle). x.results) put ∙ v.results;
              close = ap (λ (x : Lifecycle). x.close) put ∙ v.close;
            })
            (ap (λ (x : Lifecycle). x.control) put) (ground (arith, put, longer))
            (ground (arith, put, longer)))
  ]

result_count-map :
    (cs : List Context) (rest : List Output)
    → result_count (map result cs ++ rest) ≡ length cs + result_count rest
result_count-map [] rest = omega arith
result_count-map (c ∷ cs) rest = omega (arith, result_count-map cs rest)

module _ {X : Externals} where
  -- What a round sends: its results, its failures and, where the application listens, a trace.
  unfoldable pub round_sends : (traces : Bool) → Turn X → List Output
  round_sends traces t =
      map (λ (r : Dispatch X). result r.w.ctx) t.results
      ++ (map (λ (r : Dispatch X). failure) t.failures ++ (if traces then trace ∷ [] else []))

  -- The acquisitions of a list of callers, each with a channel, one round after the other.
  unfoldable pub acquisitions : List (Context × ℕ) → Task → Shard X → X.Repo → Shard X × X.Repo
  unfolding on_acquire
  acquisitions [] acq s repo = (s, repo)
  acquisitions ((c, ch) ∷ calls) acq s repo =
      let w : Waiter = record { ctx = c; out_ch = some ch; notify_dead = none } in
      let t = on_acquire w acq s repo in acquisitions calls acq t.shard t.indices

  abbrev contexts : List (Dispatch X) → List Context
  contexts [] = []
  contexts (r ∷ rs) = r.w.ctx ∷ contexts rs

  contexts_lem :
      (rs : List (Dispatch X))
      → map (λ (r : Dispatch X). result r.w.ctx) rs ≡ map result (contexts rs)
  contexts_lem [] = refl
  contexts_lem (r ∷ rs) = ap (λ l. result r.w.ctx ∷ l) (contexts_lem rs)

  length-contexts : (rs : List (Dispatch X)) → length (contexts rs) ≡ length rs
  length-contexts [] = refl
  length-contexts (r ∷ rs) = ap suc (length-contexts rs)

  length-dispatch_result :
      (res : ShardResult X) (ws : List Waiter) (c : Context) (ch : ℕ)
      → length (
          dispatch_result res (ws ++ record { ctx = c; out_ch = some ch; notify_dead = none } ∷ []))
        ≡ suc (length (dispatch_result res ws))
  length-dispatch_result res [] c ch = refl
  length-dispatch_result res (w ∷ ws) c ch =
      let later = length-dispatch_result res ws c ch in ground arith

  on_acquire-parked :
      (w : Waiter) (acq : Task) (s : Shard X) (repo : X.Repo)
      → s.state ≡ initializing
      → (on_acquire w acq s repo).shard ≡ record s {
        w_acquire =
            s.w_acquire ++ record { ctx = w.ctx; out_ch = w.out_ch; notify_dead = none } ∷ [];
      }
  unfolding on_acquire
  on_acquire-parked w acq s repo h = rw h refl

  acquisitions-parked :
      (calls : List (Context × ℕ)) (acq : Task) (s : Shard X) (repo : X.Repo) (res : ShardResult X)
      → s.state ≡ initializing
      → length (dispatch_result res (acquisitions calls acq s repo).0.w_acquire)
        ≡ length (dispatch_result res s.w_acquire) + length calls
  unfolding acquisitions
  acquisitions-parked [] acq s repo res h = omega arith
  acquisitions-parked ((c, ch) ∷ calls) acq s repo res h =
      let w : Waiter = record { ctx = c; out_ch = some ch; notify_dead = none } in
      let t = on_acquire w acq s repo in
      let one = on_acquire-parked w acq s repo h in
      let later =
        acquisitions-parked calls acq t.shard t.indices res
          (ap (λ (x : Shard X). x.state) one ∙ h) in
      let here =
        ap (λ (x : Shard X). length (dispatch_result res x.w_acquire)) one
        ∙ length-dispatch_result res s.w_acquire c ch in
      omega arith

  on_fail-answers :
      (fch : Option ℕ) (tsk : Task) (s : Shard X) (repo : X.Repo) (n : ℕ)
      → ((res : ShardResult X) → n ≤ length (dispatch_result res s.w_acquire))
      → n ≤ length (on_fail fch tsk s repo).results
  unfolding on_fail
  on_fail-answers fch tsk s repo n h =
      let e = wrapped tsk.err in
      let r = dispatch_to (failed_with s (failed_to_register e)) s.w_register in
      let v = dispatch_to (failed_with s (failed_to_recover e)) s.w_recover in
      let a = dispatch_result (failed_with s (failed_to_acquire e)) s.w_acquire in
      omega (
        arith,
        length-append r (v ++ a),
        length-append v a,
        h (failed_with s (failed_to_acquire e)),
      )

  result_count-failures :
      (fs : List (Dispatch X)) (traces : Bool)
      → result_count (map (λ (r : Dispatch X). failure) fs ++ (if traces then trace ∷ [] else []))
        ≡ 0
  result_count-failures [] true = refl
  result_count-failures [] false = refl
  result_count-failures (f ∷ fs) traces = result_count-failures fs traces

  -- More than 128 callers acquire a shard while it is initializing, and then the initialization fails.
  -- If nobody has closed the store when the event loop takes the failure, its dispatcher of results waits
  -- for one, the channel of the results has at most its 128, and as many calls have been taken without an
  -- answer as the failure has results, then there is a run from that round on such that `Close` returns in
  -- no run that follows, whatever the application receives there and whichever contexts end.
  pub failed_round_blocks_close :
      (calls : List (Context × ℕ)) (acq fails : Task) (fch : Option ℕ) (traces : Bool) (s : Shard X)
      (repo : X.Repo) (l : Lifecycle)
      → s.state ≡ initializing
      → 128 < length calls
      → l.control ≡ consuming
      → l.results ≡ receiving
      → l.close ≡ not_called
      → length l.results_ch ≤ 128
      → let (s', repo') = acquisitions calls acq s repo in
        length (on_fail fch fails s' repo').results ≤ l.owed
        → NeverCloses
            (lifecycle_step (consumes false (round_sends traces (on_fail fch fails s' repo'))) l)
  unfolding lifecycle_step round_sends on_round
  failed_round_blocks_close calls acq fails fch traces s repo l h many control results close few
        owed =
      let (s', repo') = acquisitions calls acq s repo in
      let t = on_fail fch fails s' repo' in
      let rest =
        map (λ (r : Dispatch X). failure) t.failures ++ (if traces then trace ∷ [] else []) in
      let sends = round_sends traces t in
      let cs = contexts t.results in
      let count : result_count sends ≡ length t.results = ground (
        arith,
        ap (λ l. result_count (l ++ rest)) (contexts_lem t.results),
        result_count-map cs rest,
        result_count-failures t.failures traces,
        length-contexts t.results,
      ) in
      let l' = record l { control = after_sends sends; owed = l.owed - result_count sends } in
      let enough_owed : ltb l.owed (result_count sends) ≡ false = ground (arith, count) in
      let taken : lifecycle_step (consumes false sends) l ≡ l' =
        rw (control, lifecycle_step) (rw (enough_owed, on_round) refl) in
      let these : sends ≡ map result cs ++ rest = ap (λ x. x ++ rest) (contexts_lem t.results) in
      let enough =
        on_fail-answers fch fails s' repo' (length calls)
          (λ res. omega (arith, acquisitions-parked calls acq s repo res h)) in
      subst NeverCloses (sym (taken ∙ ap (λ x. record l' { control = after_sends x }) these)) (
        filled rest cs (record l' { control = after_sends (map result cs ++ rest) })
          (record { results = results; close = close }) refl few
          (omega (arith, length-contexts t.results)))
