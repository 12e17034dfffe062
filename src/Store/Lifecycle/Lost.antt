-- ===== src/Store/Lifecycle/Lost.antt =====
-- dagstore.go: `queueTask` once the event loop has returned.
use dagstore.Shared.{
  ℕ, zero, suc, ◌<◌, ◌≡◌, ap, ◌∙◌, ◌⊎◌, Bool, true, Option, none, some, List, [], ◌∷◌, ◌++◌, length,
  arith, inl, inr, get_elem?, get_elem?-append_last, Option-cases,
}
use dagstore.Error.{Error}
use dagstore.Store.Types.{Task}
use dagstore.Store.Lifecycle.{
  returned, Lifecycle, LifecycleEvent, ends, queues, consumes, puts, traces, quits, async_puts,
  results_step, failures_step, closes, close_returns, queue_task, on_round, on_puts, lifecycle_step,
  lifecycle_run,
}

append_keeps :
    (l : List Task) (v t : Task) (i : ℕ)
    → get_elem? l i ≡ some t
    → get_elem? (l ++ v ∷ []) i ≡ some t
append_keeps [] v t i e = cc
append_keeps (x ∷ l) v t zero e = e
append_keeps (x ∷ l) v t (suc i) e = append_keeps l v t i e

-- `queueTask` adds the task at the end, or nothing.
queue_task_lem :
    (b sends : Bool) (room : ℕ) (tsk : Task) (ch ch' : List Task) (e : Option Error)
    → queue_task b sends room tsk ch ≡ some (ch', e)
    → ((e ≡ none) × (ch' ≡ ch ++ tsk ∷ [])) ⊎ (ch' ≡ ch)
unfolding queue_task
queue_task_lem b sends room tsk ch ch' e h = ground arith

queues_keep :
    (tsk : Task) (sends : Bool) (s : Lifecycle) (t : Task) (i : ℕ)
    → get_elem? s.external_ch i ≡ some t
    → get_elem? (lifecycle_step (queues tsk sends) s).external_ch i ≡ some t
unfolding lifecycle_step
queues_keep tsk sends s t i h =
    elim (Option-cases (queue_task s.is_cancelled sends 128 tsk s.external_ch)) [
      | inl e ↦ rw (e, lifecycle_step) h
      | inr ((ch, x), e) ↦
          rw (e, lifecycle_step)
            (elim (queue_task_lem s.is_cancelled sends 128 tsk s.external_ch ch x e) [
              | inl (ok, longer) ↦
                  ap (λ l. get_elem? l i) longer ∙ append_keeps s.external_ch tsk t i h
              | inr same ↦ ap (λ l. get_elem? l i) same ∙ h
            ])
    ]

queues_control :
    (tsk : Task) (sends : Bool) (s : Lifecycle)
    → (lifecycle_step (queues tsk sends) s).control ≡ s.control
unfolding lifecycle_step
queues_control tsk sends s = ground arith

step_keeps :
    (e : LifecycleEvent) (s : Lifecycle) (t : Task) (i : ℕ)
    → s.control ≡ returned
    → get_elem? s.external_ch i ≡ some t
    → ((lifecycle_step e s).control ≡ returned)
      × (get_elem? (lifecycle_step e s).external_ch i ≡ some t)
unfolding lifecycle_step on_puts on_round
step_keeps (queues tsk sends) s t i c h =
    (queues_control tsk sends s ∙ c, queues_keep tsk sends s t i h)
step_keeps (ends n) s t i c h = (c, h)
step_keeps (consumes external outs) s t i c h = ground arith
step_keeps puts s t i c h = ground arith
step_keeps (async_puts v) s t i c h = ground arith
step_keeps traces s t i c h = ground arith
step_keeps quits s t i c h = ground arith
step_keeps (results_step e) s t i c h = (c, h)
step_keeps (failures_step e) s t i c h = (c, h)
step_keeps closes s t i c h = (c, h)
step_keeps close_returns s t i c h = ground arith

run_keeps :
    (es : List LifecycleEvent) (s : Lifecycle) (t : Task) (i : ℕ)
    → s.control ≡ returned
    → get_elem? s.external_ch i ≡ some t
    → get_elem? (lifecycle_run es s).external_ch i ≡ some t
unfolding lifecycle_run
run_keeps [] s t i c h = h
run_keeps (e ∷ es) s t i c h =
    let (c', h') = step_keeps e s t i c h in run_keeps es (lifecycle_step e s) t i c' h'

-- Once the event loop has returned, a call that queues a task can still succeed, if the channel has room:
-- `queueTask` returns no error. Then no step ever takes the task off the channel.
pub accepted_is_lost :
    (tsk : Task) (s : Lifecycle)
    → s.control ≡ returned
    → length s.external_ch < 128
    → (ch : List Task) × (queue_task s.is_cancelled true 128 tsk s.external_ch ≡ some (ch, none))
      × ((es : List LifecycleEvent)
          → get_elem?
              (lifecycle_run es (record s { external_ch = ch })).external_ch
              (length s.external_ch)
            ≡ some tsk)
unfolding queue_task
accepted_is_lost tsk s c room = (
  s.external_ch ++ tsk ∷ [],
  ground arith,
  λ es.
      run_keeps es (record s { external_ch = s.external_ch ++ tsk ∷ [] }) tsk (length s.external_ch)
        c (get_elem?-append_last s.external_ch tsk),
)
