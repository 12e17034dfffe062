-- ===== src/Store/Soundness/Process.antt =====
-- A round of the event loop keeps the invariant and does not crash.
use dagstore.Shared.{
  All-set, ℕ, suc, ◌+◌, ◌≤◌, ◌<◌, ◌^◌, ◌≡◌, refl, ap, inl, inr, Bool, true, false, Option, some,
  List, [], ◌∷◌, All, length, get_elem?, total, map, arith, All-append, All-get_elem?, total-append,
  length-append, Option-cases,
}
use mathlib.Core.Path.{subst}
use dagstore.Store.Types.{Externals, Task, Shard}
use dagstore.Store.Turn.{Turn}
use dagstore.Store.Async.{started}
use dagstore.Store.System.Defs.{System}
use dagstore.Store.System.Loop.{
  Answers, settle, process, process_external, process_completion, process_next, control_step,
}
use dagstore.Store.Soundness.Measure.{
  task_refs, result_refs, goroutine_refs, holders, refs_at, IsSoundTask, IsSoundShard,
  IsSoundGoroutine,
}
use dagstore.Store.Soundness.Rounds.{handed_out, IsSoundTurn, handle_total}
use dagstore.Store.Soundness.Invariant.{
  IsOrderly, IsOrderly-suc, Inv, total-map-started, All-map-started, get_elem?-set_cases,
  load_at-set,
}

module _ {X : Externals} (a : Answers) (tsk : Task) (d : System X) (s : Shard X) (t : Turn X)
    (at_task : get_elem? d.heap tsk.shard ≡ some s) (turn : IsSoundTurn tsk s t) where
  -- What the turn hands out is added to what was held.
  holders-settle : (r : ℕ) → holders r (settle a tsk t d) ≡ holders r d + handed_out r t
  unfolding holders settle
  holders-settle r = omega (
    arith,
    total-append (task_refs r) d.internal_ch t.staged,
    total-append (result_refs r) d.dispatch_results_ch t.results,
    total-append (goroutine_refs r) d.goroutines (map started t.spawned),
    total-map-started X r t.spawned,
  )

  settle_held :
      ((r : ℕ) → holders r d + task_refs r tsk ≤ refs_at r d.heap)
      → (r : ℕ) → holders r (settle a tsk t d) ≤ refs_at r (settle a tsk t d).heap
  unfolding settle
  settle_held held r = ground (
    arith,
    holders-settle r,
    held r,
    turn.own,
    turn.other r,
    get_elem?-set_cases d.heap tsk.shard t.shard s at_task r,
  )

  settle-IsOrderly : (n : ℕ) → IsOrderly n d → IsOrderly (suc n) (settle a tsk t d)
  unfolding settle
  settle-IsOrderly n o = record {
    loaded = λ r.
        load_at-set d.heap tsk.shard s t.shard at_task (suc n)
          (ground (arith, turn.loaded, o.loaded tsk.shard)) r (omega (arith, o.loaded r));
    external = o.external;
    internal = All-append IsSoundTask d.internal_ch t.staged o.internal turn.sound_staged;
    completion = o.completion;
    goroutines =
        All-append IsSoundGoroutine d.goroutines (map started t.spawned) o.goroutines
          (All-map-started X t.spawned turn.sound_spawned);
    heap = All-set IsSoundShard d.heap tsk.shard t.shard o.heap turn.sound_shard;
  }

-- Each way on from a state is a state that keeps the invariant; there is no crash.
abbrev pub Goes : {X : Externals} → ℕ → Option (System X) → Type 0
Goes {X} n o = (d : System X) × (o ≡ some d) × Inv n d

module _ {X : Externals} (a : Answers) (n : ℕ) (small : n + 1 < 2 ^ 32) where
  -- `d` is the state after the task has left its channel.
  process_total :
      (tsk : Task) (d : System X)
      → ((r : ℕ) → holders r d + task_refs r tsk ≤ refs_at r d.heap)
      → IsOrderly n d
      → IsSoundTask tsk
      → length d.internal_ch ≡ 0
      → Goes (suc n) (process a tsk d)
  unfolding process
  process_total tsk d held o well none_staged = elim (Option-cases (get_elem? d.heap tsk.shard)) [
    | inl gone ↦ (
      d,
      rw (gone, process) refl,
      record {
        held = λ r. omega (arith, held r);
        single = omega (arith, none_staged);
        orderly = IsOrderly-suc o;
      },
    )
    | inr (s, at_task) ↦
        let (t, handled, turn) =
          handle_total d.failure_ch a.removed tsk s d.indices
            (All-get_elem? IsSoundShard d.heap tsk.shard s o.heap at_task) well
            (ground (arith, o.loaded tsk.shard)) in
        (
          settle a tsk t d,
          rw (at_task, process) (rw (handled, process) refl),
          record {
            held = settle_held a tsk d s t at_task turn held;
            single =
                unfold settle in
                omega (arith, turn.one_staged, none_staged, length-append d.internal_ch t.staged);
            orderly = settle-IsOrderly a tsk d s t at_task turn n o;
          },
        )
  ]

  -- Taking a task off its channel.
  process_internal :
      (d : System X) (tsk : Task) (rest : List Task)
      → d.internal_ch ≡ tsk ∷ rest
      → Inv n d
      → Goes (suc n) (process a tsk (record d { internal_ch = rest }))
  unfolding holders
  process_internal d tsk rest e v =
      let tasks = subst (All IsSoundTask) e v.orderly.internal in
      process_total tsk _ (λ r. omega (arith, v.held r, ap (total (task_refs r)) e))
        (record {
          loaded = v.orderly.loaded;
          external = v.orderly.external;
          internal = tasks.1;
          completion = v.orderly.completion;
          goroutines = v.orderly.goroutines;
          heap = v.orderly.heap;
        })
        tasks.0 (omega (arith, v.single, ap length e))

  process_external_total :
      (d : System X) (l : List Task)
      → d.external_ch ≡ l
      → d.internal_ch ≡ []
      → Inv n d
      → Goes (suc n) (process_external a l d)
  unfolding holders
  process_external_total d [] e idle v =
      (d, refl, record { held = v.held; single = v.single; orderly = IsOrderly-suc v.orderly })
  process_external_total d (tsk ∷ rest) e idle v =
      let tasks = subst (All IsSoundTask) e v.orderly.external in
      process_total tsk _ (λ r. omega (arith, v.held r, ap (total (task_refs r)) e))
        (record {
          loaded = v.orderly.loaded;
          external = tasks.1;
          internal = v.orderly.internal;
          completion = v.orderly.completion;
          goroutines = v.orderly.goroutines;
          heap = v.orderly.heap;
        })
        tasks.0 (omega (arith, ap length idle))

  process_completion_total :
      (d : System X) (l : List Task)
      → d.completion_ch ≡ l
      → d.internal_ch ≡ []
      → Inv n d
      → Goes (suc n) (process_completion a l d)
  unfolding holders
  process_completion_total d [] e idle v =
      (d, refl, record { held = v.held; single = v.single; orderly = IsOrderly-suc v.orderly })
  process_completion_total d (tsk ∷ rest) e idle v =
      let tasks = subst (All IsSoundTask) e v.orderly.completion in
      process_total tsk _ (λ r. omega (arith, v.held r, ap (total (task_refs r)) e))
        (record {
          loaded = v.orderly.loaded;
          external = v.orderly.external;
          internal = v.orderly.internal;
          completion = tasks.1;
          goroutines = v.orderly.goroutines;
          heap = v.orderly.heap;
        })
        tasks.0 (omega (arith, ap length idle))

  process_next_total :
      (d : System X) (l : List Task) (external : Bool)
      → d.internal_ch ≡ l
      → Inv n d
      → Goes (suc n) (process_next a external l d)
  process_next_total d (tsk ∷ rest) external e v = process_internal d tsk rest e v
  process_next_total d [] true e v = process_external_total d d.external_ch refl e v
  process_next_total d [] false e v = process_completion_total d d.completion_ch refl e v

  pub control_step_total :
      (external : Bool) (d : System X) → Inv n d → Goes (suc n) (control_step a external d)
  unfolding control_step
  control_step_total external d v = process_next_total d d.internal_ch external refl v
