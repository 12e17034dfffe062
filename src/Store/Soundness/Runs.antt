-- ===== src/Store/Soundness/Runs.antt =====
-- Every run of the store goes on, and keeps the invariant.
use dagstore.Shared.{ℕ, suc, ◌+◌, ◌<◌, ◌^◌, refl, some, List, [], ◌∷◌, length, arith}
use native.Mathlib.Nat.{add-zero, add-suc, suc-add}
use dagstore.Store.Types.{Externals}
use dagstore.Store.System.Defs.{System}
use dagstore.Store.System.Steps.{Event, step, run}
use dagstore.Store.Soundness.Invariant.{Inv, IsOrderly-suc}
use dagstore.Store.Soundness.Process.{Goes, control_step_total}
use dagstore.Store.Soundness.Calls.{
  register_shard-Inv, destroy_shard-Inv, acquire_shard-Inv, recover_shard-Inv, close_accessor-Inv,
}
use dagstore.Store.Soundness.Delivery.{deliver-Inv, deliver_failure-Inv}
use dagstore.Store.Soundness.Moves.{
  at-Inv, on_fetches-Inv, on_indexes-Inv, on_generates-Inv, on_adds-Inv, on_sends-Inv,
}
use dagstore.Store.Soundness.Collection.{on_collects-Inv}
use dagstore.Store.System.Steps.{
  registers, destroys, acquires, recovers, closes, controls, collects, fetches, indexes, generates,
  adds, sends, delivers, delivers_failure, on_fetches, on_indexes, on_generates, on_adds, on_sends,
}

module _ {X : Externals} where
  Inv-suc : {n : ℕ} {d : System X} → Inv n d → Inv (suc n) d
  Inv-suc v = record { held = v.held; single = v.single; orderly = IsOrderly-suc v.orderly }

  quietly : {n : ℕ} {d : System X} → Inv n d → Goes (suc n) (some d)
  quietly {d = d} v = (d, refl, Inv-suc v)

  pub step_total :
      (n : ℕ) (e : Event X) (d : System X) → n + 1 < 2 ^ 32 → Inv n d → Goes (suc n) (step e d)
  unfolding step
  step_total n (registers ctx key mnt out opts alive) d h v =
      quietly (register_shard-Inv ctx key mnt out opts alive d v)
  step_total n (destroys ctx key out) d h v = quietly (destroy_shard-Inv ctx key out d v)
  step_total n (acquires ctx key out) d h v = quietly (acquire_shard-Inv ctx key out d v)
  step_total n (recovers ctx key out) d h v = quietly (recover_shard-Inv ctx key out d v)
  step_total n (closes i) d h v = quietly (close_accessor-Inv i d v)
  step_total n (controls a external) d h v = control_step_total a n h external d v
  step_total n (collects a) d h v = quietly (on_collects-Inv a d v)
  step_total n (fetches i t reader ctx_err) d h v = quietly (
      at-Inv i (on_fetches i t reader ctx_err) d
        (λ g e p. on_fetches-Inv i t reader ctx_err g d e p v) v)
  step_total n (indexes i ctx_err) d h v =
      quietly (at-Inv i (on_indexes i ctx_err) d (λ g e p. on_indexes-Inv i ctx_err g d e p v) v)
  step_total n (generates i t reader idx) d h v = quietly (
      at-Inv i (on_generates i t reader idx) d (λ g e p. on_generates-Inv i t reader idx g d e v) v)
  step_total n (adds i) d h v = quietly (at-Inv i (on_adds i) d (λ g e p. on_adds-Inv i g d e v) v)
  step_total n (sends i) d h v =
      quietly (at-Inv i (on_sends i) d (λ g e p. on_sends-Inv i g d e p v) v)
  step_total n (delivers dead) d h v = quietly (deliver-Inv d dead d.dispatch_results_ch refl v)
  step_total n delivers_failure d h v = quietly (deliver_failure-Inv d d.dispatch_failures_ch v)

  -- Whatever the callers, the goroutines and the outside world do, in whatever order: in less than
  -- 2 ^ 32 steps the event loop never crashes, and the invariant holds.
  pub run_total :
      (n : ℕ) (es : List (Event X)) (d : System X)
      → n + length es < 2 ^ 32
      → Inv n d
      → Goes (n + length es) (run es d)
  unfolding run
  run_total n [] d h v = (d, refl, rw (add-zero n) v)
  run_total n (e ∷ es) d h v =
      let (d', stepped, v') = step_total n e d (omega arith) v in
      let (d'', ran, v'') = run_total (suc n) es d' (omega arith) v' in
      (d'', rw (stepped, run) ran, rw (add-suc n (length es), ← suc-add n (length es)) v'')
