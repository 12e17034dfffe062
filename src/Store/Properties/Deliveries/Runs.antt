-- ===== src/Store/Properties/Deliveries/Runs.antt =====
-- Over a whole run, no more results are delivered than calls asked for.
use dagstore.Shared.{
  ℕ, ◌+◌, ◌≤◌, ◌≡◌, refl, sym, ap, ◌∙◌, inl, inr, true, false, none, some, List, [], ◌∷◌, total,
  arith, Option-cases,
}
use mathlib.Core.Option.{some-injective}
use dagstore.Store.Types.{Externals}
use dagstore.Store.System.Defs.{System}
use dagstore.Store.System.Steps.{
  Event, registers, destroys, acquires, recovers, closes, controls, collects, fetches, indexes,
  generates, adds, sends, delivers, delivers_failure, step, run, on_fetches, on_indexes,
  on_generates, on_adds, on_sends,
}
use dagstore.Store.Properties.Deliveries.{due, asked, delivered, deliveries}
use dagstore.Store.Properties.Deliveries.Rounds.{due-control_step}
use dagstore.Store.Properties.Deliveries.Moves.{
  due-at, due-on_fetches, due-on_indexes, due-on_generates, due-on_adds, due-on_sends,
}
use dagstore.Store.Properties.Deliveries.Calls.{
  due-register_shard, due-destroy_shard, due-acquire_shard, due-recover_shard, due-close_accessor,
  due-deliver, due-deliver_dead, due-deliver_failure, due-on_collects,
}

module _ (f : ℕ → ℕ) {X : Externals} where
  abbrev IsPaid : Event X → System X → System X → Type 0
  IsPaid e d d' = due f d' + delivered f e d ≤ due f d + asked f e

  returned-IsPaid :
      (e : Event X) (made d d' : System X) → some made ≡ some d' → IsPaid e d made → IsPaid e d d'
  returned-IsPaid e made d d' h p = omega (arith, p, ap (due f) (some-injective made d' h))

  step-IsPaid : (e : Event X) (d d' : System X) → step e d ≡ some d' → IsPaid e d d'
  unfolding step
  step-IsPaid (registers ctx key mnt out opts alive) d d' h =
      returned-IsPaid (registers ctx key mnt out opts alive) _ d d' h
        (omega (arith, due-register_shard f ctx key mnt out opts alive d))
  step-IsPaid (destroys ctx key out) d d' h =
      returned-IsPaid (destroys ctx key out) _ d d' h
        (omega (arith, due-destroy_shard f ctx key out d))
  step-IsPaid (acquires ctx key out) d d' h =
      returned-IsPaid (acquires ctx key out) _ d d' h
        (omega (arith, due-acquire_shard f ctx key out d))
  step-IsPaid (recovers ctx key out) d d' h =
      returned-IsPaid (recovers ctx key out) _ d d' h
        (omega (arith, due-recover_shard f ctx key out d))
  step-IsPaid (closes i) d d' h =
      returned-IsPaid (closes i) _ d d' h (omega (arith, due-close_accessor f i d))
  step-IsPaid (controls a external) d d' h = omega (arith, due-control_step f a external d d' h)
  step-IsPaid (collects a) d d' h =
      returned-IsPaid (collects a) _ d d' h (omega (arith, due-on_collects f a d))
  step-IsPaid (fetches i t reader e) d d' h = returned-IsPaid (fetches i t reader e) _ d d' h (
      omega (
        arith,
        due-at f i (on_fetches i t reader e) d (λ g p. due-on_fetches f i t reader e g d p),
      ))
  step-IsPaid (indexes i e) d d' h =
      returned-IsPaid (indexes i e) _ d d' h
        (omega (arith, due-at f i (on_indexes i e) d (λ g p. due-on_indexes f i e g d p)))
  step-IsPaid (generates i t reader idx) d d' h =
      returned-IsPaid (generates i t reader idx) _ d d' h (
        omega (
          arith,
          due-at f i (on_generates i t reader idx) d
              (λ g p. due-on_generates f i t reader idx g d p),
        ))
  step-IsPaid (adds i) d d' h =
      returned-IsPaid (adds i) _ d d' h
        (omega (arith, due-at f i (on_adds i) d (λ g p. due-on_adds f i g d p)))
  step-IsPaid (sends i) d d' h =
      returned-IsPaid (sends i) _ d d' h
        (omega (arith, due-at f i (on_sends i) d (λ g p. due-on_sends f i g d p)))
  step-IsPaid (delivers true) d d' h =
      returned-IsPaid (delivers true) _ d d' h
        (omega (arith, due-deliver_dead f d.dispatch_results_ch d refl))
  step-IsPaid (delivers false) d d' h =
      returned-IsPaid (delivers false) _ d d' h
        (omega (arith, due-deliver f d.dispatch_results_ch d refl))
  step-IsPaid delivers_failure d d' h =
      returned-IsPaid delivers_failure _ d d' h
        (omega (arith, due-deliver_failure f d.dispatch_failures_ch d))

  deliveries_next :
      (e : Event X) (es : List (Event X)) (d d' : System X)
      → step e d ≡ some d'
      → deliveries f (e ∷ es) d ≡ delivered f e d + deliveries f es d'
  unfolding deliveries
  deliveries_next e es d d' h = rw (h, deliveries) refl

  -- Whatever happens in a run that does not crash, and in whatever order: on every channel, the results
  -- that the dispatcher delivers and those that are still due are no more than those that were due before
  -- and the calls that were made with the channel. Channels can be counted alone or together: `f` is the
  -- weight of each.
  pub answered_at_most_once :
      (es : List (Event X)) (d d' : System X)
      → run es d ≡ some d'
      → deliveries f es d + due f d' ≤ due f d + total (asked f) es
  unfolding run deliveries
  answered_at_most_once [] d d' h = omega (arith, ap (due f) (some-injective d d' h))
  answered_at_most_once (e ∷ es) d d' h = elim (Option-cases (step e d)) [
    | inl crash ↦ let stopped : run (e ∷ es) d ≡ none = rw (crash, run) refl in cc
    | inr (d₁, stepped) ↦
        let rest : run (e ∷ es) d ≡ run es d₁ = rw (stepped, run) refl in
        let paid : IsPaid e d d₁ = step-IsPaid e d d₁ stepped in
        omega (
          arith,
          paid,
          deliveries_next e es d d₁ stepped,
          answered_at_most_once es d₁ d' (sym rest ∙ h),
        )
  ]
