-- ===== src/Store/Properties/Mirrored/Runs.antt =====
-- dagstore.go: the datastore mirrors the shards through every run of a store that began with no records.
use dagstore.Shared.{
  ℕ, ◌≡◌, refl, sym, ◌∙◌, inl, inr, String, Bool, true, Option, none, some, List, [], ◌∷◌,
  get_elem?, lookup, arith, string_eq, Option-cases, ◌&&◌,
}
use mathlib.Core.Path.{subst}
use mathlib.Core.Option.{some-injective}
use dagstore.ShardKey.{Key, key_eq}
use dagstore.Mount.Registry.{Registry, represent}
use dagstore.Store.Types.{Externals, Task}
use dagstore.Store.Async.{Goroutine}
use dagstore.Store.System.Defs.{System}
use dagstore.Store.System.Calls.{RegisterOpts, register_shard}
use dagstore.Store.System.Gc.{GcAnswers, to_reclaim, gc}
use dagstore.Store.System.Loop.{control_step}
use dagstore.Store.System.Steps.{
  Event, registers, destroys, acquires, recovers, closes, controls, collects, fetches, indexes,
  generates, adds, sends, delivers, delivers_failure, on_fetches, on_indexes, on_generates, on_adds,
  on_sends, at, on_collects, step, run,
}
use dagstore.Store.Properties.Mirrored.{Mirrors}
use dagstore.Store.Properties.Mirrored.Added.{is_free, IsKept, reclaim_all-IsKept}
use dagstore.Store.Properties.Mirrored.Untouched.{
  IsUntouched, on_indexes-IsUntouched, on_adds-IsUntouched, on_sends-IsUntouched,
  deliver-IsUntouched, deliver_failure-IsUntouched, destroy_shard-IsUntouched,
  acquire_shard-IsUntouched, recover_shard-IsUntouched, close_accessor-IsUntouched,
}
use dagstore.Store.Properties.Mirrored.Steps.{
  is_ok, writes, next_channel, process_next-IsKept, register_shard-IsKept, on_fetches-IsKept,
  on_generates-IsKept,
}

module _ {X : Externals} where
  -- A registration that is not refused takes a mount that the registry knows and a datastore key that no
  -- shard has, and a round is no destruction's and its write succeeds.
  unfoldable pub lasts : Event X → System X → Bool
  lasts (registers ctx key mnt out opts alive) d = elim (lookup key d.shards) [
    | some shard ↦ true
    | none ↦ is_ok (represent X.mount mnt d.mounts) && is_free (X.new_key key.str) d.heap
  ]
  lasts (controls a external) d =
      writes a (next_channel external d.internal_ch d.external_ch d.completion_ch)
  lasts e d = true

  unfoldable pub all_last : List (Event X) → System X → Bool
  unfolding step
  all_last [] d = true
  all_last (e ∷ es) d = lasts e d && elim (step e d) [ none ↦ true | some d' ↦ all_last es d' ]

  module _ (mounts : Registry X.Mount) where
    untouched-IsKept : (d d' : System X) → IsUntouched d d' → IsKept mounts d → IsKept mounts d'
    untouched-IsKept d d' u v = (
      u.mounts ∙ v.0,
      subst (λ h. Mirrors mounts h d'.store) (sym u.heap)
          (subst (Mirrors mounts d.heap) (sym u.store) v.1),
    )

    at-IsKept :
        (i : ℕ) (f : Goroutine X → System X → System X) (d : System X)
        → ((g : Goroutine X) → IsKept mounts (f g d))
        → IsKept mounts d
        → IsKept mounts (at f i d)
    at-IsKept i f d h v = elim (Option-cases (get_elem? d.goroutines i)) [
      | inl e ↦ rw (e, at) v
      | inr (g, e) ↦ rw (e, at) (h g)
    ]

    on_collects-IsKept :
        (a : GcAnswers) (l : List Task) (d : System X)
        → d.internal_ch ≡ l
        → IsKept mounts d
        → IsKept mounts (on_collects a d)
    unfolding on_collects gc
    on_collects-IsKept a [] d e v =
        rw (e, on_collects) (reclaim_all-IsKept mounts a (to_reclaim d.heap d.shards) (d, []) v)
    on_collects-IsKept a (t ∷ ts) d e v = rw (e, on_collects) v

    registers-IsKept :
        (ctx : ℕ) (key : Key) (mnt : X.Mount) (out : Option ℕ) (opts : RegisterOpts)
        (alive : String → Bool) (d : System X)
        → lasts (registers ctx key mnt out opts alive) d ≡ true
        → IsKept mounts d
        → IsKept mounts (register_shard ctx key mnt out opts alive d).0
    unfolding lasts register_shard
    registers-IsKept ctx key mnt out opts alive d h v = elim (Option-cases (lookup key d.shards)) [
      | inr (shard, e) ↦ rw (e, register_shard) v
      | inl e ↦
          register_shard-IsKept mounts ctx key mnt out opts alive d (ground arith) (ground arith) v
    ]

    arrives : {d : System X} (d' : System X) → some d ≡ some d' → IsKept mounts d → IsKept mounts d'
    arrives {d = d} d' e v = subst (IsKept mounts) (some-injective d d' e) v

    step-IsKept :
        (e : Event X) (d d' : System X)
        → lasts e d ≡ true
        → step e d ≡ some d'
        → IsKept mounts d
        → IsKept mounts d'
    unfolding step
    step-IsKept (controls a external) d d' h e v =
        unfold lasts control_step in process_next-IsKept mounts a external d.internal_ch d d' h e v
    step-IsKept (registers ctx key mnt out opts alive) d d' h e v =
        arrives d' e (registers-IsKept ctx key mnt out opts alive d h v)
    step-IsKept (destroys ctx key out) d d' h e v =
        arrives d' e (untouched-IsKept d _ (destroy_shard-IsUntouched ctx key out d) v)
    step-IsKept (acquires ctx key out) d d' h e v =
        arrives d' e (untouched-IsKept d _ (acquire_shard-IsUntouched ctx key out d) v)
    step-IsKept (recovers ctx key out) d d' h e v =
        arrives d' e (untouched-IsKept d _ (recover_shard-IsUntouched ctx key out d) v)
    step-IsKept (closes i) d d' h e v =
        arrives d' e (untouched-IsKept d _ (close_accessor-IsUntouched i d) v)
    step-IsKept (collects a) d d' h e v = arrives d' e (on_collects-IsKept a d.internal_ch d refl v)
    step-IsKept (fetches i t reader ctx_err) d d' h e v = arrives d' e (
        at-IsKept i (on_fetches i t reader ctx_err) d
          (λ g. on_fetches-IsKept mounts i t reader ctx_err g d v) v)
    step-IsKept (indexes i ctx_err) d d' h e v = arrives d' e (
        at-IsKept i (on_indexes i ctx_err) d
          (λ g. untouched-IsKept d _ (on_indexes-IsUntouched i ctx_err g d) v) v)
    step-IsKept (generates i t reader idx) d d' h e v = arrives d' e (
        at-IsKept i (on_generates i t reader idx) d
          (λ g. on_generates-IsKept mounts i t reader idx g d v) v)
    step-IsKept (adds i) d d' h e v =
        arrives d' e
          (at-IsKept i (on_adds i) d (λ g. untouched-IsKept d _ (on_adds-IsUntouched i g d) v) v)
    step-IsKept (sends i) d d' h e v =
        arrives d' e
          (at-IsKept i (on_sends i) d (λ g. untouched-IsKept d _ (on_sends-IsUntouched i g d) v) v)
    step-IsKept (delivers dead) d d' h e v =
        arrives d' e (untouched-IsKept d _ (deliver-IsUntouched dead d.dispatch_results_ch d) v)
    step-IsKept delivers_failure d d' h e v =
        arrives d' e (untouched-IsKept d _ (deliver_failure-IsUntouched d.dispatch_failures_ch d) v)

    pub run-IsKept :
        (es : List (Event X)) (d d' : System X)
        → all_last es d ≡ true
        → run es d ≡ some d'
        → IsKept mounts d
        → IsKept mounts d'
    unfolding run all_last
    run-IsKept [] d d' h e v = arrives d' e v
    run-IsKept (x ∷ es) d d' h e v = elim (Option-cases (step x d)) [
      | inl f ↦ absurd (ground arith)
      | inr (d1, f) ↦
          run-IsKept es d1 d' (ground arith) (ground arith) (step-IsKept x d d1 (ground arith) f v)
    ]
