-- ===== src/Store/Properties/Deliveries/Rounds.antt =====
-- dagstore_control.go: a round of the event loop owes no result that was not due.
use dagstore.Shared.{
  ℕ, ◌+◌, ◌≤◌, ◌≡◌, refl, ap, inl, inr, Bool, true, false, Option, none, some, List, [], ◌∷◌, map,
  total, get_elem?, arith, total-append, total-set,
}
use mathlib.Core.Path.{subst}
use mathlib.Core.Option.{some-injective}
use dagstore.Error.{Error}
use dagstore.Store.Types.{
  Externals, Waiter, OpType, register, initialize, make_available, destroy, acquire, fail, release,
  recover, Task, Shard,
}
use dagstore.Store.Turn.{Spawn, acquire_async, initialize_shard, Turn, succeeded}
use dagstore.Store.Async.{started}
use dagstore.Store.Control.{
  dispatch_op, on_register, on_initialize, on_make_available, on_acquire, on_release, on_fail,
  on_recover, on_destroy, handle,
}
use dagstore.Store.System.Defs.{System}
use dagstore.Store.System.Loop.{
  Answers, settle, process, process_external, process_completion, process_next, control_step,
}
use dagstore.Store.Properties.Answers.{
  owed, owed_to, owed_by_spawn, parked, brought, left, owed-dispatch_to, left-on_acquire,
  left-on_release, left-on_destroy, left-on_initialize, left-on_fail, left-on_make_available,
}
use dagstore.Store.Properties.Round.{process_cases}
use dagstore.Store.Properties.Deliveries.{task_owed, result_owed, goroutine_owed, due}

module _ (f : ℕ → ℕ) (X : Externals) where
  owed-started :
      (l : List Spawn)
      → total (goroutine_owed f {X = X}) (map started l) ≡ total (owed_by_spawn f) l
  owed-started [] = refl
  owed-started (acquire_async w shard ∷ l) = omega (arith, owed-started l)
  owed-started (initialize_shard ctx shard ∷ l) = omega (arith, owed-started l)

module _ (f : ℕ → ℕ) {X : Externals} where
  -- All that a turn leaves to be answered.
  abbrev Fits : ℕ → Turn X → Type 0
  Fits n t = left f t + total (task_owed f) t.staged ≤ n

  module _ (tsk : Task) (s : Shard X) (repo : X.Repo) where
    returned-Fits : (n : ℕ) (made t : Turn X) → some made ≡ some t → Fits n made → Fits n t
    returned-Fits n made t e h = subst (Fits n) (some-injective made t e) h

    Fits-on_register : Fits (parked f s + owed_to f tsk.waiter) (on_register tsk s repo)
    unfolding on_register
    Fits-on_register = ground (arith, owed-dispatch_to f (succeeded s) tsk.waiter)

    Fits-on_recover :
        (removed : Option Error) (w : Waiter)
        → Fits (parked f s + owed f w) (on_recover removed w tsk s repo)
    unfolding on_recover
    Fits-on_recover removed w = ground arith

    staged_owed-on_acquire : (w : Waiter) → total (task_owed f) (on_acquire w tsk s repo).staged ≡ 0
    unfolding on_acquire
    staged_owed-on_acquire w = ground arith

    staged_owed-on_initialize :
        (t : Turn X) → on_initialize tsk s repo ≡ some t → total (task_owed f) t.staged ≡ 0
    unfolding on_initialize
    staged_owed-on_initialize t e = ground arith

    staged_owed-on_destroy : (w : Waiter) → total (task_owed f) (on_destroy w tsk s repo).staged ≡ 0
    unfolding on_destroy
    staged_owed-on_destroy w = ground arith

    staged_owed-on_release : total (task_owed f) (on_release tsk s repo).staged ≡ 0
    unfolding on_release
    staged_owed-on_release = ground arith

    staged_owed-on_fail : (fch : Option ℕ) → total (task_owed f) (on_fail fch tsk s repo).staged ≡ 0
    unfolding on_fail
    staged_owed-on_fail fch = refl

    staged_owed-on_make_available : total (task_owed f) (on_make_available tsk s repo).staged ≡ 0
    unfolding on_make_available
    staged_owed-on_make_available = refl

    Fits-dispatch_op :
        (fch : Option ℕ) (removed : Option Error) (op : OpType) (w : Option Waiter) (t : Turn X)
        → tsk.waiter ≡ w
        → dispatch_op fch removed op w tsk s repo ≡ some t
        → Fits (parked f s + brought f op w) t
    Fits-dispatch_op fch removed register w t e h =
        returned-Fits _ _ t h (omega (arith, Fits-on_register, ap (owed_to f) e))
    Fits-dispatch_op fch removed initialize w t e h =
        omega (arith, left-on_initialize f tsk s repo t h, staged_owed-on_initialize t h)
    Fits-dispatch_op fch removed make_available w t e h =
        returned-Fits _ _ t h
          (omega (arith, left-on_make_available f tsk s repo, staged_owed-on_make_available))
    Fits-dispatch_op fch removed release w t e h =
        returned-Fits _ _ t h (omega (arith, left-on_release f tsk s repo, staged_owed-on_release))
    Fits-dispatch_op fch removed fail w t e h =
        returned-Fits _ _ t h
          (omega (arith, left-on_fail f tsk s repo fch, staged_owed-on_fail fch))
    Fits-dispatch_op fch removed acquire (some w) t e h =
        returned-Fits _ _ t h
          (omega (arith, left-on_acquire f tsk s repo w, staged_owed-on_acquire w))
    Fits-dispatch_op fch removed recover (some w) t e h =
        returned-Fits _ _ t h (Fits-on_recover removed w)
    Fits-dispatch_op fch removed destroy (some w) t e h =
        returned-Fits _ _ t h
          (omega (arith, left-on_destroy f tsk s repo w, staged_owed-on_destroy w))
    Fits-dispatch_op fch removed acquire none t e h = cc
    Fits-dispatch_op fch removed recover none t e h = cc
    Fits-dispatch_op fch removed destroy none t e h = cc

  due-settle :
      (a : Answers) (tsk : Task) (s : Shard X) (t : Turn X) (d : System X)
      → get_elem? d.heap tsk.shard ≡ some s
      → Fits (parked f s + task_owed f tsk) t
      → due f (settle a tsk t d) ≤ due f d + task_owed f tsk
  unfolding settle due
  due-settle a tsk s t d e h = omega (
    arith,
    h,
    total-set (parked f) d.heap tsk.shard t.shard s e,
    total-append (task_owed f) d.internal_ch t.staged,
    total-append (result_owed f) d.dispatch_results_ch t.results,
    total-append (goroutine_owed f) d.goroutines (map started t.spawned),
    owed-started f X t.spawned,
  )

  due-process :
      (a : Answers) (tsk : Task) (d d' : System X)
      → process a tsk d ≡ some d'
      → due f d' ≤ due f d + task_owed f tsk
  unfolding handle
  due-process a tsk d d' e = elim (process_cases a tsk d d' e) [
    | inl same ↦ omega (arith, ap (due f) same)
    | inr v ↦
        let fits =
          Fits-dispatch_op tsk v.s d.indices d.failure_ch a.removed tsk.op tsk.waiter v.t refl
            v.handled in
        omega (arith, ap (due f) v.settled, due-settle a tsk v.s v.t d v.at_task fits)
  ]

  due-process_external :
      (a : Answers) (l : List Task) (d d' : System X)
      → d.external_ch ≡ l
      → process_external a l d ≡ some d'
      → due f d' ≤ due f d
  unfolding due
  due-process_external a [] d d' e h = omega (arith, ap (due f) (some-injective d d' h))
  due-process_external a (tsk ∷ rest) d d' e h =
      omega (
        arith,
        ap (total (task_owed f)) e,
        due-process a tsk (record d { external_ch = rest }) d' h,
      )

  due-process_completion :
      (a : Answers) (l : List Task) (d d' : System X)
      → d.completion_ch ≡ l
      → process_completion a l d ≡ some d'
      → due f d' ≤ due f d
  unfolding due
  due-process_completion a [] d d' e h = omega (arith, ap (due f) (some-injective d d' h))
  due-process_completion a (tsk ∷ rest) d d' e h = omega (
    arith,
    ap (total (task_owed f)) e,
    due-process a tsk (record d { completion_ch = rest }) d' h,
  )

  due-process_next :
      (a : Answers) (external : Bool) (l : List Task) (d d' : System X)
      → d.internal_ch ≡ l
      → process_next a external l d ≡ some d'
      → due f d' ≤ due f d
  unfolding due
  due-process_next a external (tsk ∷ rest) d d' e h =
      omega (
        arith,
        ap (total (task_owed f)) e,
        due-process a tsk (record d { internal_ch = rest }) d' h,
      )
  due-process_next a true [] d d' e h = due-process_external a d.external_ch d d' refl h
  due-process_next a false [] d d' e h = due-process_completion a d.completion_ch d d' refl h

  pub due-control_step :
      (a : Answers) (external : Bool) (d d' : System X)
      → control_step a external d ≡ some d'
      → due f d' ≤ due f d
  unfolding control_step
  due-control_step a external d d' h = due-process_next a external d.internal_ch d d' refl h
