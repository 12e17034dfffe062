-- ===== src/Store/Properties/Answers.antt =====
-- No waiter is lost, and none is answered twice.
use dagstore.Shared.{
  ℕ, ◌+◌, ◌≡◌, refl, ap, Option, none, some, List, [], ◌∷◌, ◌++◌, total, arith, total-append,
}
use mathlib.Core.Path.{subst}
use mathlib.Core.Option.{some-injective}
use dagstore.Store.Soundness.Rounds.{w_register-trigger, w_recover-trigger}
use dagstore.Error.{Error, wrapped, failed_to_register, failed_to_recover, failed_to_acquire}
use dagstore.ShardState.{new, available}
use dagstore.Store.Types.{
  Externals, Waiter, OpType, register, initialize, make_available, destroy, acquire, fail, release,
  recover, Task, Shard, ShardResult,
}
use dagstore.Store.Turn.{
  Spawn, acquire_async, initialize_shard, Turn, dispatch_result, dispatch_to, failed_with,
  succeeded,
}
use dagstore.Store.Control.{
  acquirers, dispatch_op, on_register, on_initialize, on_make_available, on_acquire, on_release,
  on_fail, on_recover, on_destroy, handle,
}

-- A number for each channel, counted for the waiters that wait on it: with `f` 1 at one channel and 0 at
-- the others, the count of the answers that are owed to that channel.
module _ (f : ℕ → ℕ) where
  abbrev pub owed_on : Option ℕ → ℕ
  owed_on none = 0
  owed_on (some ch) = f ch

  abbrev pub owed : Waiter → ℕ
  owed w = owed_on w.out_ch

  abbrev pub owed_to : Option Waiter → ℕ
  owed_to none = 0
  owed_to (some w) = owed w

  abbrev pub owed_by_spawn : Spawn → ℕ
  owed_by_spawn (acquire_async w shard) = owed w
  owed_by_spawn (initialize_shard ctx shard) = 0

  -- The waiters that a shard has parked.
  abbrev pub parked : {X : Externals} → Shard X → ℕ
  parked s = owed_to s.w_register + owed_to s.w_recover + total owed s.w_acquire

  -- A task of the application brings a waiter that is to be answered. The waiter of an
  -- initialization stands in its shard, or among the acquirers.
  abbrev pub brought : OpType → Option Waiter → ℕ
  brought register w = owed_to w
  brought acquire w = owed_to w
  brought recover w = owed_to w
  brought destroy w = owed_to w
  brought op w = 0

  -- The waiters that a turn leaves: parked, being served by a goroutine, or answered.
  abbrev pub left : {X : Externals} → Turn X → ℕ
  left t = parked t.shard + total owed_by_spawn t.spawned + total (λ r. owed r.w) t.results

  pub owed-dispatch_result :
      {X : Externals} (res : ShardResult X) (ws : List Waiter)
      → total (λ r. owed r.w) (dispatch_result res ws) ≡ total owed ws
  owed-dispatch_result res [] = refl
  owed-dispatch_result res (w ∷ ws) = ground (arith, owed-dispatch_result res ws)

  pub owed-dispatch_to :
      {X : Externals} (res : ShardResult X) (w : Option Waiter)
      → total (λ r. owed r.w) (dispatch_to res w) ≡ owed_to w
  owed-dispatch_to res none = refl
  owed-dispatch_to res (some w) = ground arith

  owed-acquirers :
      (shard : ℕ) (ws : List Waiter) → total owed_by_spawn (acquirers shard ws) ≡ total owed ws
  unfolding acquirers
  owed-acquirers shard [] = refl
  owed-acquirers shard (w ∷ ws) = ground (arith, owed-acquirers shard ws)

  module _ {X : Externals} (tsk : Task) (s : Shard X) (repo : X.Repo) where
    left-on_register :
        s.state ≡ new
        → s.w_register ≡ none
        → left (on_register tsk s repo) ≡ parked s + owed_to tsk.waiter
    unfolding on_register
    left-on_register e h = ground (arith, owed-dispatch_to (succeeded s) tsk.waiter)

    pub left-on_acquire : (w : Waiter) → left (on_acquire w tsk s repo) ≡ parked s + owed w
    unfolding on_acquire
    left-on_acquire w = ground (
      arith,
      total-append owed s.w_acquire
          (record { ctx = w.ctx; out_ch = w.out_ch; notify_dead = none } ∷ []),
    )

    pub left-on_release : left (on_release tsk s repo) ≡ parked s
    unfolding on_release
    left-on_release = ground arith

    pub left-on_destroy : (w : Waiter) → left (on_destroy w tsk s repo) ≡ parked s + owed w
    unfolding on_destroy
    left-on_destroy w = ground arith

    left-on_recover :
        (removed : Option Error) (w : Waiter)
        → s.w_recover ≡ none
        → left (on_recover removed w tsk s repo) ≡ parked s + owed w
    unfolding on_recover
    left-on_recover removed w h = ground arith

    pub left-on_initialize : (t : Turn X) → on_initialize tsk s repo ≡ some t → left t ≡ parked s
    unfolding on_initialize
    left-on_initialize t h = ground arith

    pub left-on_fail : (fch : Option ℕ) → left (on_fail fch tsk s repo) ≡ parked s
    unfolding on_fail
    left-on_fail fch =
        let e = wrapped tsk.err in
        omega (
          arith,
          total-append (λ r. owed r.w)
              (dispatch_to (failed_with s (failed_to_register e)) s.w_register)
              (dispatch_to (failed_with s (failed_to_recover e)) s.w_recover
                ++ dispatch_result (failed_with s (failed_to_acquire e)) s.w_acquire),
          total-append (λ r. owed r.w)
              (dispatch_to (failed_with s (failed_to_recover e)) s.w_recover)
              (dispatch_result (failed_with s (failed_to_acquire e)) s.w_acquire),
          owed-dispatch_to (failed_with s (failed_to_register e)) s.w_register,
          owed-dispatch_to (failed_with s (failed_to_recover e)) s.w_recover,
          owed-dispatch_result (failed_with s (failed_to_acquire e)) s.w_acquire,
        )

    pub left-on_make_available : left (on_make_available tsk s repo) ≡ parked s
    unfolding on_make_available
    left-on_make_available =
        let s' = record s { state = available; err = none; w_register = none; w_recover = none } in
        omega (
          arith,
          ap owed_to (w_register-trigger s.w_acquire s'),
          ap owed_to (w_recover-trigger s.w_acquire s'),
          total-append (λ r. owed r.w) (dispatch_to (succeeded s) s.w_register)
              (dispatch_to (succeeded s) s.w_recover),
          owed-dispatch_to (succeeded s) s.w_register,
          owed-dispatch_to (succeeded s) s.w_recover,
          owed-acquirers tsk.shard s.w_acquire,
        )

  module _ {X : Externals} (tsk : Task) (s : Shard X) (repo : X.Repo) where
    returned_owed : (n : ℕ) (made t : Turn X) → some made ≡ some t → left made ≡ n → left t ≡ n
    returned_owed n made t h = subst (λ u. left u ≡ n) (some-injective made t h)

    left-dispatch_op :
        (fch : Option ℕ) (removed : Option Error) (op : OpType) (w : Option Waiter) (t : Turn X)
        → tsk.waiter ≡ w
        → (op ≡ register → (s.state ≡ new) × (s.w_register ≡ none))
        → (op ≡ recover → s.w_recover ≡ none)
        → dispatch_op fch removed op w tsk s repo ≡ some t
        → left t ≡ parked s + brought op w
    left-dispatch_op fch removed register w t e reg rec h =
        let (is_new, no_waiter) = reg refl in
        returned_owed _ _ t h (
          subst (λ v. left (on_register tsk s repo) ≡ parked s + owed_to v) e
            (left-on_register tsk s repo is_new no_waiter))
    left-dispatch_op fch removed initialize w t e reg rec h =
        omega (arith, left-on_initialize tsk s repo t h)
    left-dispatch_op fch removed make_available w t e reg rec h =
        returned_owed _ _ t h (omega (arith, left-on_make_available tsk s repo))
    left-dispatch_op fch removed destroy none t e reg rec h = cc
    left-dispatch_op fch removed destroy (some w) t e reg rec h =
        returned_owed _ _ t h (left-on_destroy tsk s repo w)
    left-dispatch_op fch removed acquire none t e reg rec h = cc
    left-dispatch_op fch removed acquire (some w) t e reg rec h =
        returned_owed _ _ t h (left-on_acquire tsk s repo w)
    left-dispatch_op fch removed fail w t e reg rec h =
        returned_owed _ _ t h (omega (arith, left-on_fail tsk s repo fch))
    left-dispatch_op fch removed release w t e reg rec h =
        returned_owed _ _ t h (omega (arith, left-on_release tsk s repo))
    left-dispatch_op fch removed recover none t e reg rec h = cc
    left-dispatch_op fch removed recover (some w) t e reg rec h =
        returned_owed _ _ t h (left-on_recover tsk s repo removed w (rec refl))

    -- A round of the event loop that does not crash loses no waiter and answers none twice: on every
    -- channel, those that the shard had parked and the one that the task brings are as many as those
    -- that are still parked, are served by a new goroutine, or get a result. This needs that a
    -- registration finds its shard new with no registration waiting, and that a recovery finds no
    -- recovery waiting.
    pub handle_owed :
        (fch : Option ℕ) (removed : Option Error) (t : Turn X)
        → (tsk.op ≡ register → (s.state ≡ new) × (s.w_register ≡ none))
        → (tsk.op ≡ recover → s.w_recover ≡ none)
        → handle fch removed tsk s repo ≡ some t
        → left t ≡ parked s + brought tsk.op tsk.waiter
    unfolding handle
    handle_owed fch removed t reg rec h =
        left-dispatch_op fch removed tsk.op tsk.waiter t refl reg rec h
