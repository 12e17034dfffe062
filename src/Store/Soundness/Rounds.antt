-- ===== src/Store/Soundness/Rounds.antt =====
-- Each case of the `switch` keeps the references of a shard covered, and leaves well-formed tasks.
use dagstore.Shared.{
  ℕ, ◌+◌, ◌≤◌, ◌<◌, ◌^◌, ◌≡◌, ◌≢◌, refl, Option, none, some, List, [], ◌∷◌, ◌++◌, All, All-append,
  total, length, arith, total-append, length-append, Option-cases, inl, inr,
}
use dagstore.Error.{Error, wrapped, failed_to_register, failed_to_recover, failed_to_acquire}
use dagstore.Store.Types.{
  Externals, Waiter, OpType, register, initialize, make_available, destroy, acquire, fail, release,
  recover, Task, Shard,
}
use dagstore.ShardState.{available, serving}
use dagstore.Store.Turn.{Turn, u32, dispatch_result, dispatch_to, failed_with, succeeded}
use dagstore.Store.Control.{
  trigger, acquirers, on_register, on_initialize, on_make_available, on_acquire, on_release,
  on_fail, on_recover, on_destroy, dispatch_op, handle,
}
use dagstore.Store.Soundness.Measure.{
  task_refs, result_refs, spawn_refs, load, IsPlain, IsPlainOption, HasWaiter, IsSoundTask,
  IsSoundSpawn, IsSoundShard, total-dispatch_result, total-dispatch_to,
}

-- What a turn hands out of a shard's references.
abbrev pub handed_out : {X : Externals} → ℕ → Turn X → ℕ
handed_out r t =
    total (result_refs r) t.results + total (spawn_refs r) t.spawned + total (task_refs r) t.staged

pub record IsSoundTurn {X : Externals} (tsk : Task) (s : Shard X) (t : Turn X) : Type 0 where
  -- A reference that is handed out was counted, and one that was counted is given back or kept.
  pub own : handed_out tsk.shard t + s.refs ≤ t.shard.refs + task_refs tsk.shard tsk
  pub other : (r : ℕ) → r ≢ tsk.shard → handed_out r t ≡ 0
  pub loaded : load (some t.shard) ≤ load (some s) + 1
  pub one_staged : length t.staged ≤ 1
  pub sound_staged : All IsSoundTask t.staged
  pub sound_spawned : All IsSoundSpawn t.spawned
  pub sound_shard : IsSoundShard t.shard

module _ {X : Externals} where
  -- `trigger` leaves the parked waiters' fields alone, and counts a reference for each of the list.
  refs-trigger :
      (ws : List Waiter) (s : Shard X)
      → s.refs + length ws < 2 ^ 32
      → (trigger ws s).refs ≡ s.refs + length ws
  unfolding trigger
  refs-trigger [] s h = omega arith
  refs-trigger (w ∷ ws) s h =
      omega (
        arith,
        refs-trigger ws (record s { state = serving; refs = u32 (s.refs + 1) }) (omega arith),
      )

  pub w_register-trigger :
      (ws : List Waiter) (s : Shard X) → (trigger ws s).w_register ≡ s.w_register
  unfolding trigger
  w_register-trigger [] s = refl
  w_register-trigger (w ∷ ws) s = w_register-trigger ws _

  pub w_recover-trigger : (ws : List Waiter) (s : Shard X) → (trigger ws s).w_recover ≡ s.w_recover
  unfolding trigger
  w_recover-trigger [] s = refl
  w_recover-trigger (w ∷ ws) s = w_recover-trigger ws _

total-acquirers :
    (shard : ℕ) (ws : List Waiter) → total (spawn_refs shard) (acquirers shard ws) ≡ length ws
unfolding acquirers
total-acquirers shard [] = refl
total-acquirers shard (w ∷ ws) = ground (arith, total-acquirers shard ws)

All-acquirers :
    (shard : ℕ) (ws : List Waiter) → All IsPlain ws → All IsSoundSpawn (acquirers shard ws)
unfolding acquirers
All-acquirers shard [] p = tt
All-acquirers shard (w ∷ ws) p = (p.0, All-acquirers shard ws p.1)

total-acquirers_ne :
    (r shard : ℕ) (ws : List Waiter) → r ≢ shard → total (spawn_refs r) (acquirers shard ws) ≡ 0
unfolding acquirers
total-acquirers_ne r shard [] h = refl
total-acquirers_ne r shard (w ∷ ws) h = ground (arith, total-acquirers_ne r shard ws)

module _ {X : Externals} (tsk : Task) (s : Shard X) (repo : X.Repo) (sound : IsSoundShard s) where
  on_register-IsSoundTurn :
      tsk.op ≡ register → IsSoundTask tsk → IsSoundTurn tsk s (on_register tsk s repo)
  unfolding on_register
  on_register-IsSoundTurn e h =
      ground (arith, total-dispatch_to tsk.shard (succeeded s) refl tsk.waiter)

  on_release-IsSoundTurn : tsk.op ≡ release → IsSoundTurn tsk s (on_release tsk s repo)
  unfolding on_release
  on_release-IsSoundTurn e = ground arith

  on_initialize-IsSoundTurn :
      (w : Waiter)
      → tsk.waiter ≡ some w
      → (t : Turn X) → on_initialize tsk s repo ≡ some t
      → IsSoundTurn tsk s t
  unfolding on_initialize
  on_initialize-IsSoundTurn w e t h = ground arith

  on_acquire-IsSoundTurn :
      (v : Waiter)
      → s.refs + length s.w_acquire + 1 < 2 ^ 32
      → IsPlain v
      → IsSoundTurn tsk s (on_acquire v tsk s repo)
  unfolding on_acquire
  on_acquire-IsSoundTurn v small p =
      let w : Waiter = record { ctx = v.ctx; out_ch = v.out_ch; notify_dead = none } in
      ground (
        arith,
        length-append s.w_acquire (w ∷ []),
        All-append IsPlain s.w_acquire (w ∷ []) sound.plain_acquire (refl, tt),
      )

  on_destroy-IsSoundTurn : (w : Waiter) → IsPlain w → IsSoundTurn tsk s (on_destroy w tsk s repo)
  unfolding on_destroy
  on_destroy-IsSoundTurn w p = ground arith

  on_recover-IsSoundTurn :
      (removed : Option Error) (w : Waiter)
      → IsPlain w
      → IsSoundTurn tsk s (on_recover removed w tsk s repo)
  unfolding on_recover
  on_recover-IsSoundTurn removed w p = ground arith

  results-on_fail :
      (fch : Option ℕ) (r : ℕ) → total (result_refs r) (on_fail fch tsk s repo).results ≡ 0
  unfolding on_fail
  results-on_fail fch r =
      let e = wrapped tsk.err in
      omega (
        arith,
        total-append (result_refs r)
            (dispatch_to (failed_with s (failed_to_register e)) s.w_register)
            (dispatch_to (failed_with s (failed_to_recover e)) s.w_recover
              ++ dispatch_result (failed_with s (failed_to_acquire e)) s.w_acquire),
        total-append (result_refs r) (dispatch_to (failed_with s (failed_to_recover e)) s.w_recover)
            (dispatch_result (failed_with s (failed_to_acquire e)) s.w_acquire),
        total-dispatch_to r (failed_with s (failed_to_register e)) refl s.w_register
            sound.plain_register,
        total-dispatch_to r (failed_with s (failed_to_recover e)) refl s.w_recover
            sound.plain_recover,
        total-dispatch_result r (failed_with s (failed_to_acquire e)) refl s.w_acquire
            sound.plain_acquire,
      )

  on_fail-IsSoundTurn : (fch : Option ℕ) → IsSoundTurn tsk s (on_fail fch tsk s repo)
  on_fail-IsSoundTurn fch = record {
    own = unfold on_fail in omega (arith, results-on_fail fch tsk.shard);
    other = λ r h. unfold on_fail in omega (arith, results-on_fail fch r);
    loaded = unfold on_fail in omega arith;
    one_staged = unfold on_fail in omega arith;
    sound_staged = unfold on_fail in tt;
    sound_spawned = unfold on_fail in tt;
    sound_shard =
        unfold on_fail in record { plain_register = tt; plain_recover = tt; plain_acquire = tt };
  }

  results-on_make_available :
      (r : ℕ) → total (result_refs r) (on_make_available tsk s repo).results ≡ 0
  unfolding on_make_available
  results-on_make_available r = omega (
    arith,
    total-append (result_refs r) (dispatch_to (succeeded s) s.w_register)
        (dispatch_to (succeeded s) s.w_recover),
    total-dispatch_to r (succeeded s) refl s.w_register sound.plain_register,
    total-dispatch_to r (succeeded s) refl s.w_recover sound.plain_recover,
  )

  on_make_available-IsSoundTurn :
      s.refs + length s.w_acquire < 2 ^ 32 → IsSoundTurn tsk s (on_make_available tsk s repo)
  unfolding on_make_available
  on_make_available-IsSoundTurn small =
      let s' = record s { state = available; err = none; w_register = none; w_recover = none } in
      let grown = refs-trigger s.w_acquire s' small in
      record {
        own = omega (
          arith,
          grown,
          results-on_make_available tsk.shard,
          total-acquirers tsk.shard s.w_acquire,
        );
        other = λ r h.
            omega
              (arith, results-on_make_available r, total-acquirers_ne r tsk.shard s.w_acquire h);
        loaded = omega (arith, grown);
        one_staged = omega arith;
        sound_staged = tt;
        sound_spawned = All-acquirers tsk.shard s.w_acquire sound.plain_acquire;
        sound_shard = record {
          plain_register = rw (w_register-trigger s.w_acquire s') tt;
          plain_recover = rw (w_recover-trigger s.w_acquire s') tt;
          plain_acquire = tt;
        };
      }

  on_initialize-ne-none : (w : Waiter) → tsk.waiter ≡ some w → on_initialize tsk s repo ≢ none
  unfolding on_initialize
  on_initialize-ne-none w e = ground arith

  on_initialize_total :
      (w : Waiter) → tsk.waiter ≡ some w → (t : Turn X) × (on_initialize tsk s repo ≡ some t)
  on_initialize_total w e = elim (Option-cases (on_initialize tsk s repo)) [
    | inl stuck ↦ absurd (on_initialize-ne-none w e stuck)
    | inr found ↦ found
  ]

-- The turn of a well-formed task, and that it is sound.
module _ {X : Externals} (fch : Option ℕ) (removed : Option Error) (tsk : Task) (s : Shard X)
    (repo : X.Repo) (sound : IsSoundShard s) (well : IsSoundTask tsk)
    (small : s.refs + length s.w_acquire + 1 < 2 ^ 32) where
  dispatch_op_total :
      (op : OpType) (w : Option Waiter)
      → tsk.op ≡ op
      → tsk.waiter ≡ w
      → HasWaiter op w
      → IsPlainOption w
      → (t : Turn X) × (dispatch_op fch removed op w tsk s repo ≡ some t) × IsSoundTurn tsk s t
  dispatch_op_total register w e f h p = (_, refl, on_register-IsSoundTurn tsk s repo sound e well)
  dispatch_op_total initialize none e f h p = absurd h
  dispatch_op_total initialize (some w) e f h p =
      let (t, g) = on_initialize_total tsk s repo sound w f in
      (t, g, on_initialize-IsSoundTurn tsk s repo sound w f t g)
  dispatch_op_total make_available w e f h p =
      (_, refl, on_make_available-IsSoundTurn tsk s repo sound (omega arith))
  dispatch_op_total destroy none e f h p = absurd h
  dispatch_op_total destroy (some w) e f h p =
      (_, refl, on_destroy-IsSoundTurn tsk s repo sound w p)
  dispatch_op_total acquire none e f h p = absurd h
  dispatch_op_total acquire (some w) e f h p =
      (_, refl, on_acquire-IsSoundTurn tsk s repo sound w small p)
  dispatch_op_total fail w e f h p = (_, refl, on_fail-IsSoundTurn tsk s repo sound fch)
  dispatch_op_total release w e f h p = (_, refl, on_release-IsSoundTurn tsk s repo sound e)
  dispatch_op_total recover none e f h p = absurd h
  dispatch_op_total recover (some w) e f h p =
      (_, refl, on_recover-IsSoundTurn tsk s repo sound removed w p)

  pub handle_total : (t : Turn X) × (handle fch removed tsk s repo ≡ some t) × IsSoundTurn tsk s t
  unfolding handle
  handle_total = dispatch_op_total tsk.op tsk.waiter refl refl well.waits well.plain
