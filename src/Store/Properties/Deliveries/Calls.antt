-- ===== src/Store/Properties/Deliveries/Calls.antt =====
-- dagstore.go, dispatcher.go, dagstore_gc.go: a call owes the result that it asks for, a delivery takes off
-- what it delivers, and a garbage collection owes nothing.
use dagstore.Shared.{
  ℕ, ◌+◌, ◌≤◌, ◌≡◌, refl, ap, inl, inr, String, Bool, true, false, Option, none, some, List, [],
  ◌∷◌, ◌++◌, length, total, get_elem?, lookup, insert, arith, total-append, Option-cases, ◌∙◌,
}
use dagstore.Error.{Error, Result, ok, err}
use dagstore.ShardKey.{Key, key_eq}
use dagstore.Mount.Upgrader.{Upgrader}
use dagstore.Store.Types.{
  Externals, OpType, register, destroy, acquire, recover, Task, Accessor, Dispatch, release,
}
use dagstore.Store.Async.{to_external, sending, task_of}
use dagstore.Store.System.Defs.{System}
use dagstore.Store.System.Calls.{
  RegisterOpts, fresh, call_task, queue_external, register_shard, destroy_shard, acquire_shard,
  recover_shard, close_accessor,
}
use dagstore.Store.System.Gc.{GcAnswers, reclaim_one, reclaim_all, to_reclaim, gc}
use dagstore.Store.System.Steps.{hand_over, notify_dead, deliver, deliver_failure, on_collects}
use dagstore.Store.Properties.Answers.{owed_on, parked}
use dagstore.Store.Properties.Deliveries.{task_owed, result_owed, goroutine_owed, first_owed, due}
use dagstore.Store.Properties.Deliveries.Moves.{due-written}

module _ (f : ℕ → ℕ) {X : Externals} where
  due-queue_external :
      (t : Task) (d : System X) → due f (queue_external t d) ≡ due f d + task_owed f t
  unfolding due
  due-queue_external t d =
      omega
        (arith, total-append (goroutine_owed f) d.goroutines (sending (to_external t ∷ []) ∷ []))

  -- The three calls that look their shard up and queue a task for it.
  due-looked_up :
      (op : OpType) (ctx : ℕ) (out : Option ℕ) (d : System X) (missing : Error) (found : Option ℕ)
      → ((shard : ℕ) → task_owed f (call_task op shard ctx out) ≡ owed_on f out)
      → due f (
          let r : System X × Option Error = elim found [
            | none ↦ (d, some missing)
            | some shard ↦ (queue_external (call_task op shard ctx out) d, none)
          ] in
          r.0)
        ≤ due f d + owed_on f out
  due-looked_up op ctx out d missing none h = omega arith
  due-looked_up op ctx out d missing (some shard) h =
      omega (arith, h shard, due-queue_external (call_task op shard ctx out) d)

  pub due-destroy_shard :
      (ctx : ℕ) (key : Key) (out : Option ℕ) (d : System X)
      → due f (destroy_shard ctx key out d).0 ≤ due f d + owed_on f out
  unfolding destroy_shard
  due-destroy_shard ctx key out d =
      due-looked_up destroy ctx out d _ (lookup key d.shards) (λ shard. refl)

  pub due-acquire_shard :
      (ctx : ℕ) (key : Key) (out : Option ℕ) (d : System X)
      → due f (acquire_shard ctx key out d).0 ≤ due f d + owed_on f out
  unfolding acquire_shard
  due-acquire_shard ctx key out d =
      due-looked_up acquire ctx out d _ (lookup key d.shards) (λ shard. refl)

  pub due-recover_shard :
      (ctx : ℕ) (key : Key) (out : Option ℕ) (d : System X)
      → due f (recover_shard ctx key out d).0 ≤ due f d + owed_on f out
  unfolding recover_shard
  due-recover_shard ctx key out d =
      due-looked_up recover ctx out d _ (lookup key d.shards) (λ shard. refl)

  due-upgraded :
      (ctx : ℕ) (key : Key) (out : Option ℕ) (lazy : Bool) (d : System X)
      (upgraded : Result (Upgrader X.Mount))
      → due f (
          let r : System X × Option Error = elim upgraded [
            | err e ↦ (d, some e)
            | ok u ↦
                let shard = length d.heap in
                (
                  queue_external (call_task register shard ctx out) (record d {
                    heap = d.heap ++ fresh key u lazy ∷ [];
                    shards = insert key shard d.shards;
                  }),
                  none,
                )
          ] in
          r.0)
        ≤ due f d + owed_on f out
  unfolding due
  due-upgraded ctx key out lazy d (err e) = omega arith
  due-upgraded ctx key out lazy d (ok u) = omega (
    arith,
    total-append (parked f) d.heap (fresh key u lazy ∷ []),
    total-append (goroutine_owed f) d.goroutines
        (sending (to_external (call_task register (length d.heap) ctx out) ∷ []) ∷ []),
  )

  pub due-register_shard :
      (ctx : ℕ) (key : Key) (mnt : X.Mount) (out : Option ℕ) (opts : RegisterOpts)
      (alive : String → Bool) (d : System X)
      → due f (register_shard ctx key mnt out opts alive d).0 ≤ due f d + owed_on f out
  unfolding register_shard
  due-register_shard ctx key mnt out opts alive d = elim (Option-cases (lookup key d.shards)) [
    | inr (shard, e) ↦ rw (e, register_shard) (omega arith)
    | inl e ↦ rw (e, register_shard) (due-upgraded ctx key out opts.lazy_initialization d _)
  ]

  pub due-close_accessor : (i : ℕ) (d : System X) → due f (close_accessor i d) ≤ due f d
  unfolding close_accessor due
  due-close_accessor i d = elim (Option-cases (get_elem? d.accessors i)) [
    | inl e ↦ rw (e, close_accessor) (omega arith)
    | inr (a, e) ↦
        rw (e, close_accessor) (omega (arith, due-queue_external (task_of release a.shard none) d))
  ]

  due-notify_dead : (shard : Option ℕ) (d : System X) → due f (notify_dead shard d) ≡ due f d
  unfolding due
  due-notify_dead none d = refl
  due-notify_dead (some shard) d =
      omega (arith, total-append (task_owed f) d.completion_ch (task_of release shard none ∷ []))

  due-hand_over : (a : Option (Accessor X)) (d : System X) → due f (hand_over a d) ≡ due f d
  unfolding due
  due-hand_over none d = refl
  due-hand_over (some a) d = refl

  due-taken :
      (r : Dispatch X) (rest : List (Dispatch X)) (d : System X)
      → d.dispatch_results_ch ≡ r ∷ rest
      → due f (record d { dispatch_results_ch = rest }) + result_owed f r ≡ due f d
  unfolding due
  due-taken r rest d e = omega (arith, ap (total (result_owed f)) e)

  pub due-deliver_dead :
      (l : List (Dispatch X)) (d : System X)
      → d.dispatch_results_ch ≡ l
      → due f (deliver true l d) ≤ due f d
  unfolding deliver
  due-deliver_dead [] d e = omega arith
  due-deliver_dead (r ∷ rest) d e = omega (
    arith,
    due-taken r rest d e,
    due-notify_dead r.w.notify_dead (record d { dispatch_results_ch = rest }),
  )

  pub due-deliver :
      (l : List (Dispatch X)) (d : System X)
      → d.dispatch_results_ch ≡ l
      → due f (deliver false l d) + first_owed f l ≤ due f d
  unfolding deliver
  due-deliver [] d e = omega arith
  due-deliver (r ∷ rest) d e = omega (
    arith,
    due-taken r rest d e,
    due-hand_over r.res.accessor (record d { dispatch_results_ch = rest }),
  )

  pub due-deliver_failure :
      (l : List (Dispatch X)) (d : System X) → due f (deliver_failure l d) ≡ due f d
  unfolding deliver_failure due
  due-deliver_failure [] d = refl
  due-deliver_failure (r ∷ rest) d = refl

  due-reclaim_one :
      (a : GcAnswers) (shard : ℕ) (d : System X) (res : List (Key × Option Error))
      → due f (reclaim_one a shard (d, res)).0 ≡ due f d
  unfolding reclaim_one due
  due-reclaim_one a shard d res = elim (Option-cases (get_elem? d.heap shard)) [
    | inl e ↦ rw (e, reclaim_one) refl
    | inr (s, e) ↦ rw (e, reclaim_one) (due-written f shard s _ d e refl)
  ]

  due-reclaim_all :
      (a : GcAnswers) (l : List ℕ) (acc : System X × List (Key × Option Error))
      → due f (reclaim_all a l acc).0 ≡ due f acc.0
  unfolding reclaim_all
  due-reclaim_all a [] (d, res) = refl
  due-reclaim_all a (shard ∷ rest) (d, res) =
      due-reclaim_all a rest (reclaim_one a shard (d, res)) ∙ due-reclaim_one a shard d res

  due-gc : (a : GcAnswers) (d : System X) → due f (gc a d).0 ≡ due f d
  unfolding gc
  due-gc a d = due-reclaim_all a (to_reclaim d.heap d.shards) (d, [])

  due-collected :
      (a : GcAnswers) (l : List Task) (d : System X)
      → due f (let r : System X = elim l [ [] ↦ (gc a d).0 | t ∷ ts ↦ d ] in r) ≤ due f d
  due-collected a [] d = omega (arith, due-gc a d)
  due-collected a (t ∷ ts) d = omega arith

  pub due-on_collects : (a : GcAnswers) (d : System X) → due f (on_collects a d) ≤ due f d
  unfolding on_collects
  due-on_collects a d = due-collected a d.internal_ch d
