-- ===== src/Store/Soundness/Calls.antt =====
-- The calls of the application, and the dispatchers, keep the invariant.
use dagstore.Shared.{
  ℕ, ◌+◌, ◌≤◌, ◌≡◌, refl, inl, inr, Bool, String, Option, none, some, List, [], ◌∷◌, ◌++◌, length,
  get_elem?, arith, All-append, total-append, total-erase_idx, Option-cases, ℕ_discrete,
  get_elem?-append_last, get_elem?-append_ne, get_elem?-length, lookup, insert,
}
use dagstore.ShardKey.{Key, key_eq}
use dagstore.Error.{Error, Result, ok, err}
use dagstore.Mount.Upgrader.{Upgrader}
use dagstore.Store.Types.{Externals, Task, Shard, OpType, register, destroy, acquire, recover}
use dagstore.Store.Async.{to_external, sending}
use dagstore.Store.System.Defs.{System}
use dagstore.Store.System.Calls.{
  RegisterOpts, fresh, call_task, queue_external, register_shard, destroy_shard, acquire_shard,
  recover_shard, close_accessor,
}
use dagstore.Store.Soundness.Measure.{
  task_refs, accessor_refs, goroutine_refs, holders, refs_at, IsSoundTask, IsSoundShard,
  IsSoundGoroutine,
}
use dagstore.Store.Soundness.Invariant.{IsOrderly, Inv}

module _ {X : Externals} {n : ℕ} where
  pub queue_external-Inv :
      (t : Task) (d : System X)
      → IsSoundTask t
      → ((r : ℕ) → holders r d + task_refs r t ≤ refs_at r d.heap)
      → length d.internal_ch ≤ 1
      → IsOrderly n d
      → Inv n (queue_external t d)
  unfolding holders
  queue_external-Inv t d well held single o = record {
    held = λ r. omega (
      arith,
      held r,
      total-append (goroutine_refs r) d.goroutines (sending (to_external t ∷ []) ∷ []),
    );
    single = single;
    orderly = record {
      loaded = o.loaded;
      external = o.external;
      internal = o.internal;
      completion = o.completion;
      goroutines = All-append IsSoundGoroutine d.goroutines _ o.goroutines ((well, tt), tt);
      heap = o.heap;
    };
  }

  -- A call that finds its shard.
  call-Inv :
      (op : OpType) (shard ctx : ℕ) (out : Option ℕ) (d : System X)
      → ((r : ℕ) → task_refs r (call_task op shard ctx out) ≡ 0)
      → IsSoundTask (call_task op shard ctx out)
      → Inv n d
      → Inv n (queue_external (call_task op shard ctx out) d)
  call-Inv op shard ctx out d free well v =
      queue_external-Inv _ d well (λ r. omega (arith, free r, v.held r)) v.single v.orderly

  -- The three calls that look their shard up and queue a task for it.
  looked_up-Inv :
      (op : OpType) (ctx : ℕ) (out : Option ℕ) (d : System X) (missing : Error) (found : Option ℕ)
      → ((r shard : ℕ) → task_refs r (call_task op shard ctx out) ≡ 0)
      → ((shard : ℕ) → IsSoundTask (call_task op shard ctx out))
      → Inv n d
      → Inv n (
          let r : System X × Option Error = elim found [
            | none ↦ (d, some missing)
            | some shard ↦ (queue_external (call_task op shard ctx out) d, none)
          ] in
          r.0)
  looked_up-Inv op ctx out d missing none free well v = v
  looked_up-Inv op ctx out d missing (some shard) free well v =
      call-Inv op shard ctx out d (λ r. free r shard) (well shard) v

  pub destroy_shard-Inv :
      (ctx : ℕ) (key : Key) (out : Option ℕ) (d : System X)
      → Inv n d
      → Inv n (destroy_shard ctx key out d).0
  unfolding destroy_shard
  destroy_shard-Inv ctx key out d =
      looked_up-Inv destroy ctx out d _ (lookup key d.shards) (λ r shard. refl)
        (λ shard. record { plain = refl; waits = tt })

  pub acquire_shard-Inv :
      (ctx : ℕ) (key : Key) (out : Option ℕ) (d : System X)
      → Inv n d
      → Inv n (acquire_shard ctx key out d).0
  unfolding acquire_shard
  acquire_shard-Inv ctx key out d =
      looked_up-Inv acquire ctx out d _ (lookup key d.shards) (λ r shard. refl)
        (λ shard. record { plain = refl; waits = tt })

  pub recover_shard-Inv :
      (ctx : ℕ) (key : Key) (out : Option ℕ) (d : System X)
      → Inv n d
      → Inv n (recover_shard ctx key out d).0
  unfolding recover_shard
  recover_shard-Inv ctx key out d =
      looked_up-Inv recover ctx out d _ (lookup key d.shards) (λ r shard. refl)
        (λ shard. record { plain = refl; waits = tt })

  -- A new shard is written behind the heap, and nobody holds it.
  pub allocated-Inv :
      (s : Shard X) (d : System X)
      → s.refs ≡ 0
      → s.w_acquire ≡ []
      → IsSoundShard s
      → (shards : List (Key × ℕ)) → Inv n d
      → Inv n (record d { heap = d.heap ++ s ∷ []; shards = shards })
  unfolding holders
  allocated-Inv s d no_refs no_waiters sound shards v = record {
    held = λ r. elim (ℕ_discrete (length d.heap) r) [
      | yes e ↦ ground (arith, v.held r, get_elem?-append_last d.heap s, get_elem?-length d.heap)
      | no e ↦ ground (arith, v.held r, get_elem?-append_ne d.heap s r e)
    ];
    single = v.single;
    orderly = record {
      loaded = λ r. elim (ℕ_discrete (length d.heap) r) [
        | yes e ↦ ground (arith, get_elem?-append_last d.heap s)
        | no e ↦ ground (arith, v.orderly.loaded r, get_elem?-append_ne d.heap s r e)
      ];
      external = v.orderly.external;
      internal = v.orderly.internal;
      completion = v.orderly.completion;
      goroutines = v.orderly.goroutines;
      heap = All-append IsSoundShard d.heap (s ∷ []) v.orderly.heap (sound, tt);
    };
  }

  pub close_accessor-Inv : (i : ℕ) (d : System X) → Inv n d → Inv n (close_accessor i d)
  unfolding close_accessor
  close_accessor-Inv i d v = elim (Option-cases (get_elem? d.accessors i)) [
    | inl e ↦ rw (e, close_accessor) v
    | inr (a, e) ↦
        rw (e, close_accessor)
          (queue_external-Inv _ _ (record { plain = tt; waits = tt })
            (λ r.
              unfold holders in
              omega (arith, v.held r, total-erase_idx (accessor_refs r) d.accessors i a e))
            v.single
            (record {
              loaded = v.orderly.loaded;
              external = v.orderly.external;
              internal = v.orderly.internal;
              completion = v.orderly.completion;
              goroutines = v.orderly.goroutines;
              heap = v.orderly.heap;
            }))
  ]

  -- The rest of `RegisterShard` once the key is free, for each answer of `mount.Upgrade`.
  upgraded-Inv :
      (ctx : ℕ) (key : Key) (out : Option ℕ) (lazy : Bool) (d : System X)
      (upgraded : Result (Upgrader X.Mount))
      → Inv n d
      → Inv n (
          let r : System X × Option Error = elim upgraded [
            | err e ↦ (d, some e)
            | ok u ↦
                let shard = length d.heap in
                (
                  queue_external (call_task register shard ctx out) (record d {
                    heap = d.heap ++ fresh key u lazy ∷ [];
                    shards = insert key shard d.shards;
                  }),
                  none,
                )
          ] in
          r.0)
  upgraded-Inv ctx key out lazy d (err e) v = v
  upgraded-Inv ctx key out lazy d (ok u) v =
      call-Inv register (length d.heap) ctx out _ (λ r. refl) (record { plain = refl; waits = tt })
        (allocated-Inv (fresh key u lazy) d refl refl
          (record { plain_register = tt; plain_recover = tt; plain_acquire = tt }) _ v)

  pub register_shard-Inv :
      (ctx : ℕ) (key : Key) (mnt : X.Mount) (out : Option ℕ) (opts : RegisterOpts)
      (alive : String → Bool) (d : System X)
      → Inv n d
      → Inv n (register_shard ctx key mnt out opts alive d).0
  unfolding register_shard
  register_shard-Inv ctx key mnt out opts alive d v = elim (Option-cases (lookup key d.shards)) [
    | inr (shard, e) ↦ rw (e, register_shard) v
    | inl e ↦ rw (e, register_shard) (upgraded-Inv ctx key out opts.lazy_initialization d _ v)
  ]
