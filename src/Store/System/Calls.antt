-- ===== src/Store/System/Calls.antt =====
-- dagstore.go: the calls of the application. `queueTask` is a step of its own: each call leaves a
-- goroutine that has yet to send. The second part of a result is the error that the call returns.
use dagstore.Shared.{
  ℕ, String, Bool, false, Option, none, some, [], ◌∷◌, ◌++◌, length, erase_idx, get_elem?, lookup,
  insert,
}
use dagstore.Error.{Error, Result, ok, err, for_key, shard_exists, shard_unknown}
use dagstore.ShardKey.{Key, key_eq}
use dagstore.ShardState.{new}
use dagstore.Mount.Upgrader.{Upgrader, upgrade}
use dagstore.Store.Types.{
  Externals, caller, OpType, register, destroy, acquire, release, recover, Task, Shard, ShardInfo,
}
use dagstore.Store.Async.{sending, to_external, task_of}
use dagstore.Store.System.Defs.{System}

pub record RegisterOpts : Type 0 where
  pub existing_transient : String
  pub lazy_initialization : Bool

abbrev pub fresh : {X : Externals} → Key → Upgrader X.Mount → Bool → Shard X
fresh k u lazy = record {
  key = k;
  mount = u;
  lazy = lazy;
  state = new;
  err = none;
  recover_on_next_acquire = false;
  w_register = none;
  w_recover = none;
  w_acquire = [];
  w_destroy = none;
  refs = 0;
}

abbrev pub call_task : OpType → ℕ → (ctx : ℕ) → (out : Option ℕ) → Task
call_task op shard ctx out = record {
  waiter = some (record { ctx = caller ctx; out_ch = out; notify_dead = none });
  op = op;
  shard = shard;
  err = none;
}

module _ {X : Externals} where
  -- `queueTask(tsk, d.externalCh)`
  abbrev pub queue_external : Task → System X → System X
  queue_external tsk d = record d {
    goroutines = d.goroutines ++ sending (to_external tsk ∷ []) ∷ [];
  }

  -- `alive` is whether `os.Stat` finds the existing transient.
  unfoldable pub register_shard :
      (ctx : ℕ)
      → Key
      → X.Mount
      → (out : Option ℕ) → RegisterOpts
      → (alive : String → Bool) → System X
      → System X × Option Error
  register_shard ctx key mnt out opts alive d = elim (lookup key d.shards) [
    | some _ ↦ (d, some (for_key key shard_exists))
    | none ↦
        elim (upgrade X.os X.mount alive mnt d.throttle_ready_fetch d.transients_dir key.str
          opts.existing_transient) [
            | err e ↦ (d, some e)
            | ok upgraded ↦
                let shard = length d.heap in
                (
                  queue_external (call_task register shard ctx out) (record d {
                    heap = d.heap ++ fresh key upgraded opts.lazy_initialization ∷ [];
                    shards = insert key shard d.shards;
                  }),
                  none,
                )
          ]
  ]

  unfoldable pub destroy_shard :
      (ctx : ℕ) → Key → (out : Option ℕ) → System X → System X × Option Error
  destroy_shard ctx key out d = elim (lookup key d.shards) [
    | none ↦ (d, some shard_unknown)
    | some shard ↦ (queue_external (call_task destroy shard ctx out) d, none)
  ]

  unfoldable pub acquire_shard :
      (ctx : ℕ) → Key → (out : Option ℕ) → System X → System X × Option Error
  acquire_shard ctx key out d = elim (lookup key d.shards) [
    | none ↦ (d, some (for_key key shard_unknown))
    | some shard ↦ (queue_external (call_task acquire shard ctx out) d, none)
  ]

  unfoldable pub recover_shard :
      (ctx : ℕ) → Key → (out : Option ℕ) → System X → System X × Option Error
  recover_shard ctx key out d = elim (lookup key d.shards) [
    | none ↦ (d, some (for_key key shard_unknown))
    | some shard ↦ (queue_external (call_task recover shard ctx out) d, none)
  ]

  -- accessor.go: `Close`, of the open accessor at an index. It is then no longer open: an accessor is
  -- closed once, as `io.Closer` asks.
  unfoldable pub close_accessor : ℕ → System X → System X
  close_accessor i d = elim (get_elem? d.accessors i) [
    | none ↦ d
    | some a ↦
        queue_external (task_of release a.shard none)
          (record d { accessors = erase_idx d.accessors i })
  ]

  abbrev pub shard_info : Shard X → ShardInfo
  shard_info s = record { state = s.state; error = s.err; refs = s.refs }

  unfoldable pub get_shard_info : Key → System X → Result ShardInfo
  get_shard_info k d = elim (lookup k d.shards) [
    | none ↦ err shard_unknown
    | some shard ↦ elim (get_elem? d.heap shard) [
      | none ↦ err shard_unknown
      | some s ↦ ok (shard_info s)
    ]
  ]
