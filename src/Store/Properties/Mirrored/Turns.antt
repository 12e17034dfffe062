-- ===== src/Store/Properties/Mirrored/Turns.antt =====
-- dagstore_control.go: what a round leaves of the identity of its shard.
use dagstore.Shared.{ℕ, ◌+◌, ◌≡◌, refl, Option, none, some, List, [], ◌∷◌, arith}
use mathlib.Core.Path.{subst}
use mathlib.Core.Option.{some-injective}
use dagstore.Error.{Error}
use dagstore.Store.Types.{
  Externals, Waiter, OpType, register, initialize, make_available, destroy, acquire, fail, release,
  recover, Task, Shard,
}
use dagstore.ShardState.{serving}
use dagstore.Store.Turn.{Turn, u32}
use dagstore.Mount.Upgrader.{delete_transient}
use dagstore.Store.Control.{
  trigger, on_register, on_initialize, on_make_available, on_acquire, on_release, on_fail,
  on_recover, on_destroy, dispatch_op, handle,
}

module _ {X : Externals} where
  -- The same shard, in whatever state.
  abbrev pub IsSame : Shard X → Shard X → Type 0
  IsSame s s' = (s'.key ≡ s.key) × (s'.mount.underlying ≡ s.mount.underlying)

  trigger-IsSame : (ws : List Waiter) (s : Shard X) → IsSame s (trigger ws s)
  unfolding trigger
  trigger-IsSame [] s = (refl, refl)
  trigger-IsSame (w ∷ ws) s =
      trigger-IsSame ws (record s { state = serving; refs = u32 (s.refs + 1) })

  module _ (tsk : Task) (s : Shard X) (repo : X.Repo) (fch : Option ℕ)
      (removed : Option Error) where
    dispatch_op-IsSame :
        (op : OpType) (w : Option Waiter) (t : Turn X)
        → dispatch_op fch removed op w tsk s repo ≡ some t
        → IsSame s t.shard
    unfolding on_register on_initialize on_make_available on_acquire on_release on_fail on_recover
        on_destroy delete_transient
    dispatch_op-IsSame register w t e = ground arith
    dispatch_op-IsSame initialize w t e = ground arith
    dispatch_op-IsSame make_available w t e =
        subst (λ v. IsSame s v.shard) (some-injective _ t e) (trigger-IsSame s.w_acquire _)
    dispatch_op-IsSame release w t e = ground arith
    dispatch_op-IsSame fail w t e = ground arith
    dispatch_op-IsSame acquire (some w) t e = ground arith
    dispatch_op-IsSame recover (some w) t e = ground arith
    dispatch_op-IsSame destroy (some w) t e = ground arith
    dispatch_op-IsSame acquire none t e = cc
    dispatch_op-IsSame recover none t e = cc
    dispatch_op-IsSame destroy none t e = cc

    pub handle-IsSame : (t : Turn X) → handle fch removed tsk s repo ≡ some t → IsSame s t.shard
    unfolding handle
    handle-IsSame t e = dispatch_op-IsSame tsk.op tsk.waiter t e
