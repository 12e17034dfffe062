-- ===== src/Store/Properties/Restart.antt =====
-- What `Start` makes of a restored shard.
use dagstore.Shared.{◌≡◌, ◌≢◌, refl, Bool, some, arith}
use dagstore.ShardState.{
  ShardState, new, initializing, available, serving, recovering, errored, unknown,
}
use dagstore.Store.Types.{Externals, register, recover, Shard}
use dagstore.Store.Start.{
  RecoverOnStartPolicy, do_not_recover, recover_on_acquire, recover_now, reset,
}

module _ {X : Externals} where
  reset_from :
      (policy : RecoverOnStartPolicy) (has_index : Bool) (state : ShardState) (s : Shard X)
      → s.state ≡ state
      → let (s', op) = reset policy has_index state s in
        (s'.state ≢ serving)
        × (s'.state ≢ initializing)
        × (op ≡ some register → s'.state ≡ new)
        × (op ≡ some recover → s'.state ≡ errored)
        × (s'.refs ≡ s.refs)
        × (s'.key ≡ s.key)
  unfolding reset
  reset_from do_not_recover has_index errored s e = ground arith
  reset_from recover_on_acquire has_index errored s e = ground arith
  reset_from recover_now has_index errored s e = ground arith
  reset_from policy has_index serving s e = ground arith
  reset_from policy has_index initializing s e = ground arith
  reset_from policy has_index new s e = ground arith
  reset_from policy has_index available s e = ground arith
  reset_from policy has_index recovering s e = ground arith
  reset_from policy has_index unknown s e = ground arith

  -- The reset that `Start` makes of a shard leaves it neither serving nor initializing, whatever the
  -- policy. It queues a registration only if it leaves the shard new, and a recovery only if it
  -- leaves it errored. The key and the count of references stay.
  pub reset_accepted :
      (policy : RecoverOnStartPolicy) (has_index : Bool) (s : Shard X)
      → let (s', op) = reset policy has_index s.state s in
        (s'.state ≢ serving)
        × (s'.state ≢ initializing)
        × (op ≡ some register → s'.state ≡ new)
        × (op ≡ some recover → s'.state ≡ errored)
        × (s'.refs ≡ s.refs)
        × (s'.key ≡ s.key)
  reset_accepted policy has_index s = reset_from policy has_index s.state s refl
