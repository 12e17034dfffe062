-- ===== src/Store/Properties/Faults.antt =====
-- Where the event loop does not do what its comments and its interface say.
use dagstore.Shared.{
  ℕ, suc, ◌≡◌, Bool, true, false, Option, none, some, [], ◌∷◌, ◌++◌, arith, string_eq,
}
use dagstore.Error.{Error, initialization_failed}
use dagstore.ShardKey.{key_eq}
use dagstore.ShardState.{new, initializing, available, recovering, errored}
use dagstore.Store.Types.{Externals, Waiter, initialize, fail, Task, Shard}
use dagstore.Store.Turn.{Turn, acquire_async}
use dagstore.Store.Control.{
  on_register, on_initialize, on_make_available, on_acquire, on_release, on_fail, on_recover,
  on_destroy,
}
use dagstore.Store.Start.{RecoverOnStartPolicy, reset}
use dagstore.Store.System.Gc.{reclaimable}

module _ {X : Externals} where
  -- While an errored shard recovers, a release is ignored. When the recovery then ends with no
  -- acquirer parked, the shard is available with as many references as before the release: a garbage
  -- collection may reclaim it, and a request to destroy it is refused.
  pub release_lost_in_recovery :
      (removed : Option Error) (w v : Waiter) (tsk rel done del : Task) (s : Shard X)
      (repo : X.Repo) (n : ℕ)
      → s.state ≡ errored
      → s.refs ≡ suc n
      → s.w_acquire ≡ []
      → let t₁ = on_recover removed w tsk s repo in
        let t₂ = on_release rel t₁.shard t₁.indices in
        let t₃ = on_make_available done t₂.shard t₂.indices in
        (t₃.shard.state ≡ available)
        × (t₃.shard.refs ≡ suc n)
        × (reclaimable t₃.shard ≡ true)
        × ((on_destroy v del t₃.shard t₃.indices).removed ≡ false)
  unfolding on_recover on_release on_make_available on_destroy reclaimable
  release_lost_in_recovery removed w v tsk rel done del s repo n e h p = ground arith

  -- When the last accessor of an errored shard is closed, the shard becomes available with its error
  -- still set, and the next acquisition is served, though nothing was recovered.
  pub errored_serves_again :
      (rel acq : Task) (w : Waiter) (s : Shard X) (repo : X.Repo) (e : Error)
      → s.state ≡ errored
      → s.err ≡ some e
      → s.refs ≡ 1
      → let t₁ = on_release rel s repo in
        let t₂ = on_acquire w acq t₁.shard t₁.indices in
        (t₁.shard.state ≡ available)
        × (t₁.shard.err ≡ some e)
        × (t₂.results ≡ [])
        × (t₂.spawned
            ≡ acquire_async
                (record { ctx = w.ctx; out_ch = w.out_ch; notify_dead = none })
                acq.shard
              ∷ [])
  unfolding on_release on_acquire
  errored_serves_again rel acq w s repo e h i j = ground arith

  pub recovering_stuck :
      (policy : RecoverOnStartPolicy) (has_index : Bool) (removed : Option Error) (w v : Waiter)
      (acq rec : Task) (s : Shard X) (repo : X.Repo)
      → s.state ≡ recovering
      → let (s', op) = reset policy has_index s.state s in
        let t₁ = on_acquire w acq s' repo in
        let t₂ = on_recover removed v rec t₁.shard t₁.indices in
        (op ≡ none)
        × (t₁.shard.w_acquire
            ≡ s.w_acquire ++ record { ctx = w.ctx; out_ch = w.out_ch; notify_dead = none } ∷ [])
        × (t₁.staged ≡ [])
        × (t₁.spawned ≡ [])
        × (t₁.results ≡ [])
        × (t₂.staged ≡ [])
        × (t₂.spawned ≡ [])
        × (t₂.shard ≡ t₁.shard)
        × (t₂.shard.state ≡ recovering)
  unfolding reset on_acquire on_recover
  recovering_stuck policy has_index removed w v acq rec s repo h = ground arith

  pub acquire_overtakes_register :
      (fch : Option ℕ) (w v : Waiter) (acq reg : Task) (s : Shard X) (repo : X.Repo) (t₂ : Turn X)
      → s.state ≡ new
      → s.w_register ≡ none
      → reg.waiter ≡ some v
      → let t₁ = on_acquire w acq s repo in
        (i : Task)
        → t₁.staged ≡ i ∷ []
        → on_initialize i t₁.shard t₁.indices ≡ some t₂
        → let t₃ = on_register reg t₂.shard t₂.indices in
          (f : Task)
          → t₃.staged ≡ f ∷ []
          → (i.op ≡ initialize)
            × (f.op ≡ fail)
            × (f.err ≡ some (initialization_failed initializing))
            × (t₃.results ≡ [])
            × (t₃.shard.w_register ≡ none)
            × ((on_fail fch f t₃.shard t₃.indices).shard.state ≡ errored)
  unfolding on_acquire on_initialize on_register on_fail
  acquire_overtakes_register fch w v acq reg s repo t₂ e h k i staged init f failed = ground arith
