-- ===== src/Store/Properties/Mirrored/Untouched.antt =====
-- dagstore.go, dagstore_async.go, dispatcher.go: the steps that concern neither shards nor records.
use dagstore.Shared.{ℕ, ◌≡◌, Bool, Option, List, arith, string_eq}
use dagstore.Error.{Error}
use dagstore.ShardKey.{Key, key_eq}
use dagstore.Store.Types.{Externals, Dispatch}
use dagstore.Store.Async.{Goroutine}
use dagstore.Store.System.Defs.{System}
use dagstore.Store.System.Calls.{destroy_shard, acquire_shard, recover_shard, close_accessor}
use dagstore.Store.System.Steps.{on_indexes, on_adds, on_sends, deliver, deliver_failure}

module _ {X : Externals} where
  -- What the mirror is of stays.
  pub record IsUntouched (d d' : System X) : Type 0 where
    pub mounts : d'.mounts ≡ d.mounts
    pub heap : d'.heap ≡ d.heap
    pub store : d'.store ≡ d.store

  pub on_indexes-IsUntouched :
      (i : ℕ) (ctx_err : Option Error) (g : Goroutine X) (d : System X)
      → IsUntouched d (on_indexes i ctx_err g d)
  unfolding on_indexes
  on_indexes-IsUntouched i ctx_err g d = ground arith

  pub on_adds-IsUntouched : (i : ℕ) (g : Goroutine X) (d : System X) → IsUntouched d (on_adds i g d)
  unfolding on_adds
  on_adds-IsUntouched i g d = ground arith

  pub on_sends-IsUntouched :
      (i : ℕ) (g : Goroutine X) (d : System X) → IsUntouched d (on_sends i g d)
  unfolding on_sends
  on_sends-IsUntouched i g d = ground arith

  pub deliver-IsUntouched :
      (dead : Bool) (l : List (Dispatch X)) (d : System X) → IsUntouched d (deliver dead l d)
  unfolding deliver
  deliver-IsUntouched dead l d = ground arith

  pub deliver_failure-IsUntouched :
      (l : List (Dispatch X)) (d : System X) → IsUntouched d (deliver_failure l d)
  unfolding deliver_failure
  deliver_failure-IsUntouched l d = ground arith

  pub destroy_shard-IsUntouched :
      (ctx : ℕ) (key : Key) (out : Option ℕ) (d : System X)
      → IsUntouched d (destroy_shard ctx key out d).0
  unfolding destroy_shard
  destroy_shard-IsUntouched ctx key out d = ground arith

  pub acquire_shard-IsUntouched :
      (ctx : ℕ) (key : Key) (out : Option ℕ) (d : System X)
      → IsUntouched d (acquire_shard ctx key out d).0
  unfolding acquire_shard
  acquire_shard-IsUntouched ctx key out d = ground arith

  pub recover_shard-IsUntouched :
      (ctx : ℕ) (key : Key) (out : Option ℕ) (d : System X)
      → IsUntouched d (recover_shard ctx key out d).0
  unfolding recover_shard
  recover_shard-IsUntouched ctx key out d = ground arith

  pub close_accessor-IsUntouched : (i : ℕ) (d : System X) → IsUntouched d (close_accessor i d)
  unfolding close_accessor
  close_accessor-IsUntouched i d = ground arith
