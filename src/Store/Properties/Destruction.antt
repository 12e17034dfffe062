-- ===== src/Store/Properties/Destruction.antt =====
-- What a destruction takes away, and what it should not.
use dagstore.Shared.{
  ℕ, ◌<◌, ◌≡◌, ◌≢◌, refl, false, String, none, some, List, get_elem?, lookup, erase, lookup-erase,
  get_elem?-set_self, ap, ◌∙◌, arith, string_eq,
}
use dagstore.ShardKey.{Key, key_eq, key_beq_iff}
use dagstore.ShardState.{serving}
use dagstore.Store.Types.{Externals, Waiter, destroy, Task, Shard}
use dagstore.Store.Control.{on_destroy, dispatch_op, handle}
use dagstore.Store.System.Defs.{System}
use dagstore.Store.System.Loop.{Answers, settle, process}

module _ {ℓ} {V : Type ℓ} where
  lookup-erase_key : (k : Key) (m : List (Key × V)) → lookup k (erase k m) ≡ none
  lookup-erase_key k m = rw (lookup-erase k k m, (key_beq_iff k k).1 refl)

  lookup-erase_string : (k : String) (m : List (String × V)) → lookup k (erase k m) ≡ none
  lookup-erase_string k m = rw (lookup-erase k k m, (string_eq.beq_iff k k).1 refl)

module _ {X : Externals} (a : Answers) (tsk : Task) (d : System X) (s : Shard X) (w : Waiter)
    (at_task : get_elem? d.heap tsk.shard ≡ some s) (op : tsk.op ≡ destroy)
    (waits : tsk.waiter ≡ some w) where
  handled : handle d.failure_ch a.removed tsk s d.indices ≡ some (on_destroy w tsk s d.indices)
  unfolding handle
  handled =
      ap (λ o. dispatch_op d.failure_ch a.removed o tsk.waiter tsk s d.indices) op
      ∙ ap (λ v. dispatch_op d.failure_ch a.removed destroy v tsk s d.indices) waits

  processed : process a tsk d ≡ some (settle a tsk (on_destroy w tsk s d.indices) d)
  unfolding process
  processed = rw (at_task, process) (rw (handled, process) refl)

  -- A destruction of a shard that has references leaves the shard and the catalogue as they were,
  -- but removes the record of the shard from the datastore all the same, unless the datastore fails
  -- to.
  pub refused_destroy_forgets :
      0 < s.refs
      → a.delete_failed ≡ false
      → (d' : System X) × (process a tsk d ≡ some d')
        × (get_elem? d'.heap tsk.shard ≡ some s)
        × (d'.shards ≡ d.shards)
        × (lookup (X.new_key s.key.str) d'.store ≡ none)
  unfolding settle on_destroy
  refused_destroy_forgets h f = (
    settle a tsk (on_destroy w tsk s d.indices) d,
    processed,
    ground (arith, get_elem?-set_self d.heap tsk.shard s s at_task),
    ground arith,
    ground (arith, lookup-erase_string (X.new_key s.key.str) d.store),
  )

  -- A destruction of a shard that does not serve and has no references takes its key out of the
  -- catalogue, even if another shard is registered under the key by then.
  pub stale_destroy_unregisters :
      (other : ℕ)
      → lookup s.key d.shards ≡ some other
      → other ≢ tsk.shard
      → s.state ≢ serving
      → s.refs ≡ 0
      → (d' : System X) × (process a tsk d ≡ some d') × (lookup s.key d'.shards ≡ none)
  unfolding settle on_destroy
  stale_destroy_unregisters other registered ne idle free = (
    settle a tsk (on_destroy w tsk s d.indices) d,
    processed,
    ground (arith, lookup-erase_key s.key d.shards),
  )
