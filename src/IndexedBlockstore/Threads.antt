-- ===== src/IndexedBlockstore/Threads.antt =====
-- indexbs/indexbacked_bs.go: concurrent calls of `execOp`, with the striped lock and the cache.
use dagstore.Shared.{
  ℕ, Option, none, some, List, [], ◌∷◌, ◌++◌, get_elem?, set, total, if◌then◌else◌, nat_beq,
}
use dagstore.Error.{Error, Result, ok, err, shard_not_acquired, no_blockstore}
use dagstore.ShardKey.{Key}
use dagstore.IndexedBlockstore.{
  BlockExternals, BlockstoreOp, OpRes, Located, fails, in_cache, selected, last_byte, locate,
  exec_op_on_blockstore,
}

-- A call of `execOp`: before it looks for the blockstore, before the lock of the shard, with the lock,
-- with the lock and an acquisition under way, before the operation, and at its end.
pub data Thread (X : BlockExternals) : Type 0 where
  looking : X.Cid → BlockstoreOp → Thread X
  locking checking acquiring : X.Cid → BlockstoreOp → Key → Thread X
  using : X.Cid → BlockstoreOp → Key → X.Blockstore → Thread X
  ended : Result (OpRes X) → Thread X

-- How the wait for the shard ends.
pub data Arrival (X : BlockExternals) : Type 0 where
  cancelled failed : Error → Arrival X
  opened : Result X.Blockstore → Arrival X

pub record Answers (X : BlockExternals) : Type 0 where
  pub shards : Result (List Key)
  -- What `AcquireShard` returns.
  pub queued : Option Error
  pub arrival : Arrival X

pub record Calls (X : BlockExternals) : Type 0 where
  pub cache : X.Cache
  pub threads : List (Thread X)
  -- The shards whose blockstores were opened, the latest first.
  pub opened_shards : List Key
  -- Those that the cache gave up; their accessors are closed.
  pub evicted : List Key

pub data Event (X : BlockExternals) : Type 0 where
  calls : X.Cid → BlockstoreOp → Event X
  proceeds : ℕ → Answers X → Event X
  -- The cache gives up an entry, by its age or for its own size.
  evicts : Key → Event X

-- Whether a thread holds the lock of a stripe.
abbrev pub is_stripe : ℕ → Option ℕ → ℕ
is_stripe n none = 0
is_stripe n (some m) = if nat_beq n m then 1 else 0

module _ {X : BlockExternals} where
  abbrev pub holds : ℕ → Thread X → ℕ
  holds n (checking c op sk) = is_stripe n (last_byte sk.str)
  holds n (acquiring c op sk) = is_stripe n (last_byte sk.str)
  holds n t = 0

  abbrev pub after_locate : X.Cid → BlockstoreOp → Located X → Thread X
  after_locate c op (fails e) = ended (err e)
  after_locate c op (in_cache sk bs) = using c op sk bs
  after_locate c op (selected sk) = locking c op sk

  -- The lock is taken if no thread holds it. The first index that a panic can have is `none`.
  abbrev pub lock_step :
      X.Cid → BlockstoreOp → Key → (stripe : Option ℕ) → Calls X → Option (Thread X)
  lock_step c op sk none s = none
  lock_step c op sk (some n) s =
      some (if nat_beq (total (holds n) s.threads) 0 then checking c op sk else locking c op sk)

  abbrev pub check_step : X.Cid → BlockstoreOp → Key → Option X.Blockstore → Option Error → Thread X
  check_step c op sk (some bs) queued = using c op sk bs
  check_step c op sk none (some e) = ended (err (shard_not_acquired sk e))
  check_step c op sk none none = acquiring c op sk

  -- The end of the locked part: the thread, and what is opened.
  abbrev pub arrive : X.Cid → BlockstoreOp → Key → Arrival X → Calls X → Calls X × Thread X
  arrive c op sk (cancelled e) s = (s, ended (err e))
  arrive c op sk (failed e) s = (s, ended (err (shard_not_acquired sk e)))
  arrive c op sk (opened (err e)) s = (s, ended (err (no_blockstore sk e)))
  arrive c op sk (opened (ok bs)) s = (
    record s { cache = X.cache s.cache sk.str bs; opened_shards = sk ∷ s.opened_shards },
    using c op sk bs,
  )

  abbrev pub with_same : Calls X → Option (Thread X) → Option (Calls X × Thread X)
  with_same s none = none
  with_same s (some t) = some (s, t)

  -- `none` is a panic.
  unfoldable pub exec_step : Answers X → Thread X → Calls X → Option (Calls X × Thread X)
  unfolding locate exec_op_on_blockstore
  exec_step a (looking c op) s = some (s, after_locate c op (locate c s.cache a.shards))
  exec_step a (locking c op sk) s = with_same s (lock_step c op sk (last_byte sk.str) s)
  exec_step a (checking c op sk) s = some (s, check_step c op sk (X.cached s.cache sk.str) a.queued)
  exec_step a (acquiring c op sk) s = some (arrive c op sk a.arrival s)
  exec_step a (using c op sk bs) s = some (s, ended (exec_op_on_blockstore c sk bs op))
  exec_step a (ended r) s = some (s, ended r)

  abbrev pub put_thread : ℕ → Option (Calls X × Thread X) → Option (Calls X)
  put_thread i none = none
  put_thread i (some (s, t)) = some (record s { threads = set s.threads i t })

  -- The callback of the cache closes the accessor.
  abbrev pub evict_shard : Key → Option X.Blockstore → Calls X → Calls X
  evict_shard sk none s = s
  evict_shard sk (some bs) s = record s { cache = X.evict s.cache sk.str; evicted = sk ∷ s.evicted }

  unfoldable pub calls_step : Event X → Calls X → Option (Calls X)
  unfolding exec_step
  calls_step (calls c op) s = some (record s { threads = s.threads ++ looking c op ∷ [] })
  calls_step (proceeds i a) s = elim (get_elem? s.threads i) [
    | none ↦ some s
    | some t ↦ put_thread i (exec_step a t s)
  ]
  calls_step (evicts sk) s = some (evict_shard sk (X.cached s.cache sk.str) s)

  unfoldable pub calls_run : List (Event X) → Calls X → Option (Calls X)
  unfolding calls_step
  calls_run [] s = some s
  calls_run (e ∷ es) s = elim (calls_step e s) [ none ↦ none | some s' ↦ calls_run es s' ]
