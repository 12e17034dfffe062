-- ===== src/IndexedBlockstore/Tests.antt =====
-- The blockstore over indices at concrete inputs.
use dagstore.Shared.{
  ℕ, ◌+◌, ◌≤◌, ◌≡◌, refl, String, ◌==◌, string_eq, Option, none, some, List, [], ◌∷◌, total,
  if◌then◌else◌,
}
use dagstore.Error.{ok, err, no_shard_selected}
use dagstore.ShardKey.{Key}
use dagstore.IndexedBlockstore.{
  BlockExternals, op_get, block, last_byte, find_cached, has_block, locate, exec_op_on_blockstore,
}
use dagstore.IndexedBlockstore.Threads.{
  opened, Answers, Calls, Event, calls, proceeds, exec_step, calls_step, calls_run, ended,
}
use dagstore.IndexedBlockstore.Exclusive.{IsCache, is_shard, acquires, in_use, new_calls}
use dagstore.IndexedBlockstore.Once.{opened_once}
use dagstore.IndexedBlockstore.Presence.{reported, has-locate}

-- A cache as a function; a block is what the blockstore and the CID add up to.
abbrev sums : BlockExternals
sums = record {
  Cid = ℕ;
  Block = ℕ;
  Blockstore = ℕ;
  Cache = String → Option ℕ;
  cid_text = λ c. "cid";
  hash_text = λ c. "hash";
  get = λ bs c. ok (bs + c);
  get_size = λ bs c. ok 8;
  select = λ c sks. elim sks [ [] ↦ err no_shard_selected | sk ∷ rest ↦ ok sk ];
  cached = λ cache k. cache k;
  cache = λ cache k bs j. if j == k then some bs else cache j;
  evict = λ cache k j. if j == k then none else cache j;
}

abbrev empty : String → Option ℕ
empty k = none

abbrev key_a : Key
key_a = record { str = "a" }

abbrev found_in_a : Answers sums
found_in_a = record { shards = ok (key_a ∷ []); queued = none; arrival = opened (ok 40) }

-- Two calls, of which the second waits for the lock while the first acquires the shard.
abbrev two_calls : List (Event sums)
two_calls =
    calls 1 op_get
    ∷ calls 2 op_get
    ∷ proceeds 0 found_in_a
    ∷ proceeds 1 found_in_a
    ∷ proceeds 0 found_in_a
    ∷ proceeds 1 found_in_a
    ∷ proceeds 0 found_in_a
    ∷ proceeds 0 found_in_a
    ∷ proceeds 1 found_in_a
    ∷ proceeds 1 found_in_a
    ∷ proceeds 0 found_in_a
    ∷ proceeds 1 found_in_a
    ∷ []

abbrev after_calls : Calls sums
after_calls = record {
  cache = λ j. if j == "a" then some 40 else none;
  threads = ended (ok (block 41)) ∷ ended (ok (block 42)) ∷ [];
  opened_shards = key_a ∷ [];
  evicted = [];
}

test_two_calls : calls_run two_calls (new_calls {X = sums} empty) ≡ some after_calls
unfolding calls_run calls_step exec_step locate find_cached exec_op_on_blockstore last_byte
test_two_calls = refl

sums-IsCache : IsCache sums
sums-IsCache = record { cached-cache = λ c k j bs. refl; cached-evict = λ c k j. refl }

stripe_of_a : last_byte "a" ≡ some 97
unfolding last_byte
stripe_of_a = refl

opened_once_example :
    (total (is_shard key_a) after_calls.opened_shards
      ≡ in_use (after_calls.cache "a") + total (is_shard key_a) after_calls.evicted)
    × (in_use (after_calls.cache "a") + total (acquires {X = sums} key_a) after_calls.threads ≤ 1)
opened_once_example =
    opened_once {X = sums} sums-IsCache key_a empty (λ j. refl) two_calls after_calls test_two_calls
      97 stripe_of_a

-- Indexing an empty key panics.
abbrev found_nowhere : Answers sums
found_nowhere = record found_in_a { shards = ok (record { str = "" } ∷ []) }

test_empty_key :
    calls_run
      (calls 1 op_get ∷ proceeds 0 found_nowhere ∷ proceeds 0 found_nowhere ∷ [])
      (new_calls {X = sums} empty)
    ≡ none
unfolding calls_run calls_step exec_step locate find_cached last_byte
test_empty_key = refl

has-locate_example :
    has_block sums 1 (ok (key_a ∷ [])) ≡ reported sums (locate {X = sums} 1 empty (ok (key_a ∷ [])))
unfolding find_cached
has-locate_example = has-locate sums 1 empty (key_a ∷ []) refl
