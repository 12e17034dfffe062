-- ===== src/IndexedBlockstore.antt =====
-- indexbs/indexbacked_bs.go: the read-only blockstore over all shards.
pub mod Threads
pub mod Exclusive
pub mod Once
pub mod Presence
mod Tests
use Prim.Native.Char.{code}
use dagstore.Shared.{
  ℕ, ◌+◌, ◌%◌, String, Bool, true, false, Option, none, some, List, [], ◌∷◌, if◌then◌else◌, ltb,
}
use dagstore.Error.{
  Error, Result, ok, err, is_error, datastore_not_found, block_not_found, no_shard_selected,
  shards_not_fetched, selection_failed, op_failed, unsupported_operation,
}
use dagstore.ShardKey.{Key}

-- What the blockstore is made with and the libraries that it calls: CIDs, blocks, the blockstores of
-- shards, the shard selector, and the cache of blockstores, `ttlcache`.
pub record BlockExternals : Type 1 where
  pub Cid : Type 0
  pub Block : Type 0
  pub Blockstore : Type 0
  pub Cache : Type 0
  pub cid_text : Cid → String
  pub hash_text : Cid → String
  pub get : Blockstore → Cid → Result Block
  pub get_size : Blockstore → Cid → Result ℕ
  pub select : Cid → List Key → Result Key
  pub cached : Cache → String → Option Blockstore
  pub cache : Cache → String → Blockstore → Cache
  pub evict : Cache → String → Cache

pub data BlockstoreOp : Type 0 where
  op_get op_get_size : BlockstoreOp

unfoldable pub op_text : BlockstoreOp → String
op_text op_get = "Get"
op_text op_get_size = "GetSize"

pub data OpRes (X : BlockExternals) : Type 0 where
  block : X.Block → OpRes X
  size : ℕ → OpRes X

abbrev pub is_datastore_not_found : Error → Bool
is_datastore_not_found datastore_not_found = true
is_datastore_not_found _ = false

abbrev pub is_no_shard_selected : Error → Bool
is_no_shard_selected no_shard_selected = true
is_no_shard_selected _ = false

-- The byte that ends a text in UTF-8; indexing an empty text panics, `none`.
unfoldable pub last_byte : String → Option ℕ
last_byte String.[] = none
last_byte (String.◌∷◌ c s) =
    let rest = last_byte s in
    elim rest [
      | some b ↦ some b
      | none ↦ some (if ltb (code c) 128 then code c else 128 + code c % 64)
    ]

-- Where `execOp` finds the blockstore, short of acquiring a shard.
pub data Located (X : BlockExternals) : Type 0 where
  fails : Error → Located X
  in_cache : Key → X.Blockstore → Located X
  selected : Key → Located X

module _ (X : BlockExternals) where
  -- The loop over the shards of the block.
  unfoldable pub find_cached : X.Cache → List Key → Option (Key × X.Blockstore)
  find_cached cache [] = none
  find_cached cache (sk ∷ sks) =
      let rest = find_cached cache sks in
      elim (X.cached cache sk.str) [ none ↦ rest | some bs ↦ some (sk, bs) ]

  abbrev pub has_choice : Result Key → Result Bool
  has_choice (ok sk) = ok true
  has_choice (err e) =
      if is_error is_no_shard_selected e then ok false else err (selection_failed e)

  unfoldable pub has_block : X.Cid → (shards : Result (List Key)) → Result Bool
  unfolding is_error
  has_block c (err e) = ok false
  has_block c (ok []) = ok false
  has_block c (ok (sk ∷ sks)) = has_choice (X.select c (sk ∷ sks))

module _ {X : BlockExternals} where
  abbrev pub of_block : Result X.Block → Result (OpRes X)
  of_block (ok b) = ok (block b)
  of_block (err e) = err e

  abbrev pub of_size : Result ℕ → Result (OpRes X)
  of_size (ok n) = ok (size n)
  of_size (err e) = err e

  abbrev pub op_on : BlockstoreOp → X.Blockstore → X.Cid → Result (OpRes X)
  op_on op_get bs c = of_block (X.get bs c)
  op_on op_get_size bs c = of_size (X.get_size bs c)

  abbrev pub wrap_op : BlockstoreOp → Key → Result (OpRes X) → Result (OpRes X)
  wrap_op op sk (ok r) = ok r
  wrap_op op sk (err e) = err (op_failed (op_text op) sk e)

  unfoldable pub exec_op_on_blockstore :
      X.Cid → Key → X.Blockstore → BlockstoreOp → Result (OpRes X)
  unfolding op_text
  exec_op_on_blockstore c sk bs op = wrap_op op sk (op_on op bs c)

  abbrev pub choice : Result Key → Located X
  choice (ok sk) = selected sk
  choice (err e) =
      if is_error is_no_shard_selected e then fails block_not_found else fails (selection_failed e)

  abbrev pub locate_among : X.Cid → X.Cache → List Key → Located X
  locate_among c cache [] = fails block_not_found
  locate_among c cache (sk ∷ sks) = elim (find_cached X cache (sk ∷ sks)) [
    | some (k, bs) ↦ in_cache k bs
    | none ↦ choice (X.select c (sk ∷ sks))
  ]

  -- `shards` is what `ShardsContainingMultihash` answers.
  unfoldable pub locate : X.Cid → X.Cache → (shards : Result (List Key)) → Located X
  unfolding find_cached is_error
  locate c cache (err e) =
      if is_error is_datastore_not_found e
      then fails block_not_found
      else fails (shards_not_fetched (X.cid_text c) (X.hash_text c) e)
  locate c cache (ok sks) = locate_among c cache sks

  -- `Get` and `GetSize` pass on what `execOp` returns.
  unfoldable pub get_result : Result (OpRes X) → Result (Option X.Block)
  get_result (err e) = err e
  get_result (ok (block b)) = ok (some b)
  get_result (ok (size n)) = ok none

  unfoldable pub get_size_result : Result (OpRes X) → Result ℕ
  get_size_result (err e) = err e
  get_size_result (ok (block b)) = ok 0
  get_size_result (ok (size n)) = ok n

-- The methods that change a blockstore, or list it.
unfoldable pub delete_block : Error
delete_block = unsupported_operation "DeleteBlock"

unfoldable pub put_block : Error
put_block = unsupported_operation "Put"

unfoldable pub put_many : Error
put_many = unsupported_operation "PutMany"

unfoldable pub all_keys_chan : Error
all_keys_chan = unsupported_operation "AllKeysChan"
