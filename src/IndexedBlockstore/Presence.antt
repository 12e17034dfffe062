-- ===== src/IndexedBlockstore/Presence.antt =====
-- indexbs/indexbacked_bs.go: what `Has` reports of a block that `Get` is to find.
use dagstore.Shared.{◌≡◌, refl, Bool, true, false, none, some, List, [], ◌∷◌, arith}
use dagstore.Error.{Result, ok, err, is_error, block_not_found, no_shard_selected}
use dagstore.ShardKey.{Key}
use dagstore.IndexedBlockstore.{
  BlockExternals, Located, fails, in_cache, selected, find_cached, has_choice, has_block, choice,
  locate,
}

module _ (X : BlockExternals) where
  -- What `Has` answers if it goes by where the blockstore is found.
  abbrev pub reported : Located X → Result Bool
  reported (fails block_not_found) = ok false
  reported (fails e) = err e
  reported (in_cache sk bs) = ok true
  reported (selected sk) = ok true

  reported-choice : (r : Result Key) → has_choice X r ≡ reported (choice {X = X} r)
  reported-choice (ok sk) = refl
  reported-choice (err e) = ground arith

  -- Whatever shards the index gives for a block, if none of them has a blockstore in the cache, `Has`
  -- answers as `execOp` goes on: true if a shard is selected, false if it fails with `ErrBlockNotFound`,
  -- and otherwise with the same error.
  pub has-locate :
      (c : X.Cid) (cache : X.Cache) (sks : List Key)
      → find_cached X cache sks ≡ none
      → has_block X c (ok sks) ≡ reported (locate {X = X} c cache (ok sks))
  unfolding has_block locate
  has-locate c cache [] e = refl
  has-locate c cache (sk ∷ sks) e = ground (arith, e, reported-choice (X.select c (sk ∷ sks)))

  -- The selector is not asked about cached blockstores: if it rejects all shards of a block, and the
  -- blockstore of one is cached, `Has` reports that the block is missing and `execOp` uses the blockstore.
  pub cache_bypasses_selection :
      (c : X.Cid) (cache : X.Cache) (sks : List Key) (k : Key) (bs : X.Blockstore)
      → find_cached X cache sks ≡ some (k, bs)
      → X.select c sks ≡ err no_shard_selected
      → (has_block X c (ok sks) ≡ ok false) × (locate {X = X} c cache (ok sks) ≡ in_cache k bs)
  unfolding has_block locate is_error
  cache_bypasses_selection c cache [] k bs e r = cc
  cache_bypasses_selection c cache (sk ∷ sks) k bs e r = (rw (r, has_block) refl, ground (arith, e))
