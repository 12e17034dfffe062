-- ===== src/Store/System/Queries.antt =====
-- dagstore.go: the calls of the application that only read.
use dagstore.Shared.{ℕ, String, Option, none, some, List, [], ◌∷◌, get_elem?}
use dagstore.Error.{Result, ok, err, no_iterable_index, index_not_iterable}
use dagstore.ShardKey.{Key}
use dagstore.Store.Types.{Externals, Shard, ShardInfo}
use dagstore.Store.System.Defs.{System}
use dagstore.Store.System.Calls.{shard_info}

abbrev pub iterated : Option (List String) → Result (List String)
iterated none = err index_not_iterable
iterated (some mhs) = ok mhs

module _ {X : Externals} where
  -- The loop of `AllShardsInfo` over the catalogue.
  unfoldable pub infos : List (Shard X) → List (Key × ℕ) → List (Key × ShardInfo)
  infos heap [] = []
  infos heap ((k, shard) ∷ rest) =
      let more = infos heap rest in
      elim (get_elem? heap shard) [ none ↦ more | some s ↦ (k, shard_info s) ∷ more ]

  unfoldable pub all_shards_info : System X → List (Key × ShardInfo)
  unfolding infos
  all_shards_info d = infos d.heap d.shards

  -- An index that can be iterated over stands for its multihashes.
  unfoldable pub get_iterable_index : Key → System X → Result (List String)
  get_iterable_index key d = elim (X.repo.get_full_index d.indices key) [
    | err e ↦ err (no_iterable_index e)
    | ok idx ↦ iterated (X.iterable idx)
  ]

  unfoldable pub shards_containing_multihash : String → System X → Result (List Key)
  shards_containing_multihash h d = X.get_shards_for_multihash d.top_level_index h
