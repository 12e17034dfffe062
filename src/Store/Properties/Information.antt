-- ===== src/Store/Properties/Information.antt =====
-- dagstore.go: `AllShardsInfo` and `GetShardInfo`.
use dagstore.Shared.{
  ℕ, ◌≡◌, ◌≢◌, refl, inl, inr, Option, none, some, List, [], ◌∷◌, All, get_elem?, lookup, arith,
  Option-cases,
}
use dagstore.Error.{Result, ok, err}
use dagstore.ShardKey.{Key, key_eq}
use dagstore.Store.Types.{Externals, Shard, ShardInfo}
use dagstore.Store.System.Defs.{System}
use dagstore.Store.System.Calls.{shard_info, get_shard_info}
use dagstore.Store.System.Queries.{infos, all_shards_info}

-- What a lookup finds, whatever its error.
abbrev pub known : Result ShardInfo → Option ShardInfo
known (ok info) = some info
known (err e) = none

module _ {X : Externals} where
  -- A pointer of the catalogue is to a shard.
  abbrev pub IsPointer : List (Shard X) → Key × ℕ → Type 0
  IsPointer heap (k, shard) = get_elem? heap shard ≢ none

  abbrev pub info_at : List (Shard X) → Option ℕ → Option ShardInfo
  info_at heap none = none
  info_at heap (some shard) = elim (get_elem? heap shard) [
    | none ↦ none
    | some s ↦ some (shard_info s)
  ]

  lookup-infos :
      (k : Key) (heap : List (Shard X)) (shards : List (Key × ℕ))
      → All (IsPointer heap) shards
      → lookup k (infos heap shards) ≡ info_at heap (lookup k shards)
  unfolding infos lookup
  lookup-infos k heap [] v = refl
  lookup-infos k heap ((j, shard) ∷ rest) v = elim (Option-cases (get_elem? heap shard)) [
    | inl e ↦ absurd (v.0 e)
    | inr (s, e) ↦ ground (arith, e, lookup-infos k heap rest v.1)
  ]

  -- Under each key, `AllShardsInfo` has what `GetShardInfo` answers for it, and nothing where that knows
  -- no shard; this is for a catalogue whose pointers are to shards.
  pub lookup-all_shards_info :
      (k : Key) (d : System X)
      → All (IsPointer d.heap) d.shards
      → lookup k (all_shards_info d) ≡ known (get_shard_info k d)
  unfolding all_shards_info get_shard_info
  lookup-all_shards_info k d v = ground (arith, lookup-infos k d.heap d.shards v)
