-- ===== src/Store/QueryTests.antt =====
-- The calls that read, at concrete inputs.
use dagstore.Shared.{◌≡◌, refl, String, true, false, List, [], ◌∷◌, lookup, string_eq, arith}
use dagstore.Error.{ok}
use dagstore.ShardKey.{Key, key_eq}
use dagstore.Index.Inverted.{has, index_one, add_multihashes_for_shard}
use dagstore.Store.Types.{caller}
use dagstore.Store.Async.{adding}
use dagstore.Store.System.Queries.{get_iterable_index, shards_containing_multihash}
use dagstore.Store.System.Steps.{on_adds}
use dagstore.Store.Properties.Findable.{IsIndexing, with_indices-IsIndexing, initialized_findable}
use dagstore.Store.Accessor.{new_views, blockstore, close}
use dagstore.Store.Accessor.Mappings.{in_list, first_mapping_leaks}
use dagstore.Store.Example.{
  example, store_of, broken, a_key, datastore_key, no_faults, written_size,
}

abbrev same_text : String → String
same_text text = text

pub example-IsIndexing : IsIndexing example
example-IsIndexing =
    with_indices-IsIndexing example written_size datastore_key same_text no_faults no_faults
      (λ k. refl)

initialized_findable_example :
    let d = on_adds 0 (adding (caller 1) 0 ("mh" ∷ "mh2" ∷ [])) (store_of broken) in
    (get_iterable_index a_key d ≡ ok ("mh" ∷ "mh2" ∷ []))
    × ((keys : List Key) × (shards_containing_multihash "mh2" d ≡ ok keys)
        × (has keys a_key ≡ true))
unfolding add_multihashes_for_shard index_one lookup
initialized_findable_example =
    initialized_findable example written_size datastore_key same_text no_faults no_faults
      (λ k. refl) 0 (caller 1) 0 ("mh" ∷ "mh2" ∷ []) ("mh" ∷ "mh2" ∷ []) (store_of broken) broken
      "mh2" refl refl refl refl

first_mapping_leaks_example :
    let v = (blockstore (ok 1) (new_views true [])).0 in
    in_list 1 (close false (blockstore (ok 2) v).0).mappings ≡ true
first_mapping_leaks_example = first_mapping_leaks 1 2 [] (λ e. omega (arith, e))
