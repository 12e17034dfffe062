-- ===== src/Index/Inverted.antt =====
-- index/inverted_index_impl.go: the index from a multihash to the shards that contain it.
pub mod Laws
pub mod Calls
use dagstore.Shared.{
  ℕ, String, ◌≡◌, Bool, true, false, Option, none, some, List, [], ◌∷◌, ◌++◌, lookup, insert,
  if◌then◌else◌, ◌==◌, string_eq,
}
use dagstore.Error.{
  Error, Result, ok, err, ◌>>=◌, datastore_not_found, value_not_read, entry_not_created,
  entry_not_extended, lookup_failed, entry_not_added, no_batch, no_commit, no_sync,
}
use dagstore.ShardKey.{Key, key_eq}

-- The datastore, whose values are JSON arrays of shard keys.
abbrev pub Datastore : Type 0
Datastore = List (String × List Key)

-- The answers of the datastore other than success and `ErrNotFound`. A batch is not a transaction: where
-- `Commit` fails, the fault says of which keys it has written the entry.
pub record Faults : Type 0 where
  pub batch : Option Error
  pub get : String → Option Error
  pub put : String → Option Error
  pub commit : Option ((String → Bool) × Error)
  pub sync : Option Error

unfoldable pub has : List Key → Key → Bool
has [] k = false
has (s ∷ es) k = let rest = has es k in if s == k then true else rest

-- `ds.NewKey` of the bytes of a multihash, and what `%s` prints of it.
module _ (new_key mh_text : String → String) (faults : Faults) where
  -- `batch.Put`
  abbrev pub batch_put : (String → Error → Error) → String → List Key → Datastore → Result Datastore
  batch_put failed mh es batch = elim (faults.put (new_key mh)) [
    | some e ↦ err (failed (mh_text mh) e)
    | none ↦ ok (insert (new_key mh) es batch)
  ]

  -- The callback on one multihash: `Get` reads the datastore, not the batch.
  unfoldable pub index_one : Datastore → Key → String → Datastore → Result Datastore
  unfolding has
  index_one ds s mh batch = elim (faults.get (new_key mh)) [
    | some e ↦ err (value_not_read (mh_text mh) e)
    | none ↦ elim (lookup (new_key mh) ds) [
      | none ↦ batch_put entry_not_created mh (s ∷ []) batch
      | some es ↦
          if has es s then ok batch else batch_put entry_not_extended mh (es ++ s ∷ []) batch
    ]
  ]

  -- `ForEach` over the multihashes.
  unfoldable pub index_each : Datastore → Key → List String → Datastore → Result Datastore
  index_each ds s [] batch = ok batch
  index_each ds s (mh ∷ mhs) batch = elim (index_one ds s mh batch) [
    | err e ↦ err e
    | ok batch' ↦ index_each ds s mhs batch'
  ]

  -- `Commit` writes the entries of the batch.
  unfoldable pub write_batch : Datastore → Datastore → Datastore
  write_batch [] ds = ds
  write_batch ((k, es) ∷ rest) ds = insert k es (write_batch rest ds)

  -- The entries of a batch that a failing `Commit` has written.
  unfoldable pub part_of : (String → Bool) → Datastore → Datastore
  part_of wrote [] = []
  part_of wrote ((k, es) ∷ rest) =
      let more = part_of wrote rest in if wrote k then (k, es) ∷ more else more

  abbrev pub synced : Datastore → Datastore × Option Error
  synced ds = elim faults.sync [ none ↦ (ds, none) | some e ↦ (ds, some (no_sync e)) ]

  abbrev pub committed : Datastore → Result Datastore → Datastore × Option Error
  committed ds (err e) = (ds, some (entry_not_added e))
  committed ds (ok batch) = elim faults.commit [
    | some (wrote, e) ↦ (write_batch (part_of wrote batch) ds, some (no_commit e))
    | none ↦ synced (write_batch batch ds)
  ]

  -- The datastore after the call, and the error that it returns.
  unfoldable pub add_multihashes_for_shard :
      List String → Key → Datastore → Datastore × Option Error
  unfolding index_each write_batch part_of
  add_multihashes_for_shard mhs s ds = elim faults.batch [
    | some e ↦ (ds, some (no_batch e))
    | none ↦ committed ds (index_each ds s mhs [])
  ]

  unfoldable pub get_shards_for_multihash : String → Datastore → Result (List Key)
  get_shards_for_multihash mh ds = elim (faults.get (new_key mh)) [
    | some e ↦ err (lookup_failed (mh_text mh) e)
    | none ↦ elim (lookup (new_key mh) ds) [
      | none ↦ err (lookup_failed (mh_text mh) datastore_not_found)
      | some es ↦ ok es
    ]
  ]
