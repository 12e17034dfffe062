-- ===== src/Index/Inverted/Laws.antt =====
-- index/inverted_index_impl.go: what an addition writes, under the key of every multihash.
use dagstore.Shared.{
  String, ◌≡◌, refl, ◌⊎◌, inl, inr, Bool, true, false, Option, none, some, List, [], ◌∷◌, ◌++◌,
  lookup, lookup-insert, if◌then◌else◌, ◌==◌, string_eq, arith, Bool-cases, Option-cases, ap,
}
use dagstore.Error.{no_commit, no_sync, Error, ok, Result-cases}
use dagstore.ShardKey.{Key, key_eq}
use dagstore.Index.Inverted.{
  Datastore, Faults, has, index_one, index_each, write_batch, part_of, add_multihashes_for_shard,
}

-- The shards of an entry once `s` is among them.
abbrev pub joined : Key → Option (List Key) → List Key
unfolding has
joined s none = s ∷ []
joined s (some es) = if has es s then es else es ++ s ∷ []

-- Whether an addition fails when it commits its batch, or after that.
abbrev pub is_late : Error → Bool
is_late (no_commit e) = true
is_late (no_sync e) = true
is_late e = false

module _ (new_key mh_text : String → String) (faults : Faults) where
  abbrev pub mentions : String → List String → Bool
  mentions k [] = false
  mentions k (mh ∷ mhs) = if new_key mh == k then true else mentions k mhs

  abbrev written : Option (List Key) → Option (List Key) → Option (List Key)
  written none old = old
  written (some es) old = some es

  lookup-write_batch :
      (k : String) (batch ds : Datastore)
      → lookup k (write_batch new_key mh_text faults batch ds)
        ≡ written (lookup k batch) (lookup k ds)
  unfolding write_batch lookup
  lookup-write_batch k [] ds = refl
  lookup-write_batch k ((j, es) ∷ rest) ds = ground (
    arith,
    lookup-insert j k es (write_batch new_key mh_text faults rest ds),
    lookup-write_batch k rest ds,
  )

  module _ (ds : Datastore) (s : Key) (k : String) where
    -- The batch has no entry under the key, or the one that joins the shard.
    IsJoined : Datastore → Type 0
    IsJoined batch = (lookup k batch ≡ none) ⊎ (lookup k batch ≡ some (joined s (lookup k ds)))

    abbrev expected : Bool → Option (List Key) → Option (List Key)
    expected true old = some (joined s (lookup k ds))
    expected false old = old

    index_one_lem :
        (mh : String) (batch batch' : Datastore)
        → IsJoined batch
        → index_one new_key mh_text faults ds s mh batch ≡ ok batch'
        → IsJoined batch'
          × (written (lookup k batch') (lookup k ds)
              ≡ expected (new_key mh == k) (written (lookup k batch) (lookup k ds)))
    unfolding index_one has IsJoined
    index_one_lem mh batch batch' v h = ground (
      arith,
      string_eq.beq_iff (new_key mh) k,
      lookup-insert (new_key mh) k (joined s (lookup k ds)) batch,
      lookup-insert (new_key mh) k (joined s (lookup (new_key mh) ds)) batch,
    )

    index_each_lem :
        (mhs : List String) (batch batch' : Datastore)
        → IsJoined batch
        → index_each new_key mh_text faults ds s mhs batch ≡ ok batch'
        → written (lookup k batch') (lookup k ds)
          ≡ expected (mentions k mhs) (written (lookup k batch) (lookup k ds))
    unfolding index_each
    index_each_lem [] batch batch' v h = ground arith
    index_each_lem (mh ∷ mhs) batch batch' v h =
        elim (Result-cases (index_one new_key mh_text faults ds s mh batch)) [
          | inr (e, failed) ↦ absurd (ground arith)
          | inl (next, made) ↦
              let (v', one) = index_one_lem mh batch next v made in
              let rest = index_each_lem mhs next batch' v' (ground arith) in
              ground (arith, Bool-cases (mentions k mhs))
        ]

  -- An addition that returns no error has put the shard, once, into the entry of each of its
  -- multihashes, after the shards that the entry had, and has left every other entry as it was.
  pub add_multihashes_for_shard_lem :
      (mhs : List String) (s : Key) (ds ds' : Datastore)
      → add_multihashes_for_shard new_key mh_text faults mhs s ds ≡ (ds', none)
      → (k : String)
      → lookup k ds' ≡ (if mentions k mhs then some (joined s (lookup k ds)) else lookup k ds)
  unfolding add_multihashes_for_shard IsJoined lookup
  add_multihashes_for_shard_lem mhs s ds ds' h k =
      elim (Result-cases (index_each new_key mh_text faults ds s mhs [])) [
        | inr (e, failed) ↦ absurd (ground arith)
        | inl (batch, made) ↦ ground (
          arith,
          index_each_lem ds s k mhs [] batch (inl refl) made,
          lookup-write_batch k batch ds,
        )
      ]

  lookup-part_of :
      (wrote : String → Bool) (k : String) (batch : Datastore)
      → lookup k (part_of new_key mh_text faults wrote batch)
        ≡ (if wrote k then lookup k batch else none)
  unfolding part_of lookup
  lookup-part_of wrote k [] = ground arith
  lookup-part_of wrote k ((j, es) ∷ rest) =
      let later = lookup-part_of wrote k rest in
      elim (Bool-cases (j == k)) [
        | inl e ↦
            let same : wrote j ≡ wrote k = ap wrote ((string_eq.beq_iff j k).0 e) in
            ground (arith, Bool-cases (wrote j))
        | inr e ↦ ground (arith, Bool-cases (wrote j))
      ]

  -- Whatever an addition returns, an entry is as it was, or the shard has joined it for a multihash of
  -- the call.
  pub add_multihashes_for_shard_bounded :
      (mhs : List String) (s : Key) (ds : Datastore) (k : String)
      → let o = lookup k (add_multihashes_for_shard new_key mh_text faults mhs s ds).0 in
        (o ≡ lookup k ds) ⊎ ((o ≡ some (joined s (lookup k ds))) × (mentions k mhs ≡ true))
  unfolding add_multihashes_for_shard IsJoined lookup
  add_multihashes_for_shard_bounded mhs s ds k =
      elim (Result-cases (index_each new_key mh_text faults ds s mhs [])) [
        | inr (e, failed) ↦ ground arith
        | inl (batch, made) ↦
            let made_of = index_each_lem ds s k mhs [] batch (inl refl) made in
            elim (Option-cases faults.commit) [
              | inl whole ↦ ground (arith, made_of, lookup-write_batch k batch ds)
              | inr ((wrote, e), some_of) ↦ ground (
                arith,
                made_of,
                lookup-part_of wrote k batch,
                lookup-write_batch k (part_of new_key mh_text faults wrote batch) ds,
              )
            ]
      ]

  -- An addition that fails before its batch is committed has written nothing.
  pub early_failure_writes_nothing :
      (mhs : List String) (s : Key) (ds ds' : Datastore) (e : Error)
      → add_multihashes_for_shard new_key mh_text faults mhs s ds ≡ (ds', some e)
      → is_late e ≡ false
      → ds' ≡ ds
  unfolding add_multihashes_for_shard
  early_failure_writes_nothing mhs s ds ds' e h early = ground (
    arith,
    Result-cases (index_each new_key mh_text faults ds s mhs []),
    Option-cases faults.commit,
  )

  -- If neither the commit nor syncing fails, an addition that returns an error has written nothing.
  pub failed_addition_writes_nothing :
      (mhs : List String) (s : Key) (ds : Datastore)
      → faults.commit ≡ none
      → faults.sync ≡ none
      → (e : Error) → (add_multihashes_for_shard new_key mh_text faults mhs s ds).1 ≡ some e
      → (add_multihashes_for_shard new_key mh_text faults mhs s ds).0 ≡ ds
  unfolding add_multihashes_for_shard
  failed_addition_writes_nothing mhs s ds whole synced e h =
      ground (arith, Result-cases (index_each new_key mh_text faults ds s mhs []))
