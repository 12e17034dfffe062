-- ===== src/Store/Properties/Findable.antt =====
-- dagstore_async.go, dagstore.go: what an initialization adds can be found.
use dagstore.Shared.{
  ℕ, ◌≡◌, String, Bool, true, false, none, some, List, [], ◌∷◌, get_elem?, if◌then◌else◌, ◌==◌,
  string_eq, arith, refl, ap, ◌++◌, lookup, lookup-insert, Option, inl, inr, Bool-cases,
}
use dagstore.Error.{Result, ok}
use dagstore.ShardKey.{Key, key_eq}
use dagstore.Index.Memory.{MemIndexRepo, memory_repo, add_full_index, get_full_index, index_size}
use dagstore.Index.Inverted.{
  Datastore, Faults, has, add_multihashes_for_shard, get_shards_for_multihash,
}
use dagstore.Index.Inverted.Laws.{joined, mentions, add_multihashes_for_shard_lem}
use dagstore.Store.Types.{Externals, Context, Shard}
use dagstore.Store.Async.{adding, invert}
use dagstore.Store.System.Defs.{System}
use dagstore.Store.System.Queries.{get_iterable_index, shards_containing_multihash}
use dagstore.Store.System.Steps.{on_adds}

abbrev pub among : String → List String → Bool
among mh [] = false
among mh (first ∷ rest) = if first == mh then true else among mh rest

-- What the store relies on in its two kinds of index.
pub record IsIndexing (X : Externals) : Type 0 where
  pub get-add :
      (repo : X.Repo) (key : Key) (idx : X.Index)
      → (X.repo.add_full_index repo key idx).1 ≡ none
      → X.repo.get_full_index (X.repo.add_full_index repo key idx).0 key ≡ ok idx
  pub shards-add :
      (top : X.TopLevel) (mhs : List String) (key : Key) (mh : String)
      → (X.add_multihashes_for_shard top mhs key).1 ≡ none
      → among mh mhs ≡ true
      → (keys : List Key) × (X.get_shards_for_multihash
            (X.add_multihashes_for_shard top mhs key).0
            mh
          ≡ ok keys)
        × (has keys key ≡ true)

has_last : (keys : List Key) (key : Key) → has (keys ++ key ∷ []) key ≡ true
unfolding has
has_last [] key = ground (arith, key_eq.beq_iff key key)
has_last (k ∷ keys) key = ground (arith, has_last keys key)

has-joined : (key : Key) (old : Option (List Key)) → has (joined key old) key ≡ true
unfolding has
has-joined key none = ground (arith, key_eq.beq_iff key key)
has-joined key (some keys) = ground (arith, has_last keys key)

-- A store with the repository of indices in memory and with the inverted index over a datastore. The
-- datastore answers additions and look-ups with faults of its own.
module _ (X : Externals) (size : X.Index → Result ℕ) (new_key mh_text : String → String)
    (adding_faults reading_faults : Faults) where
  abbrev pub with_indices : Externals
  with_indices = record {
    Mount = X.Mount;
    Reader = X.Reader;
    Index = X.Index;
    Repo = MemIndexRepo X.Index;
    mount = X.mount;
    os = X.os;
    repo = memory_repo size;
    TopLevel = Datastore;
    add_multihashes_for_shard =
        λ top mhs k. add_multihashes_for_shard new_key mh_text adding_faults mhs k top;
    get_shards_for_multihash =
        λ top mh. get_shards_for_multihash new_key mh_text reading_faults mh top;
    iterable = X.iterable;
    parse_url = X.parse_url;
    decimal = X.decimal;
    new_key = X.new_key;
  }

  among-mentions :
      (mh : String) (mhs : List String)
      → among mh mhs ≡ true
      → mentions new_key mh_text adding_faults (new_key mh) mhs ≡ true
  among-mentions mh [] h = cc
  among-mentions mh (first ∷ rest) h = elim (Bool-cases (first == mh)) [
    | inl e ↦
        let same : new_key first ≡ new_key mh = ap new_key ((string_eq.beq_iff first mh).0 e) in
        ground (arith, string_eq.beq_iff (new_key first) (new_key mh))
    | inr e ↦ ground (arith, among-mentions mh rest)
  ]

  module _ (readable : (k : String) → reading_faults.get k ≡ none) where
    pub with_indices-IsIndexing : IsIndexing with_indices
    unfolding add_full_index get_full_index index_size get_shards_for_multihash
    with_indices-IsIndexing = record {
      get-add = λ repo key idx added.
          ground (arith, lookup-insert key key idx repo, key_eq.beq_iff key key);
      shards-add = λ top mhs key mh added member.
          let after = (add_multihashes_for_shard new_key mh_text adding_faults mhs key top).0 in
          let listed =
            add_multihashes_for_shard_lem new_key mh_text adding_faults mhs key top after
              (ap (λ e. (after, e)) added) (new_key mh) in
          (
            joined key (lookup (new_key mh) top),
            ground (arith, listed, among-mentions mh mhs member, readable (new_key mh)),
            has-joined key (lookup (new_key mh) top),
          );
    }

    -- In a store with the repository in memory and the inverted index: if an initialization adds an index
    -- that can be iterated over, and the inverted index returns no error, then `GetIterableIndex` returns
    -- the multihashes of the index for the key of the shard, and for each of them
    -- `ShardsContainingMultihash` returns shards that the shard is among. Any faults of the datastore may
    -- occur in the addition, but none when the entries are read.
    pub initialized_findable :
        (i : ℕ) (ctx : Context) (shard : ℕ) (idx : X.Index) (mhs : List String)
        (d : System with_indices) (s : Shard with_indices) (mh : String)
        → get_elem? d.heap shard ≡ some s
        → X.iterable idx ≡ some mhs
        → (add_multihashes_for_shard new_key mh_text adding_faults mhs s.key d.top_level_index).1
          ≡ none
        → among mh mhs ≡ true
        → let d' = on_adds i (adding ctx shard idx) d in
          (get_iterable_index s.key d' ≡ ok mhs)
          × ((keys : List Key) × (shards_containing_multihash mh d' ≡ ok keys)
              × (has keys s.key ≡ true))
    unfolding on_adds get_iterable_index shards_containing_multihash invert add_full_index
    initialized_findable i ctx shard idx mhs d s mh e iterable inverted member =
        let laws = with_indices-IsIndexing in
        let (keys, got, there) = laws.shards-add d.top_level_index mhs s.key mh inverted member in
        (
          ground (arith, e, iterable, laws.get-add d.indices s.key idx refl),
          (keys, ground (arith, e, iterable, got), there),
        )
