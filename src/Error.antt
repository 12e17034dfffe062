-- ===== src/Error.antt =====
-- The errors of the DAG store and of its components: one constructor for each `errors.New` and
-- `fmt.Errorf` that the modelled code makes, with the error that it wraps.
use dagstore.Shared.{
  Bool, true, if◌then◌else◌, ℕ, String, ◌<>◌, ◌≡◌, refl, ◌⊎◌, inl, inr, Option, none, some,
}
use dagstore.ShardKey.{Key}
use dagstore.ShardState.{ShardState, to_byte}
use dagstore.ShardState

pub data Error : Type 0 where
  -- An error of code that is not the DAG store's, by its text.
  external : String → Error
  -- What `%w` prints of a nil error.
  nil_error : Error
  shard_unknown shard_exists dag_store_closed : Error
  for_key : Key → Error → Error
  initialization_failed : ShardState → Error
  in_errored_state failed_to_register failed_to_recover failed_to_acquire : Error → Error
  refused_to_recover : ShardState → Error
  active_references : ℕ → Error
  no_reader_on_acquire no_reader_on_initialization no_index_read index_not_added : Error → Error
  index_not_recovered : Key → Error → Error
  index_not_found : Error
  no_iterable_index : Error → Error
  index_not_iterable : Error
  no_scratch_root : Error
  scratch_root_not_created mount_url_not_parsed : Error → Error
  not_a_directory : String → Error
  state_not_recovered state_not_restored : Error → Error
  -- mount/registry.go, mount/upgrader.go
  scheme_registered type_registered unrecognized_scheme unrecognized_type : String → Error
  not_instantiated : String → String → Error → Error
  invalid_host : Error
  no_sequential_access : Error
  fetch_failed stat_failed source_failed copy_failed : Error → Error
  underlying_gone file_missing : Error
  seek_unsupported random_access_unsupported : Error
  -- index/repo_fs.go
  no_index_dir : Error → Error
  unknown_version : String → Error
  -- index/inverted_index_impl.go
  datastore_not_found : Error
  -- The first part is what `%s` prints of the multihash.
  value_not_read entry_not_created entry_not_extended lookup_failed : String → Error → Error
  entry_not_added no_batch no_commit no_sync : Error → Error
  -- shard_persist.go
  mount_not_encoded mount_not_upgraded no_mount_from_url : Error → Error
  -- indexbs/indexbacked_bs.go; the texts are those of the CID and of its multihash.
  block_not_found no_shard_selected : Error
  shards_not_fetched : String → String → Error → Error
  selection_failed : Error → Error
  shard_not_acquired no_blockstore : Key → Error → Error
  op_failed : String → Key → Error → Error
  unsupported_operation : String → Error

abbrev pub wrapped : Option Error → Error
wrapped none = nil_error
wrapped (some e) = e

-- `Error()`. `decimal` is what `fmt` prints for `%d`.
module _ (decimal : ℕ → String) where
  unfoldable pub message : Error → String
  unfolding ShardState.to_string
  message (external text) = text
  message nil_error = "%!w(<nil>)"
  message shard_unknown = "shard not found"
  message shard_exists = "shard already exists"
  message dag_store_closed = "dag store closed"
  message (for_key k e) = k.str <> ": " <> message e
  message (initialization_failed s) =
      "shard initialization failed: expected shard to be in 'new' state; was: "
      <> ShardState.to_string s
  message (in_errored_state e) = "shard is in errored state; err: " <> message e
  message (failed_to_register e) = "failed to register shard: " <> message e
  message (failed_to_recover e) = "failed to recover shard: " <> message e
  message (failed_to_acquire e) = "failed to acquire shard: " <> message e
  message (refused_to_recover s) =
      "refused to recover shard in state other than errored; current state: " <> decimal (to_byte s)
  message (active_references n) = "failed to destroy shard; active references: " <> decimal n
  message (no_reader_on_acquire e) =
      "failed to acquire reader of mount so we can return the accessor: " <> message e
  message (no_reader_on_initialization e) =
      "failed to acquire reader of mount on initialization: " <> message e
  message (no_index_read e) = "failed to read/generate CAR Index: " <> message e
  message (index_not_added e) = "failed to add index for shard: " <> message e
  message (index_not_recovered k e) =
      "failed to recover index for shard " <> k.str <> ": " <> message e
  message no_scratch_root = "missing scratch area root path"
  message (scratch_root_not_created e) = "failed to create scratch root dir: " <> message e
  message (mount_url_not_parsed e) = "failed to parse mount URL: " <> message e
  message (not_a_directory path) = "path " <> path <> " exists, and it is not a directory"
  message (state_not_recovered e) = "failed to recover dagstore state from store: " <> message e
  message (state_not_restored e) = "failed to restore dagstore state: " <> message e
  message (scheme_registered scheme) = "mount already registered for scheme: " <> scheme
  message (type_registered type) = "mount already registered for type: " <> type
  message (unrecognized_scheme scheme) = "unrecognized mount scheme: " <> scheme
  message (unrecognized_type type) =
      "failed to represent mount with type " <> type <> ": unrecognized mount type"
  message (not_instantiated url type e) =
      "failed to instantiate mount with url " <> url <> " into type " <> type <> ": " <> message e
  message invalid_host = "invalid host"
  message (fetch_failed e) = "mount fetch failed: " <> message e
  message (stat_failed e) = "underlying mount stat returned error: " <> message e
  message file_missing = "no such file or directory"
  message underlying_gone = "underlying mount no longer exists"
  message (source_failed e) = "failed to fetch from underlying mount: " <> message e
  message (copy_failed e) =
      "failed to fetch and copy underlying mount to transient file: " <> message e
  message (no_index_dir e) = "failed to create index repo dir: " <> message e
  message (unknown_version v) = "cannot read existing repo with version " <> v
  message block_not_found = "block not found"
  message no_shard_selected = "no shard selected"
  message (shards_not_fetched c mh e) =
      "failed to fetch shards containing block " <> c <> " (multihash " <> mh <> "): " <> message e
  message (selection_failed e) = "failed to run shard selection function: " <> message e
  message (shard_not_acquired k e) = "failed to acquire shard " <> k.str <> ": " <> message e
  message (no_blockstore k e) =
      "failed to load read-only blockstore for shard " <> k.str <> ": " <> message e
  message (op_failed op k e) =
      "failed to call blockstore." <> op <> " for shard " <> k.str <> ": " <> message e
  message (unsupported_operation op) = "unsupported operation " <> op
  message seek_unsupported = "mount does not support seek"
  message random_access_unsupported = "mount does not support random access"
  message no_sequential_access = "underlying mount must support sequential access"
  message datastore_not_found = "datastore: key not found"
  message (value_not_read mh e) =
      "failed to get value for multihash " <> mh <> ", err: " <> message e
  message (entry_not_created mh e) = "failed to put mh=" <> mh <> ", err=" <> message e
  message (entry_not_extended mh e) = "failed to put mh=" <> mh <> ", err" <> message e
  message (lookup_failed mh e) = "failed to lookup index for mh " <> mh <> ", err: " <> message e
  message (entry_not_added e) = "failed to add index entry: " <> message e
  message (no_batch e) = "failed to create ds batch: " <> message e
  message (no_commit e) = "failed to commit batch: " <> message e
  message (no_sync e) = "failed to sync puts: " <> message e
  message (mount_not_encoded e) = "failed to encode mount: " <> message e
  message (mount_not_upgraded e) = "failed to apply mount upgrader: " <> message e
  message (no_mount_from_url e) = "failed to instantiate mount from URL: " <> message e
  message (no_iterable_index e) = "failed to get iterable index: " <> message e
  message index_not_iterable = "index for shard is not iterable"
  message index_not_found = "index not found"

-- `errors.Is`, with the test for the target: of an error, or of one that it wraps.
unfoldable pub is_error : (target : Error → Bool) → Error → Bool
is_error target (in_errored_state e) =
    let rest = is_error target e in if target (in_errored_state e) then true else rest
is_error target (failed_to_register e) =
    let rest = is_error target e in if target (failed_to_register e) then true else rest
is_error target (failed_to_recover e) =
    let rest = is_error target e in if target (failed_to_recover e) then true else rest
is_error target (failed_to_acquire e) =
    let rest = is_error target e in if target (failed_to_acquire e) then true else rest
is_error target (no_reader_on_acquire e) =
    let rest = is_error target e in if target (no_reader_on_acquire e) then true else rest
is_error target (no_reader_on_initialization e) =
    let rest = is_error target e in if target (no_reader_on_initialization e) then true else rest
is_error target (no_index_read e) =
    let rest = is_error target e in if target (no_index_read e) then true else rest
is_error target (no_iterable_index e) =
    let rest = is_error target e in if target (no_iterable_index e) then true else rest
is_error target (index_not_added e) =
    let rest = is_error target e in if target (index_not_added e) then true else rest
is_error target (scratch_root_not_created e) =
    let rest = is_error target e in if target (scratch_root_not_created e) then true else rest
is_error target (mount_url_not_parsed e) =
    let rest = is_error target e in if target (mount_url_not_parsed e) then true else rest
is_error target (state_not_recovered e) =
    let rest = is_error target e in if target (state_not_recovered e) then true else rest
is_error target (state_not_restored e) =
    let rest = is_error target e in if target (state_not_restored e) then true else rest
is_error target (fetch_failed e) =
    let rest = is_error target e in if target (fetch_failed e) then true else rest
is_error target (stat_failed e) =
    let rest = is_error target e in if target (stat_failed e) then true else rest
is_error target (source_failed e) =
    let rest = is_error target e in if target (source_failed e) then true else rest
is_error target (copy_failed e) =
    let rest = is_error target e in if target (copy_failed e) then true else rest
is_error target (no_index_dir e) =
    let rest = is_error target e in if target (no_index_dir e) then true else rest
is_error target (entry_not_added e) =
    let rest = is_error target e in if target (entry_not_added e) then true else rest
is_error target (no_batch e) =
    let rest = is_error target e in if target (no_batch e) then true else rest
is_error target (no_commit e) =
    let rest = is_error target e in if target (no_commit e) then true else rest
is_error target (no_sync e) =
    let rest = is_error target e in if target (no_sync e) then true else rest
is_error target (mount_not_encoded e) =
    let rest = is_error target e in if target (mount_not_encoded e) then true else rest
is_error target (mount_not_upgraded e) =
    let rest = is_error target e in if target (mount_not_upgraded e) then true else rest
is_error target (no_mount_from_url e) =
    let rest = is_error target e in if target (no_mount_from_url e) then true else rest
is_error target (selection_failed e) =
    let rest = is_error target e in if target (selection_failed e) then true else rest
is_error target (for_key a e) =
    let rest = is_error target e in if target (for_key a e) then true else rest
is_error target (index_not_recovered a e) =
    let rest = is_error target e in if target (index_not_recovered a e) then true else rest
is_error target (value_not_read a e) =
    let rest = is_error target e in if target (value_not_read a e) then true else rest
is_error target (entry_not_created a e) =
    let rest = is_error target e in if target (entry_not_created a e) then true else rest
is_error target (entry_not_extended a e) =
    let rest = is_error target e in if target (entry_not_extended a e) then true else rest
is_error target (lookup_failed a e) =
    let rest = is_error target e in if target (lookup_failed a e) then true else rest
is_error target (shard_not_acquired a e) =
    let rest = is_error target e in if target (shard_not_acquired a e) then true else rest
is_error target (no_blockstore a e) =
    let rest = is_error target e in if target (no_blockstore a e) then true else rest
is_error target (not_instantiated a b e) =
    let rest = is_error target e in if target (not_instantiated a b e) then true else rest
is_error target (shards_not_fetched a b e) =
    let rest = is_error target e in if target (shards_not_fetched a b e) then true else rest
is_error target (op_failed a b e) =
    let rest = is_error target e in if target (op_failed a b e) then true else rest
is_error target e = target e

-- A Go result `(A, error)` of which one part is used.
pub data Result {κ} (T : Type κ) : Type κ where
  ok : T → Result T
  err : Error → Result T

infixl 5 ◌>>=◌
abbrev pub ◌>>=◌ {κ μ} : {S : Type κ} {T : Type μ} → Result S → (S → Result T) → Result T
err e >>= next = err e
ok s >>= next = next s

-- `if err != nil { return fmt.Errorf("…: %w", err) }`
abbrev pub or_wrap {ℓ} : {A : Type ℓ} → (Error → Error) → Result A → Result A
or_wrap f (ok a) = ok a
or_wrap f (err e) = err (f e)

pub Result-cases {ℓ} :
    {A : Type ℓ} (r : Result A) → ((a : A) × (r ≡ ok a)) ⊎ ((e : Error) × (r ≡ err e))
Result-cases (ok a) = inl (a, refl)
Result-cases (err e) = inr (e, refl)
