-- ===== src/Store/Properties/Mirrored.antt =====
-- shard_persist.go, dagstore_control.go, dagstore_gc.go: the datastore mirrors the shards.
pub mod Turns
pub mod Written
pub mod Rewritten
pub mod Added
pub mod Steps
pub mod Untouched
pub mod Runs
pub mod Restored
pub mod Reset
pub mod Restarted
use dagstore.Shared.{
  ℕ, ◌≡◌, ◌≢◌, String, Bool, true, Option, none, some, List, [], ◌∷◌, get_elem?, lookup, string_eq,
}
use dagstore.Error.{ok, message}
use dagstore.ShardState.{new}
use dagstore.Mount.Interface.{Url}
use dagstore.Mount.Registry.{Registry, represent}
use dagstore.Store.Types.{Externals, Shard, PersistedShard}
use dagstore.Store.Persist.{error_text}

-- The records are under the datastore keys of their shards' keys, and no two under the same.
abbrev pub IsFiled : (new_key : String → String) → List (String × PersistedShard) → Type 0
IsFiled new_key [] = Unit
IsFiled new_key ((j, ps) ∷ rest) =
    (j ≡ new_key ps.key) × (lookup j rest ≡ none) × IsFiled new_key rest

module _ {X : Externals} where
  -- The record of a shard, but for the path of the transient.
  abbrev pub record_of : Shard X → Url → (path : String) → PersistedShard
  record_of s url path = record {
    key = s.key.str;
    url = X.mount.url_text url;
    transient_path = path;
    state = s.state;
    lazy = s.lazy;
    error = error_text (message X.decimal) s.err;
  }

  -- A shard with no record yet is new; the record of another is of the shard as it is.
  abbrev pub IsRecordOf : Shard X → Url → Option PersistedShard → Type 0
  IsRecordOf s url none = s.state ≡ new
  IsRecordOf s url (some ps) = (path : String) × (ps ≡ record_of s url path)

  pub record IsMirrored (mounts : Registry X.Mount) (store : List (String × PersistedShard))
      (s : Shard X) : Type 0 where
    pub url : Url
    pub represented : represent X.mount s.mount.underlying mounts ≡ ok url
    pub sequential : (X.mount.info s.mount.underlying).access_sequential ≡ true
    pub recorded : IsRecordOf s url (lookup (X.new_key s.key.str) store)

  pub record Mirrors (mounts : Registry X.Mount) (heap : List (Shard X))
      (store : List (String × PersistedShard)) : Type 0 where
    pub each : (r : ℕ) (s : Shard X) → get_elem? heap r ≡ some s → IsMirrored mounts store s
    -- No two shards share a datastore key.
    pub apart :
        (q r : ℕ) (s t : Shard X)
        → get_elem? heap q ≡ some s
        → get_elem? heap r ≡ some t
        → X.new_key s.key.str ≡ X.new_key t.key.str
        → q ≡ r
    pub nothing_else :
        (j : String)
        → ((r : ℕ) (s : Shard X) → get_elem? heap r ≡ some s → X.new_key s.key.str ≢ j)
        → lookup j store ≡ none
    pub filed : IsFiled X.new_key store
