-- ===== src/Store/Persist.antt =====
-- shard_persist.go: the persistent form of a shard, and what the datastore keeps of it. The datastore
-- holds the records themselves: their JSON form is a library's.
use dagstore.Shared.{
  String, Bool, false, if◌then◌else◌, Option, none, some, List, [], ◌==◌, string_eq, insert,
}
use dagstore.Error.{
  Error, Result, ok, err, ◌>>=◌, or_wrap, external, message, mount_not_encoded, mount_not_upgraded,
  mount_url_not_parsed, no_mount_from_url,
}
use dagstore.ShardKey.{key_from_string}
use dagstore.Mount.Registry.{Registry, represent, instantiate}
use dagstore.Mount.Upgrader.{upgrade, transient_path}
use dagstore.Throttle.{Throttler}
use dagstore.Store.Types.{Externals, Shard, PersistedShard}

abbrev pub error_text : (Error → String) → Option Error → String
error_text text none = ""
error_text text (some e) = text e

module _ {X : Externals} where
  unfoldable pub marshal : Registry X.Mount → Shard X → Result PersistedShard
  unfolding transient_path
  marshal mounts s = do
    u ← or_wrap mount_not_encoded (represent X.mount s.mount.underlying mounts)
    ok (record {
      key = s.key.str;
      url = X.mount.url_text u;
      transient_path = transient_path s.mount;
      state = s.state;
      lazy = s.lazy;
      error = error_text (message X.decimal) s.err;
    })

  -- A restored shard has no waiter and no reference. `alive` is whether `os.Stat` finds a file.
  unfoldable pub unmarshal :
      Registry X.Mount
      → Throttler
      → (transients_dir : String) → (alive : String → Bool) → PersistedShard
      → Result (Shard X)
  unfolding key_from_string
  unmarshal mounts throttler dir alive ps = do
    url ← or_wrap mount_url_not_parsed (X.parse_url ps.url)
    mnt ← or_wrap no_mount_from_url (instantiate X.mount url mounts)
    u ←
        or_wrap mount_not_upgraded
          (upgrade X.os X.mount alive mnt throttler dir ps.key ps.transient_path)
    ok (record {
      key = key_from_string ps.key;
      mount = u;
      lazy = ps.lazy;
      state = ps.state;
      err = if ps.error == "" then none else some (external ps.error);
      recover_on_next_acquire = false;
      w_register = none;
      w_recover = none;
      w_acquire = [];
      w_destroy = none;
      refs = 0;
    })

  -- `put_failed` is whether the datastore refuses the write.
  unfoldable pub persist :
      Registry X.Mount
      → (put_failed : Bool) → Shard X
      → List (String × PersistedShard)
      → List (String × PersistedShard)
  persist mounts put_failed s store = elim (marshal mounts s) [
    | err e ↦ store
    | ok ps ↦ if put_failed then store else insert (X.new_key s.key.str) ps store
  ]
