-- ===== src/Store/Start.antt =====
-- dagstore.go: `NewDAGStore` and `Start`, from the records of an earlier run to the first tasks.
use dagstore.Shared.{
  ℕ, String, Bool, true, false, Option, none, some, List, [], ◌∷◌, ◌++◌, map, length, get_elem?,
  set, insert, if◌then◌else◌, ltb, ◌==◌, string_eq,
}
use dagstore.Error.{
  Error, Result, ok, err, no_scratch_root, scratch_root_not_created, not_a_directory,
  state_not_recovered, state_not_restored,
}
use dagstore.ShardKey.{Key, key_eq}
use dagstore.ShardState.{ShardState, new, initializing, available, serving, errored}
use dagstore.Throttle.{Throttler, noop, fixed}
use dagstore.Mount.Registry.{Registry}
use dagstore.Store.Types.{Externals, caller, OpType, register, recover, Shard, PersistedShard}
use dagstore.Store.Turn.{index_exists}
use dagstore.Store.Async.{Send, to_external, sending}
use dagstore.Store.Persist.{unmarshal}
use dagstore.Store.System.Defs.{System}
use dagstore.Store.System.Orphans.{DirEntry, referenced, clear_orphaned}

pub data RecoverOnStartPolicy : Type 0 where
  do_not_recover recover_on_acquire recover_now : RecoverOnStartPolicy

-- `Config`, with the components that default to in-memory ones supplied.
pub record Config (X : Externals) : Type 0 where
  pub transients_dir : String
  pub index_repo : X.Repo
  pub top_level_index : X.TopLevel
  pub datastore : List (String × PersistedShard)
  pub mount_registry : Registry X.Mount
  pub trace_ch : Bool
  pub failure_ch : Option ℕ
  pub max_concurrent_ready_fetches : ℕ
  pub recover_on_start : RecoverOnStartPolicy

abbrev throttler_of : ℕ → Throttler
throttler_of max = if ltb 0 max then fixed max else noop

abbrev pub queue_register : Option OpType → ℕ → List ℕ → List ℕ
queue_register (some register) shard l = l ++ shard ∷ []
queue_register op shard l = l

abbrev pub queue_recover : Option OpType → ℕ → List ℕ → List ℕ
queue_recover (some recover) shard l = l ++ shard ∷ []
queue_recover op shard l = l

-- `ensureDir`: `stat` is what `os.Stat` answers, and whether it is a directory; `made` is what
-- `os.MkdirAll` answers.
unfoldable pub ensure_dir :
    (path : String) → (stat : Result Bool) → (made : Option Error) → Option Error
ensure_dir path (err e) made = made
ensure_dir path (ok true) made = none
ensure_dir path (ok false) made = some (not_a_directory path)

module _ {X : Externals} where
  -- `dir_error` is what `ensureDir` answers.
  unfoldable pub new_dag_store : (dir_error : Option Error) → Config X → Result (System X)
  new_dag_store dir_error cfg =
      if cfg.transients_dir == "" then err no_scratch_root else elim dir_error [
        | some e ↦ err (scratch_root_not_created e)
        | none ↦ ok (record {
          heap = [];
          shards = [];
          mounts = cfg.mount_registry;
          indices = cfg.index_repo;
          top_level_index = cfg.top_level_index;
          store = cfg.datastore;
          transients_dir = cfg.transients_dir;
          throttle_ready_fetch = throttler_of cfg.max_concurrent_ready_fetches;
          external_ch = [];
          internal_ch = [];
          completion_ch = [];
          dispatch_results_ch = [];
          dispatch_failures_ch = [];
          failure_ch = cfg.failure_ch;
          trace_ch = cfg.trace_ch;
          traces = [];
          goroutines = [];
          accessors = [];
        })
      ]

  -- `restoreState`: a record that cannot be read is skipped.
  unfoldable pub restore_state :
      (alive : String → Bool) → List (String × PersistedShard) → System X → System X
  restore_state alive [] d = d
  restore_state alive ((k, ps) ∷ rest) d =
      restore_state alive rest
        (elim (unmarshal d.mounts d.throttle_ready_fetch d.transients_dir alive ps) [
          | err e ↦ d
          | ok s ↦ record d {
            heap = d.heap ++ s ∷ [];
            shards = insert s.key (length d.heap) d.shards;
          }
        ])

  -- The shard after the reset of in-progress states, and the operation that is queued for it.
  unfoldable pub reset :
      RecoverOnStartPolicy → (has_index : Bool) → ShardState → Shard X → Shard X × Option OpType
  reset do_not_recover has_index errored s = (s, none)
  reset recover_on_acquire has_index errored s = (record s { recover_on_next_acquire = true }, none)
  reset recover_now has_index errored s = (s, some recover)
  reset policy has_index serving s = (record s { state = available }, none)
  reset policy has_index initializing s =
      if has_index
      then (record s { state = available }, none)
      else (record s { state = new }, some register)
  reset policy has_index state s = (s, none)

  -- The loop over the catalogue, with `toRegister` and `toRecover`.
  unfoldable pub reset_all :
      RecoverOnStartPolicy
      → X.Repo
      → List (Key × ℕ)
      → List (Shard X) × List ℕ × List ℕ
      → List (Shard X) × List ℕ × List ℕ
  unfolding reset
  reset_all policy repo [] acc = acc
  reset_all policy repo ((k, shard) ∷ rest) (heap, to_register, to_recover) =
      reset_all policy repo rest (elim (get_elem? heap shard) [
        | none ↦ (heap, to_register, to_recover)
        | some s ↦
            let (s', op) =
              reset policy (index_exists (X.repo.stat_full_index repo s.key)) s.state s in
            (
              set heap shard s',
              queue_register op shard to_register,
              queue_recover op shard to_recover,
            )
      ])

  abbrev pub start_task : (ctx : ℕ) → OpType → ℕ → Send X
  start_task ctx op shard = to_external (record {
    waiter = some (record { ctx = caller ctx; out_ch = none; notify_dead = none });
    op = op;
    shard = shard;
    err = none;
  })

  -- `Start`: the registrations are released first, then the recoveries.
  unfoldable pub start :
      (ctx : ℕ) → RecoverOnStartPolicy → (alive : String → Bool) → System X → System X
  unfolding restore_state reset_all
  start ctx policy alive d =
      let d' = restore_state alive d.store d in
      let (heap, to_register, to_recover) =
        reset_all policy d'.indices d'.shards (d'.heap, [], []) in
      record d' {
        heap = heap;
        goroutines =
            d'.goroutines
            ++ sending (
                map (start_task ctx register) to_register
                ++ map (start_task ctx recover) to_recover)
              ∷ [];
      }

  -- `Start` with the files of the transients directory. `query` is what the query of the datastore
  -- answers, and `removed` what `os.Remove` does for a path.
  unfoldable pub start_with_files :
      (query : Option Error)
      → (removed : String → Option Error) → (ctx : ℕ) → RecoverOnStartPolicy
      → (alive : String → Bool) → System X × List DirEntry
      → (System X × List DirEntry) × Option Error
  unfolding restore_state start clear_orphaned referenced
  start_with_files (some e) removed ctx policy alive (d, files) =
      ((d, files), some (state_not_restored (state_not_recovered e)))
  start_with_files none removed ctx policy alive (d, files) =
      let d' = restore_state alive d.store d in
      (
        (start ctx policy alive d, clear_orphaned removed (referenced d'.heap d'.shards) files),
        none,
      )
