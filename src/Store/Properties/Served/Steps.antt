-- ===== src/Store/Properties/Served/Steps.antt =====
-- dagstore_control.go, dagstore_async.go: the steps of a registration and of an initialization.
use dagstore.Shared.{
  ℕ, ◌≡◌, refl, String, Bool, true, false, Option, none, some, List, [], ◌∷◌, ◌++◌, length,
  get_elem?, set, lookup, insert,
}
use dagstore.Error.{ok}
use dagstore.ShardKey.{Key, key_eq}
use dagstore.Mount.Upgrader.{Upgrader, upgrade}
use dagstore.Store.Types.{Externals, Context, Task, Shard, register, make_available}
use dagstore.Store.Turn.{Turn}
use dagstore.Store.Control.{handle}
use dagstore.Store.Async.{
  initializing, adding, sending, to_completion, task_of, initialize_fetched, initialize_added,
  invert,
}
use dagstore.Store.System.Defs.{System}
use dagstore.Store.System.Calls.{RegisterOpts, fresh, call_task, queue_external, register_shard}
use dagstore.Store.System.Loop.{
  Answers, settle, process, process_completion, process_next, control_step,
}
use dagstore.Store.System.Steps.{
  Transient, with_transient, goes_on, registers, controls, generates, adds, at, on_generates,
  on_adds, step,
}

module _ {X : Externals} where
  pub registers_lem :
      (ctx : ℕ) (key : Key) (mnt : X.Mount) (out : Option ℕ) (opts : RegisterOpts)
      (alive : String → Bool) (d : System X) (u : Upgrader X.Mount)
      → lookup key d.shards ≡ none
      → upgrade X.os X.mount alive mnt d.throttle_ready_fetch d.transients_dir key.str
          opts.existing_transient
        ≡ ok u
      → step (registers ctx key mnt out opts alive) d
        ≡ some (
            queue_external (call_task register (length d.heap) ctx out) (record d {
              heap = d.heap ++ fresh key u opts.lazy_initialization ∷ [];
              shards = insert key (length d.heap) d.shards;
            }))
  unfolding step register_shard
  registers_lem ctx key mnt out opts alive d u e f =
      rw (e, register_shard) (rw (f, register_shard) refl)

  module _ (a : Answers) (tsk : Task) (rest : List Task) (d : System X) (s : Shard X) (t : Turn X)
      (found : get_elem? d.heap tsk.shard ≡ some s)
      (handled : handle d.failure_ch a.removed tsk s d.indices ≡ some t) where
    pub controls_internal :
        d.internal_ch ≡ tsk ∷ rest
        → step (controls a true) d ≡ some (settle a tsk t (record d { internal_ch = rest }))
    unfolding step control_step process
    controls_internal first =
        rw (first, process_next) (rw (found, process) (rw (handled, process) refl))

    pub controls_completion :
        d.internal_ch ≡ []
        → d.completion_ch ≡ tsk ∷ rest
        → step (controls a false) d ≡ some (settle a tsk t (record d { completion_ch = rest }))
    unfolding step control_step process
    controls_completion quiet first =
        rw (quiet, process_next)
          (rw (first, process_completion) (rw (found, process) (rw (handled, process) refl)))

  pub generates_lem :
      (i : ℕ) (tr : Transient) (reader : X.Reader) (idx : X.Index) (ctx : Context) (shard : ℕ)
      (d : System X) (s : Shard X)
      → get_elem? d.goroutines i ≡ some (initializing ctx shard)
      → get_elem? d.heap shard ≡ some s
      → step (generates i tr (ok reader) (ok idx)) d
        ≡ some (
            goes_on i
              (adding ctx shard idx)
              (record d { heap = set d.heap shard (with_transient tr s) }))
  unfolding step on_generates initialize_fetched
  generates_lem i tr reader idx ctx shard d s e found = rw (e, at) (rw (found, on_generates) refl)

  pub adds_lem :
      (i : ℕ) (idx : X.Index) (ctx : Context) (shard : ℕ) (d : System X) (s : Shard X)
      → get_elem? d.goroutines i ≡ some (adding ctx shard idx)
      → get_elem? d.heap shard ≡ some s
      → (X.repo.add_full_index d.indices s.key idx).1 ≡ none
      → step (adds i) d
        ≡ some (
            goes_on i (sending (to_completion (task_of make_available shard none) ∷ [])) (record d {
              indices = (X.repo.add_full_index d.indices s.key idx).0;
              top_level_index = invert X s.key idx none d.top_level_index;
            }))
  unfolding step on_adds initialize_added
  adds_lem i idx ctx shard d s e found added = rw (e, at) (rw (found, on_adds) (rw added refl))
