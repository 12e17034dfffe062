-- ===== src/Store/Properties/Served/Registered.antt =====
-- dagstore.go, dagstore_control.go, dagstore_async.go: a registration, up to the acquisition of the shard.
use dagstore.Shared.{
  ℕ, ◌≡◌, refl, ap, false, Option, none, some, [], ◌∷◌, ◌++◌, get_elem?, set, get_elem?-set_self,
}
use dagstore.Error.{Error, ok}
use dagstore.ShardKey.{Key, key_eq}
use dagstore.ShardState.{initializing, available}
use dagstore.Mount.Upgrader.{Upgrader}
use dagstore.Store.Types.{
  Externals, caller, Task, Shard, Dispatch, register, initialize, make_available,
}
use dagstore.Store.Turn.{Turn, quiet, initialize_shard, index_exists}
use dagstore.Store.Control.{
  on_register, on_initialize, on_make_available, trigger, acquirers, handle,
}
use dagstore.Store.Async.{Goroutine, adding, sending, to_external, to_completion, task_of, invert}
use dagstore.Store.Async
use dagstore.Store.System.Defs.{System}
use dagstore.Store.System.Calls.{fresh, call_task}
use dagstore.Store.System.Loop.{Answers, settle}
use dagstore.Store.System.Steps.{
  Transient, with_transient, goes_on, sent, controls, generates, adds, sends,
}
use dagstore.Store.Properties.Served.{Reaches, here, next, sends_lem}
use dagstore.Store.Properties.Served.Steps.{controls_completion, generates_lem, adds_lem}
use dagstore.Store.Properties.Served.Begun.{asking}

-- Nothing is under way in the channels.
pub record IsIdle {X : Externals} (d : System X) : Type 0 where
  pub external : d.external_ch ≡ []
  pub internal : d.internal_ch ≡ []
  pub completion : d.completion_ch ≡ []
  pub results : d.dispatch_results_ch ≡ []

-- The task that a registration stages, and that of the goroutine which it starts.
abbrev pub initialization : (ctx channel shard : ℕ) → Task
initialization ctx channel shard = record {
  waiter = some (asking ctx channel);
  op = initialize;
  shard = shard;
  err = none;
}

abbrev completion_task : (shard : ℕ) → Task
completion_task shard = task_of make_available shard none

-- What the caller of the registration is told.
abbrev pub success : {X : Externals} → (ctx channel : ℕ) → Key → Dispatch X
success ctx channel key = record {
  w = asking ctx channel;
  res = record { key = key; error = none; accessor = none };
}

module _ {X : Externals} (ctx channel : ℕ) (tr : Transient) (reader : X.Reader) (idx : X.Index)
    (shard : ℕ) (key : Key) (u : Upgrader X.Mount) where
  -- The shard of a registration under way.
  abbrev pub registering : Shard X
  registering = record (fresh key u false) { w_register = some (asking ctx channel) }

  abbrev pub underway : Shard X
  underway = record registering { state = initializing }

  abbrev pub first_turn : X.Repo → Turn X
  first_turn repo = record (quiet registering repo) {
    staged = (initialization ctx channel shard) ∷ [];
  }

  abbrev pub second_turn : X.Repo → Turn X
  second_turn repo = record (quiet underway repo) {
    spawned = initialize_shard (caller ctx) shard ∷ [];
  }

  abbrev third_turn : X.Repo → Turn X
  third_turn repo = on_make_available (completion_task shard) (with_transient tr underway) repo

  pub handle-register :
      (fch : Option ℕ) (removed : Option Error) (repo : X.Repo)
      → handle fch removed (call_task register shard ctx (some channel)) (fresh key u false) repo
        ≡ some (first_turn repo)
  unfolding handle on_register
  handle-register fch removed repo = refl

  pub handle-initialize :
      (fch : Option ℕ) (removed : Option Error) (repo : X.Repo)
      → index_exists (X.repo.stat_full_index repo key) ≡ false
      → handle fch removed (initialization ctx channel shard) registering repo
        ≡ some (second_turn repo)
  unfolding handle on_initialize
  handle-initialize fch removed repo e = rw e refl

  handle-make_available :
      (fch : Option ℕ) (removed : Option Error) (repo : X.Repo)
      → handle fch removed (completion_task shard) (with_transient tr underway) repo
        ≡ some (third_turn repo)
  unfolding handle
  handle-make_available fch removed repo = refl

  -- The store when the registration is answered.
  pub record IsAnswered (d0 d : System X) : Type 0 where
    pub results : d.dispatch_results_ch ≡ success ctx channel key ∷ []
    pub at_shard :
        (s : Shard X) × (get_elem? d.heap shard ≡ some s) × (s.state ≡ available) × (s.key ≡ key)
    pub indexed : d.indices ≡ (X.repo.add_full_index d0.indices key idx).0
    pub external : d.external_ch ≡ []
    pub internal : d.internal_ch ≡ []
    pub shards : d.shards ≡ d0.shards
    pub accessors : d.accessors ≡ d0.accessors

  -- From the goroutine of the initialization on.
  pub initialized :
      (a : Answers) (d d0 : System X) (i : ℕ)
      → get_elem? d.goroutines i ≡ some (Async.initializing (caller ctx) shard)
      → get_elem? d.heap shard ≡ some underway
      → (X.repo.add_full_index d.indices key idx).1 ≡ none
      → d.external_ch ≡ []
      → d.internal_ch ≡ []
      → d.completion_ch ≡ []
      → d.dispatch_results_ch ≡ []
      → d.indices ≡ d0.indices
      → d.shards ≡ d0.shards
      → d.accessors ≡ d0.accessors
      → Reaches (IsAnswered d0) d
  unfolding settle on_make_available trigger acquirers
  initialized a d d0 i there found added external internal completed results indices shards same =
      let P = IsAnswered d0 in
      let now = with_transient tr underway in
      let next_g = adding (caller ctx) shard idx in
      let out = sending (to_completion (completion_task shard) ∷ []) in
      let d1 : System X = goes_on i next_g (record d { heap = set d.heap shard now }) in
      let at1 : get_elem? d1.heap shard ≡ some now =
        get_elem?-set_self d.heap shard now underway found in
      let g1 : get_elem? d1.goroutines i ≡ some next_g =
        get_elem?-set_self d.goroutines i next_g _ there in
      let d2 : System X = goes_on i out (record d1 {
        indices = (X.repo.add_full_index d1.indices key idx).0;
        top_level_index = invert X key idx none d1.top_level_index;
      }) in
      let g2 : get_elem? d2.goroutines i ≡ some out =
        get_elem?-set_self d1.goroutines i out next_g g1 in
      let d3 : System X =
        goes_on i (sending []) (sent (to_completion (completion_task shard)) d2) in
      let t = third_turn d3.indices in
      let d4 : System X = settle a (completion_task shard) t (record d3 { completion_ch = [] }) in
      next P (generates i tr (ok reader) (ok idx)) d d1
        (generates_lem i tr reader idx (caller ctx) shard d underway there found)
        (next P (adds i) d1 d2 (adds_lem i idx (caller ctx) shard d1 now g1 at1 added) (
          next P (sends i) d2 d3 (sends_lem i (to_completion (completion_task shard)) [] d2 g2) (
            next P (controls a false) d3 d4
              (controls_completion a (completion_task shard) [] d3 now t at1
                (handle-make_available d3.failure_ch a.removed d3.indices) internal
                (ap (λ l. l ++ (completion_task shard) ∷ []) completed))
              (here P d4 (record {
                results = ap (λ l. l ++ success ctx channel key ∷ []) results;
                at_shard = (t.shard, get_elem?-set_self d1.heap shard t.shard now at1, refl, refl);
                indexed = ap (λ r. (X.repo.add_full_index r key idx).0) indices;
                external = external;
                internal = ap (λ l. l ++ []) internal;
                shards = shards;
                accessors = same;
              })))))
