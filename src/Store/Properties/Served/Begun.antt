-- ===== src/Store/Properties/Served/Begun.antt =====
-- dagstore_control.go: how an acquisition begins.
use dagstore.Shared.{
  ℕ, ◌+◌, ◌≡◌, ◌⊎◌, inl, inr, refl, ap, true, Option, none, some, [], ◌∷◌, ◌++◌, length, get_elem?,
  lookup, get_elem?-append_last, get_elem?-set_self,
}
use mathlib.Core.List.{append-nil}
use dagstore.Error.{Error}
use dagstore.ShardKey.{Key, key_eq}
use dagstore.ShardState.{available, serving}
use dagstore.Store.Types.{Externals, caller, Waiter, Shard, acquire}
use dagstore.Store.Turn.{Turn, u32, quiet, acquire_async}
use dagstore.Store.Control.{on_acquire, handle}
use dagstore.Store.Async.{to_external, acquiring, sending}
use dagstore.Store.System.Defs.{System}
use dagstore.Store.System.Calls.{call_task, queue_external}
use dagstore.Store.System.Loop.{Answers, settle}
use dagstore.Store.System.Steps.{goes_on, sent, acquires, controls, sends}
use dagstore.Store.Properties.Served.{Reaches, next, acquires_lem, sends_lem, controls_external}

-- The waiter of the caller.
abbrev pub asking : (ctx channel : ℕ) → Waiter
asking ctx channel = record { ctx = caller ctx; out_ch = some channel; notify_dead = none }

-- Whether a shard can be acquired at once.
abbrev pub IsReady : {X : Externals} → Shard X → Type 0
IsReady s = (s.state ≡ available) ⊎ (s.state ≡ serving)

abbrev pub acquired : {X : Externals} → Shard X → Shard X
acquired s = record s { state = serving; refs = u32 (s.refs + 1) }

module _ {X : Externals} (a : Answers) (ctx channel shard : ℕ) where
  handle-acquire :
      (fch : Option ℕ) (removed : Option Error) (s : Shard X) (repo : X.Repo)
      → IsReady s
      → handle fch removed (call_task acquire shard ctx (some channel)) s repo
        ≡ some (record (quiet (acquired s) repo) {
          spawned = acquire_async (asking ctx channel) shard ∷ [];
        })
  unfolding handle on_acquire
  handle-acquire fch removed s repo (inl e) = rw e refl
  handle-acquire fch removed s repo (inr e) = rw e refl

  abbrev turn : Shard X → X.Repo → Turn X
  turn s repo = record (quiet (acquired s) repo) {
    spawned = acquire_async (asking ctx channel) shard ∷ [];
  }

  -- The store once the event loop has started the goroutine at an index for the caller.
  pub record IsBegun (d : System X) (s : Shard X) (i : ℕ) (d' : System X) : Type 0 where
    pub goroutine : get_elem? d'.goroutines i ≡ some (acquiring (asking ctx channel) shard)
    pub at_shard : get_elem? d'.heap shard ≡ some (acquired s)
    pub indices : d'.indices ≡ d.indices
    pub results : d'.dispatch_results_ch ≡ d.dispatch_results_ch
    pub internal : d'.internal_ch ≡ []
    pub completion : d'.completion_ch ≡ d.completion_ch
    pub accessors : d'.accessors ≡ d.accessors
    pub shards : d'.shards ≡ d.shards

  pub begins :
      (P : System X → Type 0) (d : System X) (s : Shard X) (key : Key)
      → lookup key d.shards ≡ some shard
      → get_elem? d.heap shard ≡ some s
      → IsReady s
      → d.internal_ch ≡ []
      → d.external_ch ≡ []
      → ((d' : System X) (i : ℕ) → IsBegun d s i d' → Reaches P d')
      → Reaches P d
  unfolding settle
  begins P d s key known found ready internal external later =
      let tsk = call_task acquire shard ctx (some channel) in
      let d1 : System X = queue_external tsk d in
      let i = length d.goroutines in
      let d2 : System X = goes_on i (sending []) (sent (to_external tsk) d1) in
      let t = turn s d.indices in
      let d3 : System X = settle a tsk t (record d2 { external_ch = [] }) in
      next P (acquires ctx key (some channel)) d d1
        (acquires_lem ctx key (some channel) d shard known)
        (next P (sends i) d1 d2
          (sends_lem i (to_external tsk) [] d1 (get_elem?-append_last d.goroutines _))
          (next P (controls a true) d2 d3
            (controls_external a tsk [] d2 s t internal (ap (λ l. l ++ tsk ∷ []) external) found
              (handle-acquire d.failure_ch a.removed s d.indices ready))
            (later d3 (length d2.goroutines) (record {
              goroutine = get_elem?-append_last d2.goroutines _;
              at_shard = get_elem?-set_self d.heap shard (acquired s) s found;
              indices = refl;
              results = append-nil d.dispatch_results_ch;
              internal = ap (λ l. l ++ []) internal;
              completion = refl;
              accessors = refl;
              shards = refl;
            }))))
