-- ===== src/Store/Properties/Served/Refused.antt =====
-- dagstore_async.go, dagstore_control.go: an acquisition whose mount cannot be fetched.
use dagstore.Shared.{
  ℕ, ◌+◌, ◌<◌, ◌^◌, ◌≡◌, refl, ap, ◌∙◌, false, none, some, List, [], ◌∷◌, ◌++◌, get_elem?, set,
  lookup, arith, get_elem?-set_self,
}
use dagstore.Error.{Error, err, no_reader_on_acquire}
use dagstore.ShardKey.{Key, key_eq}
use dagstore.ShardState.{serving, errored}
use dagstore.Store.Types.{Externals, Waiter, Task, Shard, Dispatch, release, fail}
use dagstore.Store.Control.{on_release, on_fail, handle}
use dagstore.Store.Async.{
  Send, to_completion, task_of, acquire_fetched, to_results, acquiring, sending,
}
use dagstore.Store.System.Defs.{System}
use dagstore.Store.System.Loop.{Answers, settle}
use dagstore.Store.System.Steps.{
  Transient, on_fetches, at, step, with_transient, goes_on, sent, controls, fetches, sends,
}
use dagstore.Store.Properties.Served.{Reaches, here, next, sends_lem}
use dagstore.Store.Properties.Served.Steps.{controls_completion}
use dagstore.Store.Properties.Served.Begun.{asking, IsReady, acquired, begins}

module _ {X : Externals} where
  fails_lem :
      (i : ℕ) (tr : Transient) (e : Error) (w : Waiter) (shard : ℕ) (d : System X) (s : Shard X)
      → get_elem? d.goroutines i ≡ some (acquiring w shard)
      → get_elem? d.heap shard ≡ some s
      → step (fetches i tr (err e) none) d
        ≡ some (
            goes_on i
              (acquire_fetched w shard s.key (err e) none)
              (record d { heap = set d.heap shard (with_transient tr s) }))
  unfolding step on_fetches
  fails_lem i tr e w shard d s at_i found = rw (at_i, at) (rw (found, on_fetches) refl)

  -- The release of a reference that has just been counted.
  release_lem :
      (tsk : Task) (s : Shard X) (repo : X.Repo) (n : ℕ)
      → s.state ≡ serving
      → s.refs ≡ n + 1
      → let t = on_release tsk s repo in
        (t.shard.refs ≡ n) × (t.shard.key ≡ s.key) × (t.staged ≡ []) × (t.results ≡ [])
  unfolding on_release
  release_lem tsk s repo n state refs = ground arith

-- The tasks that the goroutine queues.
abbrev releasing : (shard : ℕ) → Task
releasing shard = task_of release shard none

abbrev failing : (e : Error) → (shard : ℕ) → Task
failing e shard = task_of fail shard (some (no_reader_on_acquire e))

module _ {X : Externals} (a : Answers) (ctx channel : ℕ) (tr : Transient) (e : Error)
    (shard : ℕ) where
  -- What the caller is told.
  abbrev pub refusal : Key → Dispatch X
  refusal k = record {
    w = asking ctx channel;
    res = record { key = k; error = some e; accessor = none };
  }

  pub record IsRefused (d : System X) (s : Shard X) (d' : System X) : Type 0 where
    pub rest : List (Dispatch X)
    pub results : d'.dispatch_results_ch ≡ refusal s.key ∷ rest
    pub after : Shard X
    pub at_shard : get_elem? d'.heap shard ≡ some after
    pub state : after.state ≡ errored
    pub err : after.err ≡ some (no_reader_on_acquire e)
    pub refs : after.refs ≡ s.refs
    pub accessors : d'.accessors ≡ d.accessors

  -- From the goroutine of the acquisition on.
  failed :
      (d d0 : System X) (s : Shard X) (i : ℕ)
      → s.refs + 1 < 2 ^ 32
      → get_elem? d.goroutines i ≡ some (acquiring (asking ctx channel) shard)
      → get_elem? d.heap shard ≡ some (acquired s)
      → d.internal_ch ≡ []
      → d.completion_ch ≡ []
      → d.dispatch_results_ch ≡ []
      → d.accessors ≡ d0.accessors
      → Reaches (IsRefused d0 s) d
  unfolding acquire_fetched handle settle on_fail
  failed d d0 s i small there found internal completed results same =
      let P = IsRefused d0 s in
      let now = with_transient tr (acquired s) in
      let w = asking ctx channel in
      let r = refusal s.key in
      let out1 : List (Send X) = to_results r ∷ [] in
      let out2 : List (Send X) = to_completion (failing e shard) ∷ out1 in
      let out3 : List (Send X) = to_completion (releasing shard) ∷ out2 in
      let d1 : System X = goes_on i (sending out3) (record d { heap = set d.heap shard now }) in
      let at1 : get_elem? d1.heap shard ≡ some now =
        get_elem?-set_self d.heap shard now (acquired s) found in
      let g1 : get_elem? d1.goroutines i ≡ some (sending out3) =
        get_elem?-set_self d.goroutines i (sending out3) (acquiring w shard) there in
      let d2 : System X = goes_on i (sending out2) (sent (to_completion (releasing shard)) d1) in
      let g2 : get_elem? d2.goroutines i ≡ some (sending out2) =
        get_elem?-set_self d1.goroutines i (sending out2) (sending out3) g1 in
      let d3 : System X = goes_on i (sending out1) (sent (to_completion (failing e shard)) d2) in
      let g3 : get_elem? d3.goroutines i ≡ some (sending out1) =
        get_elem?-set_self d2.goroutines i (sending out1) (sending out2) g2 in
      let d4 : System X = goes_on i (sending []) (sent (to_results r) d3) in
      let t = on_release (releasing shard) now d4.indices in
      let (refs, key, staged, told) =
        release_lem (releasing shard) now d4.indices s.refs refl (omega arith) in
      let d5 : System X =
        settle a (releasing shard) t (record d4 { completion_ch = (failing e shard) ∷ [] }) in
      let at5 : get_elem? d5.heap shard ≡ some t.shard =
        get_elem?-set_self d1.heap shard t.shard now at1 in
      let t' = on_fail d5.failure_ch (failing e shard) t.shard d5.indices in
      let d6 : System X = settle a (failing e shard) t' (record d5 { completion_ch = [] }) in
      next P (fetches i tr (err e) none) d d1 (fails_lem i tr e w shard d (acquired s) there found)
        (next P (sends i) d1 d2 (sends_lem i (to_completion (releasing shard)) out2 d1 g1) (
          next P (sends i) d2 d3 (sends_lem i (to_completion (failing e shard)) out1 d2 g2) (
            next P (sends i) d3 d4 (sends_lem i (to_results r) [] d3 g3) (
              next P (controls a false) d4 d5
                (controls_completion a (releasing shard) ((failing e shard) ∷ []) d4 now t at1 refl
                  internal
                  (ap (λ l. (l ++ (releasing shard) ∷ []) ++ (failing e shard) ∷ []) completed))
                (next P (controls a false) d5 d6
                  (controls_completion a (failing e shard) [] d5 t.shard t' at5 refl
                    (ap (λ l. l ++ t.staged) internal ∙ staged) refl)
                  (here P d6 (record {
                    rest = t'.results;
                    results =
                        ap (λ l. (l ++ t.results) ++ t'.results) (ap (λ l. l ++ r ∷ []) results)
                        ∙ ap (λ l. (r ∷ l) ++ t'.results) told;
                    after = t'.shard;
                    at_shard = get_elem?-set_self d5.heap shard t'.shard t.shard at5;
                    state = refl;
                    err = refl;
                    refs = refs;
                    accessors = same;
                  })))))))

  pub failed_fetch_refuses :
      (d : System X) (s : Shard X) (key : Key)
      → lookup key d.shards ≡ some shard
      → get_elem? d.heap shard ≡ some s
      → IsReady s
      → s.refs + 1 < 2 ^ 32
      → d.internal_ch ≡ []
      → d.external_ch ≡ []
      → d.completion_ch ≡ []
      → d.dispatch_results_ch ≡ []
      → Reaches (IsRefused d s) d
  failed_fetch_refuses d s key known found ready small internal external completed results =
      begins a ctx channel shard (IsRefused d s) d s key known found ready internal external
        (λ d' i v.
          failed d' d s i small v.goroutine v.at_shard v.internal (v.completion ∙ completed)
            (v.results ∙ results) v.accessors)
