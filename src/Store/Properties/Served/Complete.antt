-- ===== src/Store/Properties/Served/Complete.antt =====
-- dagstore.go, dagstore_control.go, dagstore_async.go: from a registration to an accessor.
use dagstore.Shared.{
  ℕ, ◌≡◌, inl, refl, ap, ◌∙◌, String, Bool, true, false, none, some, [], ◌∷◌, ◌++◌, length,
  get_elem?, lookup, insert, lookup-insert, arith, get_elem?-append_last, get_elem?-set_self,
}
use dagstore.Error.{ok}
use dagstore.ShardKey.{Key, key_eq}
use dagstore.Mount.Upgrader.{Upgrader, upgrade}
use dagstore.Store.Types.{Externals, Accessor, register}
use dagstore.Store.Turn.{index_exists}
use dagstore.Store.Async.{sending, to_external}
use dagstore.Store.System.Defs.{System}
use dagstore.Store.System.Calls.{RegisterOpts, fresh, call_task, queue_external}
use dagstore.Store.System.Loop.{Answers, settle}
use dagstore.Store.System.Steps.{Transient, goes_on, sent, registers, controls, sends, delivers}
use dagstore.Store.Properties.Findable.{IsIndexing}
use dagstore.Store.Properties.Served.{Reaches, next, sends_lem, controls_external, delivers_lem}
use dagstore.Store.Properties.Served.Steps.{registers_lem, controls_internal}
use dagstore.Store.Properties.Served.Acquired.{acquire_hands_over}
use dagstore.Store.Properties.Served.Registered.{
  IsIdle, initialization, success, first_turn, second_turn, handle-register, handle-initialize,
  IsAnswered, initialized,
}

module _ {X : Externals} (a : Answers) (ctx channel ctx' channel' : ℕ) (tr : Transient)
    (reader : X.Reader) (idx : X.Index) (key : Key) where
  abbrev pub accessor_of : ℕ → Accessor X
  accessor_of shard = record { reader = reader; idx = idx; shard = shard }

  -- A caller of `AcquireShard` has its accessor of a shard.
  abbrev pub IsHanded : System X → ℕ → System X → Type 0
  IsHanded d shard d2 =
      (lookup key d2.shards ≡ some shard) × (d2.accessors ≡ d.accessors ++ accessor_of shard ∷ [])

  -- The caller of the registration is told that it succeeded, and from there the shard can be acquired.
  abbrev pub IsServed : System X → ℕ → System X → Type 0
  IsServed d shard d1 =
      (d1.dispatch_results_ch ≡ success ctx channel key ∷ []) × Reaches (IsHanded d shard) d1

  acquired_later :
      (laws : IsIndexing X) (u : Upgrader X.Mount) (d d0 d1 : System X) (shard : ℕ)
      → lookup key d0.shards ≡ some shard
      → (X.repo.add_full_index d0.indices key idx).1 ≡ none
      → d0.accessors ≡ d.accessors
      → IsAnswered ctx channel tr reader idx shard key u d0 d1
      → IsServed d shard d1
  acquired_later laws u d d0 d1 shard known added same v =
      let (s, found, state, s_key) = v.at_shard in
      let d2 : System X = record d1 { dispatch_results_ch = [] } in
      let (es, d3, ran, w) =
        acquire_hands_over a ctx' channel' tr reader idx shard d2 s key
          (ap (lookup key) v.shards ∙ known) found (inl state)
          (ap (X.repo.get_full_index d1.indices) s_key
            ∙ (ap (λ r. X.repo.get_full_index r key) v.indexed
                ∙ laws.get-add d0.indices key idx added))
          v.internal v.external refl in
      (
        v.results,
        next (IsHanded d shard) (delivers false) d1 d2
            (delivers_lem (success ctx channel key) [] d1 v.results)
            (
              es,
              d3,
              ran,
              (
                ap (lookup key) (w.shards ∙ v.shards) ∙ known,
                w.accessors ∙ ap (λ l. l ++ accessor_of shard ∷ []) (v.accessors ∙ same),
              ),
            ),
      )

  pub register_then_acquire :
      (d : System X) (mnt : X.Mount) (existing : String) (alive : String → Bool)
      (u : Upgrader X.Mount)
      → IsIndexing X
      → IsIdle d
      → lookup key d.shards ≡ none
      → upgrade X.os X.mount alive mnt d.throttle_ready_fetch d.transients_dir key.str existing
        ≡ ok u
      → index_exists (X.repo.stat_full_index d.indices key) ≡ false
      → (X.repo.add_full_index d.indices key idx).1 ≡ none
      → Reaches (IsServed d (length d.heap)) d
  unfolding settle
  register_then_acquire d mnt existing alive u laws idle free upgraded missing added =
      let n = length d.heap in
      let P = IsServed d n in
      let tsk = call_task register n ctx (some channel) in
      let init = initialization ctx channel n in
      let opts : RegisterOpts = record {
        existing_transient = existing;
        lazy_initialization = false;
      } in
      let s0 = fresh key u false in
      let i = length d.goroutines in
      let d0 : System X = record d { shards = insert key n d.shards } in
      let d1 : System X = queue_external tsk (record d0 { heap = d.heap ++ s0 ∷ [] }) in
      let d2 : System X = goes_on i (sending []) (sent (to_external tsk) d1) in
      let t = first_turn ctx channel tr reader idx n key u d.indices in
      let d3 : System X = settle a tsk t (record d2 { external_ch = [] }) in
      let t' = second_turn ctx channel tr reader idx n key u d.indices in
      let d4 : System X = settle a init t' (record d3 { internal_ch = [] }) in
      let at1 : get_elem? d1.heap n ≡ some s0 = get_elem?-append_last d.heap s0 in
      let at3 = get_elem?-set_self d1.heap n t.shard s0 at1 in
      let at4 = get_elem?-set_self d3.heap n t'.shard t.shard at3 in
      let known : lookup key d0.shards ≡ some n =
        ground (arith, lookup-insert key key n d.shards, key_eq.beq_iff key key) in
      let (es, d5, ran, answered) =
        initialized ctx channel tr reader idx n key u a d4 d0 (length d3.goroutines)
          (get_elem?-append_last d3.goroutines _) at4 added refl refl (idle.completion)
          (ap (λ l. (l ++ []) ++ []) idle.results) refl refl refl in
      next P (registers ctx key mnt (some channel) opts alive) d d1
        (registers_lem ctx key mnt (some channel) opts alive d u free upgraded)
        (next P (sends i) d1 d2
          (sends_lem i (to_external tsk) [] d1 (get_elem?-append_last d.goroutines _))
          (next P (controls a true) d2 d3
            (controls_external a tsk [] d2 s0 t idle.internal
              (ap (λ l. l ++ tsk ∷ []) idle.external) at1
              (handle-register ctx channel tr reader idx n key u d.failure_ch a.removed d.indices))
            (next P (controls a true) d3 d4
              (controls_internal a init [] d3 t.shard t' at3
                (handle-initialize ctx channel tr reader idx n key u d.failure_ch a.removed
                  d.indices missing)
                (ap (λ l. l ++ init ∷ []) idle.internal))
              (es, d5, ran, acquired_later laws u d d0 d5 n known added refl answered))))
