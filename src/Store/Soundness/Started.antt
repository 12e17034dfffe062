-- ===== src/Store/Soundness/Started.antt =====
-- A store that has been started, from any records, satisfies the invariant.
use dagstore.Shared.{
  ℕ, ◌≡◌, ◌≢◌, refl, inl, inr, Bool, String, Option, none, List, [], ◌∷◌, ◌++◌, All, map, length,
  get_elem?, total, insert, arith, All-append, total-append, Option-cases,
}
use dagstore.Error.{Error, Result, ok, err}
use dagstore.ShardKey.{Key, key_eq}
use dagstore.ShardState.{ShardState}
use dagstore.Throttle.{Throttler}
use dagstore.Mount.Registry.{Registry}
use dagstore.Store.Types.{Externals, OpType, register, release, recover, Shard, PersistedShard}
use dagstore.Store.Turn.{index_exists}
use dagstore.Store.Async.{Send, sending}
use dagstore.Store.Persist.{unmarshal}
use dagstore.Store.System.Defs.{System}
use dagstore.Store.Start.{
  RecoverOnStartPolicy, Config, new_dag_store, restore_state, reset, reset_all, start_task, start,
}
use dagstore.Store.Soundness.Measure.{
  send_refs, goroutine_refs, holders, IsSoundSend, IsSoundGoroutine,
}
use dagstore.Store.Soundness.Invariant.{Inv}
use dagstore.Store.Soundness.Calls.{allocated-Inv}
use dagstore.Store.Soundness.Goroutines.{rewritten-Inv, IsSoundShard-like}

module _ {X : Externals} where
  pub new_dag_store-Inv :
      (dir_error : Option Error) (cfg : Config X) (d : System X)
      → new_dag_store dir_error cfg ≡ ok d
      → Inv 0 d
  unfolding new_dag_store holders
  new_dag_store-Inv dir_error cfg d e = ground arith

  pub unmarshal_fresh :
      (mounts : Registry X.Mount) (throttler : Throttler) (dir : String) (alive : String → Bool)
      (ps : PersistedShard) (s : Shard X)
      → unmarshal mounts throttler dir alive ps ≡ ok s
      → (s.refs ≡ 0) × (s.w_acquire ≡ []) × (s.w_register ≡ none) × (s.w_recover ≡ none)
  unfolding unmarshal
  unmarshal_fresh mounts throttler dir alive ps s e = ground arith

  pub reset_alike :
      (policy : RecoverOnStartPolicy) (has_index : Bool) (state : ShardState) (s : Shard X)
      → ((reset policy has_index state s).0.refs ≡ s.refs)
        × ((reset policy has_index state s).0.w_acquire ≡ s.w_acquire)
        × ((reset policy has_index state s).0.w_register ≡ s.w_register)
        × ((reset policy has_index state s).0.w_recover ≡ s.w_recover)
  unfolding reset
  reset_alike policy has_index state s = ground arith

  restore_state-Inv :
      (alive : String → Bool) (l : List (String × PersistedShard)) (d : System X)
      → Inv 0 d
      → Inv 0 (restore_state alive l d)
  unfolding restore_state
  restore_state-Inv alive [] d v = v
  restore_state-Inv alive ((k, ps) ∷ rest) d v =
      restore_state-Inv alive rest _
        (restored (unmarshal d.mounts d.throttle_ready_fetch d.transients_dir alive ps) refl)
    where
      restored :
          (o : Result (Shard X))
          → unmarshal d.mounts d.throttle_ready_fetch d.transients_dir alive ps ≡ o
          → Inv 0 (
              let r : System X = elim o [
                | err e ↦ d
                | ok s ↦ record d {
                  heap = d.heap ++ s ∷ [];
                  shards = insert s.key (length d.heap) d.shards;
                }
              ] in
              r)
      restored (err e) f = v
      restored (ok s) f =
          let (no_refs, no_waiters, no_register, no_recover) =
            unmarshal_fresh d.mounts d.throttle_ready_fetch d.transients_dir alive ps s f in
          allocated-Inv s d no_refs no_waiters
            (record {
              plain_register = rw no_register tt;
              plain_recover = rw no_recover tt;
              plain_acquire = rw no_waiters tt;
            })
            _ v

  reset_all-Inv :
      (policy : RecoverOnStartPolicy) (l : List (Key × ℕ)) (d : System X)
      (to_register to_recover : List ℕ)
      → Inv 0 d
      → Inv 0
          (record d { heap = (reset_all policy d.indices l (d.heap, to_register, to_recover)).0 })
  unfolding reset_all
  reset_all-Inv policy [] d to_register to_recover v = v
  reset_all-Inv policy ((k, shard) ∷ rest) d to_register to_recover v =
      elim (Option-cases (get_elem? d.heap shard)) [
        | inl e ↦ rw (e, reset_all) (reset_all-Inv policy rest d _ _ v)
        | inr (s, e) ↦
            let (refs, waiters, registers, recovers) =
              reset_alike policy (index_exists (X.repo.stat_full_index d.indices s.key)) s.state
                s in
            rw (e, reset_all)
              (reset_all-Inv policy rest _ _ _ (
                rewritten-Inv shard s _ d e refs waiters
                  (IsSoundShard-like registers recovers waiters) v))
      ]

module _ (X : Externals) where
  start_tasks_free :
      (ctx : ℕ) (op : OpType) (l : List ℕ) (r : ℕ)
      → op ≢ release
      → total (send_refs {X = X} r) (map (start_task ctx op) l) ≡ 0
  start_tasks_free ctx op [] r h = refl
  start_tasks_free ctx op (shard ∷ l) r h = ground (arith, start_tasks_free ctx op l r)

  start_tasks-IsSound :
      (ctx : ℕ) (op : OpType) (l : List ℕ) → All (IsSoundSend {X = X}) (map (start_task ctx op) l)
  start_tasks-IsSound ctx op [] = tt
  start_tasks-IsSound ctx op (shard ∷ l) = ground (arith, start_tasks-IsSound ctx op l)

module _ {X : Externals} where
  -- A goroutine that only sends what holds nothing.
  sender-Inv :
      (l : List (Send X)) (d : System X)
      → ((r : ℕ) → total (send_refs r) l ≡ 0)
      → All IsSoundSend l
      → Inv 0 d
      → Inv 0 (record d { goroutines = d.goroutines ++ sending l ∷ [] })
  unfolding holders
  sender-Inv l d free sound v = record {
    held = λ r.
        omega
          (arith, v.held r, free r, total-append (goroutine_refs r) d.goroutines (sending l ∷ []));
    single = v.single;
    orderly = record {
      loaded = v.orderly.loaded;
      external = v.orderly.external;
      internal = v.orderly.internal;
      completion = v.orderly.completion;
      goroutines =
          All-append IsSoundGoroutine d.goroutines (sending l ∷ []) v.orderly.goroutines
            (sound, tt);
      heap = v.orderly.heap;
    };
  }

  pub start-Inv :
      (ctx : ℕ) (policy : RecoverOnStartPolicy) (alive : String → Bool) (d : System X)
      → Inv 0 d
      → Inv 0 (start ctx policy alive d)
  unfolding start
  start-Inv ctx policy alive d v =
      let d' = restore_state alive d.store d in
      let (heap, to_register, to_recover) =
        reset_all policy d'.indices d'.shards (d'.heap, [], []) in
      let registers : List (Send X) = map (start_task ctx register) to_register in
      let recovers : List (Send X) = map (start_task ctx recover) to_recover in
      sender-Inv (registers ++ recovers) _
        (λ r. omega (
          arith,
          total-append (send_refs r) registers recovers,
          start_tasks_free X ctx register to_register r (λ e. cc),
          start_tasks_free X ctx recover to_recover r (λ e. cc),
        ))
        (All-append IsSoundSend registers recovers (start_tasks-IsSound X ctx register to_register)
          (start_tasks-IsSound X ctx recover to_recover))
        (reset_all-Inv policy d'.shards d' [] [] (restore_state-Inv alive d.store d v))
