-- ===== src/Store/Properties/Deliveries/Started.antt =====
-- dagstore.go: a store that has been started owes nobody a result, and never answers more than it is asked.
use dagstore.Shared.{
  ℕ, ◌+◌, ◌≤◌, ◌≡◌, refl, ◌∙◌, inl, inr, String, Bool, Option, some, List, [], ◌∷◌, ◌++◌, map,
  length, total, get_elem?, insert, arith, total-append, Option-cases,
}
use dagstore.Error.{Error, Result, ok, err}
use dagstore.ShardKey.{Key, key_eq}
use dagstore.ShardState.{ShardState}
use dagstore.Store.Types.{Externals, OpType, register, recover, Shard, PersistedShard}
use dagstore.Store.Turn.{index_exists}
use dagstore.Store.Async.{Send, sending}
use dagstore.Store.Persist.{unmarshal}
use dagstore.Store.System.Defs.{System}
use dagstore.Store.System.Steps.{Event, run}
use dagstore.Store.Start.{
  RecoverOnStartPolicy, Config, new_dag_store, restore_state, reset, reset_all, start_task, start,
}
use dagstore.Store.Soundness.Started.{unmarshal_fresh, reset_alike}
use dagstore.Store.Properties.Answers.{parked}
use dagstore.Store.Properties.Deliveries.{send_owed, goroutine_owed, due, asked, deliveries}
use dagstore.Store.Properties.Deliveries.Moves.{due-written}
use dagstore.Store.Properties.Deliveries.Runs.{answered_at_most_once}

module _ (f : ℕ → ℕ) {X : Externals} where
  due-new_dag_store :
      (dir_error : Option Error) (cfg : Config X) (d : System X)
      → new_dag_store dir_error cfg ≡ ok d
      → due f d ≡ 0
  unfolding new_dag_store due
  due-new_dag_store dir_error cfg d e = ground arith

  due-restored :
      (alive : String → Bool) (ps : PersistedShard) (d : System X) (o : Result (Shard X))
      → unmarshal d.mounts d.throttle_ready_fetch d.transients_dir alive ps ≡ o
      → due f (
          let r : System X = elim o [
            | err e ↦ d
            | ok s ↦ record d {
              heap = d.heap ++ s ∷ [];
              shards = insert s.key (length d.heap) d.shards;
            }
          ] in
          r)
        ≡ due f d
  unfolding due
  due-restored alive ps d (err e) h = refl
  due-restored alive ps d (ok s) h =
      let (refs, waiters, registers, recovers) =
        unmarshal_fresh d.mounts d.throttle_ready_fetch d.transients_dir alive ps s h in
      let idle : parked f s ≡ 0 = ground (arith, waiters, registers, recovers) in
      omega (arith, idle, total-append (parked f) d.heap (s ∷ []))

  due-restore_state :
      (alive : String → Bool) (l : List (String × PersistedShard)) (d : System X)
      → due f (restore_state alive l d) ≡ due f d
  unfolding restore_state
  due-restore_state alive [] d = refl
  due-restore_state alive ((k, ps) ∷ rest) d =
      due-restore_state alive rest _
      ∙ due-restored alive ps d
          (unmarshal d.mounts d.throttle_ready_fetch d.transients_dir alive ps) refl

  parked-reset :
      (policy : RecoverOnStartPolicy) (has_index : Bool) (state : ShardState) (s : Shard X)
      → parked f (reset policy has_index state s).0 ≡ parked f s
  parked-reset policy has_index state s =
      let (refs, waiters, registers, recovers) = reset_alike policy has_index state s in
      rw (waiters, registers, recovers) refl

  due-reset_all :
      (policy : RecoverOnStartPolicy) (l : List (Key × ℕ)) (d : System X)
      (to_register to_recover : List ℕ)
      → due f
          (record d { heap = (reset_all policy d.indices l (d.heap, to_register, to_recover)).0 })
        ≡ due f d
  unfolding reset_all
  due-reset_all policy [] d to_register to_recover = refl
  due-reset_all policy ((k, shard) ∷ rest) d to_register to_recover =
      elim (Option-cases (get_elem? d.heap shard)) [
        | inl e ↦ rw (e, reset_all) (due-reset_all policy rest d _ _)
        | inr (s, e) ↦
            let has_index = index_exists (X.repo.stat_full_index d.indices s.key) in
            rw (e, reset_all)
              (due-reset_all policy rest _ _ _
                ∙ due-written f shard s (reset policy has_index s.state s).0 d e
                    (parked-reset policy has_index s.state s))
      ]

module _ (f : ℕ → ℕ) (X : Externals) where
  due-start_tasks :
      (ctx : ℕ) (op : OpType) (l : List ℕ)
      → total (send_owed f {X = X}) (map (start_task ctx op) l) ≡ 0
  due-start_tasks ctx op [] = refl
  due-start_tasks ctx op (shard ∷ l) = ground (arith, due-start_tasks ctx op l)

module _ (f : ℕ → ℕ) {X : Externals} where
  due-sender :
      (l : List (Send X)) (d : System X)
      → total (send_owed f) l ≡ 0
      → due f (record d { goroutines = d.goroutines ++ sending l ∷ [] }) ≡ due f d
  unfolding due
  due-sender l d free =
      omega (arith, free, total-append (goroutine_owed f) d.goroutines (sending l ∷ []))

  due-start :
      (ctx : ℕ) (policy : RecoverOnStartPolicy) (alive : String → Bool) (d : System X)
      → due f (start ctx policy alive d) ≡ due f d
  unfolding start
  due-start ctx policy alive d =
      let d' = restore_state alive d.store d in
      let (heap, to_register, to_recover) =
        reset_all policy d'.indices d'.shards (d'.heap, [], []) in
      let registers : List (Send X) = map (start_task ctx register) to_register in
      let recovers : List (Send X) = map (start_task ctx recover) to_recover in
      due-sender (registers ++ recovers) _ (
        omega (
          arith,
          total-append (send_owed f) registers recovers,
          due-start_tasks f X ctx register to_register,
          due-start_tasks f X ctx recover to_recover,
        ))
      ∙ (due-reset_all f policy d'.shards d' [] [] ∙ due-restore_state f alive d.store d)

  -- From any configuration and any persisted records: whatever happens in a run of the started store that
  -- does not crash, and in whatever order, on every channel no more results are delivered, or are still
  -- due, than calls were made with the channel. Channels can be counted alone or together: `f` is the
  -- weight of each.
  pub answered_as_asked :
      (dir_error : Option Error) (cfg : Config X) (d₀ : System X)
      → new_dag_store dir_error cfg ≡ ok d₀
      → (ctx : ℕ) (policy : RecoverOnStartPolicy) (alive : String → Bool) (es : List (Event X))
        (d : System X)
      → run es (start ctx policy alive d₀) ≡ some d
      → deliveries f es (start ctx policy alive d₀) + due f d ≤ total (asked f) es
  answered_as_asked dir_error cfg d₀ made ctx policy alive es d ran = omega (
    arith,
    answered_at_most_once f es (start ctx policy alive d₀) d ran,
    due-start ctx policy alive d₀,
    due-new_dag_store f dir_error cfg d₀ made,
  )
