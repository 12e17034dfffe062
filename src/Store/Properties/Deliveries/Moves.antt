-- ===== src/Store/Properties/Deliveries/Moves.antt =====
-- dagstore_async.go: no step of a goroutine owes a result that was not due.
use dagstore.Shared.{
  ℕ, ◌≤◌, ◌≡◌, refl, inl, inr, Option, some, List, [], ◌∷◌, set, get_elem?, arith, total-append,
  total-set, Option-cases,
}
use dagstore.Error.{Error, Result}
use dagstore.ShardKey.{Key}
use dagstore.Store.Types.{Externals, Waiter, Shard}
use dagstore.Store.Async.{
  Send, to_external, to_completion, to_results, Goroutine, acquiring, indexing, initializing,
  adding, sending, acquire_fetched, acquire_indexed, initialize_fetched, initialize_added,
}
use dagstore.Store.System.Defs.{System}
use dagstore.Store.System.Steps.{
  Transient, with_transient, sent, goes_on, at, on_fetches, on_indexes, on_generates, on_adds,
  on_sends,
}
use dagstore.Store.Properties.Answers.{owed, parked}
use dagstore.Store.Properties.Deliveries.{task_owed, result_owed, goroutine_owed, due}

module _ (f : ℕ → ℕ) (X : Externals) where
  owed-acquire_fetched :
      (w : Waiter) (shard : ℕ) (k : Key) (reader : Result X.Reader) (e : Option Error)
      → goroutine_owed f (acquire_fetched {X = X} w shard k reader e) ≤ owed f w
  unfolding acquire_fetched
  owed-acquire_fetched w shard k reader e = ground arith

  owed-acquire_indexed :
      (w : Waiter) (shard : ℕ) (k : Key) (reader : X.Reader) (idx : Result X.Index)
      (e : Option Error)
      → goroutine_owed f (acquire_indexed {X = X} w shard k reader idx e) ≤ owed f w
  unfolding acquire_indexed
  owed-acquire_indexed w shard k reader idx e = ground arith

  owed-initialize_fetched :
      (ctx : _) (shard : ℕ) (reader : Result X.Reader) (idx : Result X.Index)
      → goroutine_owed f (initialize_fetched {X = X} ctx shard reader idx) ≡ 0
  unfolding initialize_fetched
  owed-initialize_fetched ctx shard reader idx = ground arith

  owed-initialize_added :
      (shard : ℕ) (e : Option Error) → goroutine_owed f (initialize_added {X = X} shard e) ≡ 0
  unfolding initialize_added
  owed-initialize_added shard e = ground arith

module _ (f : ℕ → ℕ) {X : Externals} where
  -- A write to a shard that leaves its waiters.
  pub due-written :
      (shard : ℕ) (s s' : Shard X) (d : System X)
      → get_elem? d.heap shard ≡ some s
      → parked f s' ≡ parked f s
      → due f (record d { heap = set d.heap shard s' }) ≡ due f d
  unfolding due
  due-written shard s s' d e h = omega (arith, h, total-set (parked f) d.heap shard s' s e)

  due-goes_on :
      (i : ℕ) (g g' : Goroutine X) (d : System X)
      → get_elem? d.goroutines i ≡ some g
      → goroutine_owed f g' ≤ goroutine_owed f g
      → due f (goes_on i g' d) ≤ due f d
  unfolding due
  due-goes_on i g g' d e h = omega (arith, h, total-set (goroutine_owed f) d.goroutines i g' g e)

  module _ (i : ℕ) where
    pub due-at :
        (go : Goroutine X → System X → System X) (d : System X)
        → ((g : Goroutine X) → get_elem? d.goroutines i ≡ some g → due f (go g d) ≤ due f d)
        → due f (at go i d) ≤ due f d
    due-at go d h = elim (Option-cases (get_elem? d.goroutines i)) [
      | inl e ↦ rw (e, at) (omega arith)
      | inr (g, e) ↦ rw (e, at) (h g e)
    ]

    pub due-on_fetches :
        (t : Transient) (reader : Result X.Reader) (ctx_err : Option Error) (g : Goroutine X)
        (d : System X)
        → get_elem? d.goroutines i ≡ some g
        → due f (on_fetches i t reader ctx_err g d) ≤ due f d
    unfolding on_fetches
    due-on_fetches t reader ctx_err (acquiring w shard) d at_i =
        elim (Option-cases (get_elem? d.heap shard)) [
          | inl e ↦ rw (e, on_fetches) (omega arith)
          | inr (s, e) ↦
              rw (e, on_fetches)
                (omega (
                  arith,
                  due-written shard s (with_transient t s) d e refl,
                  due-goes_on i (acquiring w shard) (acquire_fetched w shard s.key reader ctx_err)
                      (record d { heap = set d.heap shard (with_transient t s) }) at_i
                      (owed-acquire_fetched f X w shard s.key reader ctx_err),
                ))
        ]
    due-on_fetches t reader ctx_err (indexing w shard rd) d at_i = omega arith
    due-on_fetches t reader ctx_err (initializing ctx shard) d at_i = omega arith
    due-on_fetches t reader ctx_err (adding ctx shard idx) d at_i = omega arith
    due-on_fetches t reader ctx_err (sending l) d at_i = omega arith

    pub due-on_indexes :
        (ctx_err : Option Error) (g : Goroutine X) (d : System X)
        → get_elem? d.goroutines i ≡ some g
        → due f (on_indexes i ctx_err g d) ≤ due f d
    unfolding on_indexes
    due-on_indexes ctx_err (indexing w shard rd) d at_i =
        elim (Option-cases (get_elem? d.heap shard)) [
          | inl e ↦ rw (e, on_indexes) (omega arith)
          | inr (s, e) ↦
              rw (e, on_indexes)
                (due-goes_on i (indexing w shard rd) _ d at_i
                  (owed-acquire_indexed f X w shard s.key rd _ ctx_err))
        ]
    due-on_indexes ctx_err (acquiring w shard) d at_i = omega arith
    due-on_indexes ctx_err (initializing ctx shard) d at_i = omega arith
    due-on_indexes ctx_err (adding ctx shard idx) d at_i = omega arith
    due-on_indexes ctx_err (sending l) d at_i = omega arith

    pub due-on_generates :
        (t : Transient) (reader : Result X.Reader) (idx : Result X.Index) (g : Goroutine X)
        (d : System X)
        → get_elem? d.goroutines i ≡ some g
        → due f (on_generates i t reader idx g d) ≤ due f d
    unfolding on_generates
    due-on_generates t reader idx (initializing ctx shard) d at_i =
        elim (Option-cases (get_elem? d.heap shard)) [
          | inl e ↦ rw (e, on_generates) (omega arith)
          | inr (s, e) ↦
              rw (e, on_generates)
                (omega (
                  arith,
                  due-written shard s (with_transient t s) d e refl,
                  due-goes_on i (initializing ctx shard) (initialize_fetched ctx shard reader idx)
                      (record d { heap = set d.heap shard (with_transient t s) }) at_i
                      (omega (arith, owed-initialize_fetched f X ctx shard reader idx)),
                ))
        ]
    due-on_generates t reader idx (acquiring w shard) d at_i = omega arith
    due-on_generates t reader idx (indexing w shard rd) d at_i = omega arith
    due-on_generates t reader idx (adding ctx shard i2) d at_i = omega arith
    due-on_generates t reader idx (sending l) d at_i = omega arith

    pub due-on_adds :
        (g : Goroutine X) (d : System X)
        → get_elem? d.goroutines i ≡ some g
        → due f (on_adds i g d) ≤ due f d
    unfolding on_adds due
    due-on_adds (adding ctx shard idx) d at_i = elim (Option-cases (get_elem? d.heap shard)) [
      | inl e ↦ rw (e, on_adds) (omega arith)
      | inr (s, e) ↦
          let added = (X.repo.add_full_index d.indices s.key idx).1 in
          rw (e, on_adds)
            (due-goes_on i (adding ctx shard idx) (initialize_added shard added) d at_i
              (omega (arith, owed-initialize_added f X shard added)))
    ]
    due-on_adds (acquiring w shard) d at_i = omega arith
    due-on_adds (indexing w shard rd) d at_i = omega arith
    due-on_adds (initializing ctx shard) d at_i = omega arith
    due-on_adds (sending l) d at_i = omega arith

    -- A send moves what is due from the goroutine to a queue.
    due-sent :
        (x : Send X) (rest : List (Send X)) (d : System X)
        → get_elem? d.goroutines i ≡ some (sending (x ∷ rest))
        → due f (goes_on i (sending rest) (sent x d)) ≤ due f d
    unfolding due
    due-sent (to_external t) rest d e = omega (
      arith,
      total-set (goroutine_owed f) d.goroutines i (sending rest) (sending (to_external t ∷ rest)) e,
      total-append (task_owed f) d.external_ch (t ∷ []),
    )
    due-sent (to_completion t) rest d e = omega (
      arith,
      total-set (goroutine_owed f) d.goroutines i (sending rest) (sending (to_completion t ∷ rest))
          e,
      total-append (task_owed f) d.completion_ch (t ∷ []),
    )
    due-sent (to_results r) rest d e = omega (
      arith,
      total-set (goroutine_owed f) d.goroutines i (sending rest) (sending (to_results r ∷ rest)) e,
      total-append (result_owed f) d.dispatch_results_ch (r ∷ []),
    )

    pub due-on_sends :
        (g : Goroutine X) (d : System X)
        → get_elem? d.goroutines i ≡ some g
        → due f (on_sends i g d) ≤ due f d
    unfolding on_sends
    due-on_sends (sending []) d e = omega arith
    due-on_sends (sending (x ∷ rest)) d e = due-sent x rest d e
    due-on_sends (acquiring w shard) d e = omega arith
    due-on_sends (indexing w shard rd) d e = omega arith
    due-on_sends (initializing ctx shard) d e = omega arith
    due-on_sends (adding ctx shard idx) d e = omega arith
