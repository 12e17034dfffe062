-- ===== src/Store/Soundness/Moves.antt =====
-- Each step of a goroutine keeps the invariant.
use dagstore.Shared.{
  total-set, All-set, ℕ, ◌+◌, ◌≡◌, refl, inl, inr, Option, some, List, [], ◌∷◌, total, get_elem?,
  set, arith, All-append, All-get_elem?, total-append, Option-cases,
}
use dagstore.Error.{Error, Result}
use dagstore.Store.Types.{Externals}
use dagstore.Store.Async.{
  Send, to_external, to_completion, to_results, Goroutine, acquiring, indexing, initializing,
  adding, sending,
}
use dagstore.Store.System.Defs.{System}
use dagstore.Store.System.Steps.{
  Transient, with_transient, sent, goes_on, at, on_fetches, on_indexes, on_generates, on_adds,
  on_sends,
}
use dagstore.Store.Soundness.Measure.{
  task_refs, send_refs, result_refs, goroutine_refs, holders, IsSoundTask, IsSoundGoroutine,
}
use dagstore.Store.Soundness.Invariant.{Inv}
use dagstore.Store.Soundness.Goroutines.{goes_on-Inv, rewritten-Inv, IsSoundShard-like}
use dagstore.Store.Soundness.Async.{
  acquire_fetched_refs, acquire_fetched-IsSound, acquire_indexed_refs, acquire_indexed-IsSound,
  initialize_fetched_refs, initialize_fetched-IsSound, initialize_added_refs,
  initialize_added-IsSound,
}

moved :
    {X : Externals} (i : ℕ) (x : Send X) (rest : List (Send X)) (d : System X)
    → get_elem? d.goroutines i ≡ some (sending (x ∷ rest))
    → (r : ℕ)
    → total (goroutine_refs r) (set d.goroutines i (sending rest)) + send_refs r x
      ≡ total (goroutine_refs r) d.goroutines
moved i x rest d at_i r =
    omega
      (arith, total-set (goroutine_refs r) d.goroutines i (sending rest) (sending (x ∷ rest)) at_i)

module _ {X : Externals} {n : ℕ} (i : ℕ) where
  -- A step that keeps the invariant at each goroutine keeps it.
  pub at-Inv :
      (f : Goroutine X → System X → System X) (d : System X)
      → ((g : Goroutine X) → get_elem? d.goroutines i ≡ some g → IsSoundGoroutine g → Inv n (f g d))
      → Inv n d
      → Inv n (at f i d)
  at-Inv f d keeps v = elim (Option-cases (get_elem? d.goroutines i)) [
    | inl e ↦ rw (e, at) v
    | inr (g, e) ↦
        rw (e, at)
          (keeps g e (All-get_elem? IsSoundGoroutine d.goroutines i g v.orderly.goroutines e))
  ]

  pub on_fetches-Inv :
      (t : Transient) (reader : Result X.Reader) (ctx_err : Option Error) (g : Goroutine X)
      (d : System X)
      → get_elem? d.goroutines i ≡ some g
      → IsSoundGoroutine g
      → Inv n d
      → Inv n (on_fetches i t reader ctx_err g d)
  unfolding on_fetches
  on_fetches-Inv t reader ctx_err (acquiring w shard) d at_i p v =
      elim (Option-cases (get_elem? d.heap shard)) [
        | inl e ↦ rw (e, on_fetches) v
        | inr (s, e) ↦
            rw (e, on_fetches)
              (goes_on-Inv i (acquiring w shard) _ _ at_i
                (acquire_fetched_refs X w shard s.key p reader ctx_err)
                (acquire_fetched-IsSound X w shard s.key p reader ctx_err)
                (rewritten-Inv shard s (with_transient t s) d e refl refl
                  (IsSoundShard-like refl refl refl) v))
      ]
  on_fetches-Inv t reader ctx_err (indexing w shard rd) d at_i p v = v
  on_fetches-Inv t reader ctx_err (initializing ctx shard) d at_i p v = v
  on_fetches-Inv t reader ctx_err (adding ctx shard idx) d at_i p v = v
  on_fetches-Inv t reader ctx_err (sending l) d at_i p v = v

  pub on_indexes-Inv :
      (ctx_err : Option Error) (g : Goroutine X) (d : System X)
      → get_elem? d.goroutines i ≡ some g
      → IsSoundGoroutine g
      → Inv n d
      → Inv n (on_indexes i ctx_err g d)
  unfolding on_indexes
  on_indexes-Inv ctx_err (indexing w shard rd) d at_i p v =
      elim (Option-cases (get_elem? d.heap shard)) [
        | inl e ↦ rw (e, on_indexes) v
        | inr (s, e) ↦
            rw (e, on_indexes)
              (goes_on-Inv i (indexing w shard rd) _ d at_i
                (acquire_indexed_refs X w shard s.key p rd _ ctx_err)
                (acquire_indexed-IsSound X w shard s.key p rd _ ctx_err) v)
      ]
  on_indexes-Inv ctx_err (acquiring w shard) d at_i p v = v
  on_indexes-Inv ctx_err (initializing ctx shard) d at_i p v = v
  on_indexes-Inv ctx_err (adding ctx shard idx) d at_i p v = v
  on_indexes-Inv ctx_err (sending l) d at_i p v = v

  pub on_generates-Inv :
      (t : Transient) (reader : Result X.Reader) (idx : Result X.Index) (g : Goroutine X)
      (d : System X)
      → get_elem? d.goroutines i ≡ some g
      → Inv n d
      → Inv n (on_generates i t reader idx g d)
  unfolding on_generates
  on_generates-Inv t reader idx (initializing ctx shard) d at_i v =
      elim (Option-cases (get_elem? d.heap shard)) [
        | inl e ↦ rw (e, on_generates) v
        | inr (s, e) ↦
            rw (e, on_generates)
              (goes_on-Inv i (initializing ctx shard) _ _ at_i
                (λ r. omega (arith, initialize_fetched_refs X ctx shard reader idx r))
                (initialize_fetched-IsSound X ctx shard reader idx)
                (rewritten-Inv shard s (with_transient t s) d e refl refl
                  (IsSoundShard-like refl refl refl) v))
      ]
  on_generates-Inv t reader idx (acquiring w shard) d at_i v = v
  on_generates-Inv t reader idx (indexing w shard rd) d at_i v = v
  on_generates-Inv t reader idx (adding ctx shard i2) d at_i v = v
  on_generates-Inv t reader idx (sending l) d at_i v = v

  -- The repositories of indices are no part of the invariant.
  indices_Inv :
      (repo : X.Repo) (top : X.TopLevel) (d : System X)
      → Inv n d
      → Inv n (record d { indices = repo; top_level_index = top })
  unfolding holders
  indices_Inv repo top d v = record {
    held = v.held;
    single = v.single;
    orderly = record {
      loaded = v.orderly.loaded;
      external = v.orderly.external;
      internal = v.orderly.internal;
      completion = v.orderly.completion;
      goroutines = v.orderly.goroutines;
      heap = v.orderly.heap;
    };
  }

  pub on_adds-Inv :
      (g : Goroutine X) (d : System X)
      → get_elem? d.goroutines i ≡ some g
      → Inv n d
      → Inv n (on_adds i g d)
  unfolding on_adds
  on_adds-Inv (adding ctx shard idx) d at_i v = elim (Option-cases (get_elem? d.heap shard)) [
    | inl e ↦ rw (e, on_adds) v
    | inr (s, e) ↦
        rw (e, on_adds)
          (goes_on-Inv i (adding ctx shard idx) _ _ at_i
            (λ r. omega (
              arith,
              initialize_added_refs X shard (X.repo.add_full_index d.indices s.key idx).1 r,
            ))
            (initialize_added-IsSound X shard _) (indices_Inv _ _ d v))
  ]
  on_adds-Inv (acquiring w shard) d at_i v = v
  on_adds-Inv (indexing w shard rd) d at_i v = v
  on_adds-Inv (initializing ctx shard) d at_i v = v
  on_adds-Inv (sending l) d at_i v = v

  -- A send moves what it holds from the goroutine to a queue.
  sent-Inv :
      (x : Send X) (rest : List (Send X)) (d : System X)
      → get_elem? d.goroutines i ≡ some (sending (x ∷ rest))
      → IsSoundGoroutine (sending (x ∷ rest))
      → Inv n d
      → Inv n (goes_on i (sending rest) (sent x d))
  unfolding holders
  sent-Inv (to_external t) rest d at_i p v = record {
    held = λ r. omega (
      arith,
      v.held r,
      moved i (to_external t) rest d at_i r,
      total-append (task_refs r) d.external_ch (t ∷ []),
    );
    single = v.single;
    orderly = record {
      loaded = v.orderly.loaded;
      external = All-append IsSoundTask d.external_ch (t ∷ []) v.orderly.external (p.0, tt);
      internal = v.orderly.internal;
      completion = v.orderly.completion;
      goroutines = All-set IsSoundGoroutine d.goroutines i (sending rest) v.orderly.goroutines p.1;
      heap = v.orderly.heap;
    };
  }
  sent-Inv (to_completion t) rest d at_i p v = record {
    held = λ r. omega (
      arith,
      v.held r,
      moved i (to_completion t) rest d at_i r,
      total-append (task_refs r) d.completion_ch (t ∷ []),
    );
    single = v.single;
    orderly = record {
      loaded = v.orderly.loaded;
      external = v.orderly.external;
      internal = v.orderly.internal;
      completion = All-append IsSoundTask d.completion_ch (t ∷ []) v.orderly.completion (p.0, tt);
      goroutines = All-set IsSoundGoroutine d.goroutines i (sending rest) v.orderly.goroutines p.1;
      heap = v.orderly.heap;
    };
  }
  sent-Inv (to_results x) rest d at_i p v = record {
    held = λ r. omega (
      arith,
      v.held r,
      moved i (to_results x) rest d at_i r,
      total-append (result_refs r) d.dispatch_results_ch (x ∷ []),
    );
    single = v.single;
    orderly = record {
      loaded = v.orderly.loaded;
      external = v.orderly.external;
      internal = v.orderly.internal;
      completion = v.orderly.completion;
      goroutines = All-set IsSoundGoroutine d.goroutines i (sending rest) v.orderly.goroutines p.1;
      heap = v.orderly.heap;
    };
  }

  pub on_sends-Inv :
      (g : Goroutine X) (d : System X)
      → get_elem? d.goroutines i ≡ some g
      → IsSoundGoroutine g
      → Inv n d
      → Inv n (on_sends i g d)
  unfolding on_sends
  on_sends-Inv (sending []) d at_i p v = v
  on_sends-Inv (sending (x ∷ rest)) d at_i p v = sent-Inv x rest d at_i p v
  on_sends-Inv (acquiring w shard) d at_i p v = v
  on_sends-Inv (indexing w shard rd) d at_i p v = v
  on_sends-Inv (initializing ctx shard) d at_i p v = v
  on_sends-Inv (adding ctx shard idx) d at_i p v = v
