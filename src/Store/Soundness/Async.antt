-- ===== src/Store/Soundness/Async.antt =====
-- What each goroutine goes on with holds at most what it held.
use dagstore.Shared.{ℕ, ◌≤◌, ◌≡◌, refl, Option, none, some, arith}
use dagstore.Error.{Error, Result, ok, err}
use dagstore.ShardKey.{Key}
use dagstore.Store.Types.{Externals, Waiter, Context}
use dagstore.Store.Async.{acquire_fetched, acquire_indexed, initialize_fetched, initialize_added}
use dagstore.Store.Soundness.Measure.{same, goroutine_refs, IsPlain, IsSoundGoroutine}
use dagstore.Store.Soundness.Goroutines.{refused-IsSound, total-refused}

module _ (X : Externals) (w : Waiter) (shard : ℕ) (k : Key) (p : IsPlain w) where
  pub acquire_fetched_refs :
      (reader : Result X.Reader) (ctx_err : Option Error) (r : ℕ)
      → goroutine_refs r (acquire_fetched {X = X} w shard k reader ctx_err) ≤ same r shard
  unfolding acquire_fetched
  acquire_fetched_refs reader (some e) r = omega (arith, total-refused X k e w p r)
  acquire_fetched_refs (err e) none r = omega (arith, total-refused X k e w p r)
  acquire_fetched_refs (ok rd) none r = omega arith

  pub acquire_fetched-IsSound :
      (reader : Result X.Reader) (ctx_err : Option Error)
      → IsSoundGoroutine (acquire_fetched {X = X} w shard k reader ctx_err)
  unfolding acquire_fetched
  acquire_fetched-IsSound reader (some e) =
      (record { plain = tt; waits = tt }, refused-IsSound X k e w p)
  acquire_fetched-IsSound (err e) none = (
    record { plain = tt; waits = tt },
    (record { plain = tt; waits = tt }, refused-IsSound X k e w p),
  )
  acquire_fetched-IsSound (ok rd) none = p

  pub acquire_indexed_refs :
      (reader : X.Reader) (idx : Result X.Index) (ctx_err : Option Error) (r : ℕ)
      → goroutine_refs r (acquire_indexed {X = X} w shard k reader idx ctx_err) ≤ same r shard
  unfolding acquire_indexed
  acquire_indexed_refs reader idx (some e) r = omega (arith, total-refused X k e w p r)
  acquire_indexed_refs reader (err e) none r = omega (arith, total-refused X k e w p r)
  acquire_indexed_refs reader (ok idx) none r = ground arith

  pub acquire_indexed-IsSound :
      (reader : X.Reader) (idx : Result X.Index) (ctx_err : Option Error)
      → IsSoundGoroutine (acquire_indexed {X = X} w shard k reader idx ctx_err)
  unfolding acquire_indexed
  acquire_indexed-IsSound reader idx (some e) =
      (record { plain = tt; waits = tt }, refused-IsSound X k e w p)
  acquire_indexed-IsSound reader (err e) none = (
    record { plain = tt; waits = tt },
    (record { plain = tt; waits = tt }, refused-IsSound X k e w p),
  )
  acquire_indexed-IsSound reader (ok idx) none = ground arith

module _ (X : Externals) where
  pub initialize_fetched_refs :
      (ctx : Context) (shard : ℕ) (reader : Result X.Reader) (idx : Result X.Index) (r : ℕ)
      → goroutine_refs r (initialize_fetched {X = X} ctx shard reader idx) ≡ 0
  unfolding initialize_fetched
  initialize_fetched_refs ctx shard (err e) idx r = refl
  initialize_fetched_refs ctx shard (ok rd) (err e) r = refl
  initialize_fetched_refs ctx shard (ok rd) (ok idx) r = refl

  pub initialize_fetched-IsSound :
      (ctx : Context) (shard : ℕ) (reader : Result X.Reader) (idx : Result X.Index)
      → IsSoundGoroutine (initialize_fetched {X = X} ctx shard reader idx)
  unfolding initialize_fetched
  initialize_fetched-IsSound ctx shard (err e) idx = (record { plain = tt; waits = tt }, tt)
  initialize_fetched-IsSound ctx shard (ok rd) (err e) = (record { plain = tt; waits = tt }, tt)
  initialize_fetched-IsSound ctx shard (ok rd) (ok idx) = tt

  pub initialize_added_refs :
      (shard : ℕ) (added : Option Error) (r : ℕ)
      → goroutine_refs r (initialize_added {X = X} shard added) ≡ 0
  unfolding initialize_added
  initialize_added_refs shard (some e) r = refl
  initialize_added_refs shard none r = refl

  pub initialize_added-IsSound :
      (shard : ℕ) (added : Option Error) → IsSoundGoroutine (initialize_added {X = X} shard added)
  unfolding initialize_added
  initialize_added-IsSound shard (some e) = (record { plain = tt; waits = tt }, tt)
  initialize_added-IsSound shard none = (record { plain = tt; waits = tt }, tt)
