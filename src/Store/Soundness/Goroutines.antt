-- ===== src/Store/Soundness/Goroutines.antt =====
-- The goroutines that the event loop starts keep the invariant.
use dagstore.Shared.{
  total-set, All-set, ℕ, String, sym, ◌≤◌, ◌≡◌, some, List, All, total, get_elem?, set, arith,
  All-get_elem?,
}
use mathlib.Core.Path.{subst}
use dagstore.Error.{Error}
use dagstore.ShardKey.{Key}
use dagstore.Store.Types.{Externals, Waiter, Shard, PersistedShard}
use dagstore.Store.Async.{Goroutine, refused}
use dagstore.Store.System.Defs.{System}
use dagstore.Store.System.Steps.{goes_on}
use dagstore.Store.Soundness.Measure.{
  send_refs, goroutine_refs, holders, IsPlain, IsPlainOption, IsSoundSend, IsSoundGoroutine,
  IsSoundShard,
}
use dagstore.Store.Soundness.Invariant.{Inv, refs_at-set, load_at-set}

-- A refusal goes to a plain waiter, and holds nothing.
module _ (X : Externals) (k : Key) (e : Error) (w : Waiter) (p : IsPlain w) where
  pub refused-IsSound : All (IsSoundSend {X = X}) (refused k e w)
  refused-IsSound = ground arith

  pub total-refused : (r : ℕ) → total (send_refs {X = X} r) (refused k e w) ≡ 0
  total-refused r = ground arith

module _ {X : Externals} {n : ℕ} where
  -- The goroutine at an index goes on with at most the references that it held.
  pub goes_on-Inv :
      (i : ℕ) (g g' : Goroutine X) (d : System X)
      → get_elem? d.goroutines i ≡ some g
      → ((r : ℕ) → goroutine_refs r g' ≤ goroutine_refs r g)
      → IsSoundGoroutine g'
      → Inv n d
      → Inv n (goes_on i g' d)
  unfolding holders
  goes_on-Inv i g g' d at_i fewer sound v = record {
    held = λ r.
        omega (arith, v.held r, fewer r, total-set (goroutine_refs r) d.goroutines i g' g at_i);
    single = v.single;
    orderly = record {
      loaded = v.orderly.loaded;
      external = v.orderly.external;
      internal = v.orderly.internal;
      completion = v.orderly.completion;
      goroutines = All-set IsSoundGoroutine d.goroutines i g' v.orderly.goroutines sound;
      heap = v.orderly.heap;
    };
  }

  -- A write to a shard that leaves its references and waiters alone.
  pub rewritten-Inv :
      (shard : ℕ) (s s' : Shard X) (d : System X)
      → get_elem? d.heap shard ≡ some s
      → s'.refs ≡ s.refs
      → s'.w_acquire ≡ s.w_acquire
      → (IsSoundShard s → IsSoundShard s')
      → Inv n d
      → Inv n (record d { heap = set d.heap shard s' })
  unfolding holders
  rewritten-Inv shard s s' d at_shard refs waiters sound v = record {
    held = λ r. omega (arith, v.held r, refs_at-set d.heap shard s s' at_shard refs r);
    single = v.single;
    orderly = record {
      loaded = λ r.
          load_at-set d.heap shard s s' at_shard n (ground (arith, v.orderly.loaded shard)) r
            (v.orderly.loaded r);
      external = v.orderly.external;
      internal = v.orderly.internal;
      completion = v.orderly.completion;
      goroutines = v.orderly.goroutines;
      heap =
          All-set IsSoundShard d.heap shard s' v.orderly.heap
            (sound (All-get_elem? IsSoundShard d.heap shard s v.orderly.heap at_shard));
    };
  }

  -- Nor does the invariant see the records in the datastore.
  pub stored-Inv :
      (store : List (String × PersistedShard)) (d : System X)
      → Inv n d
      → Inv n (record d { store = store })
  unfolding holders
  stored-Inv store d v = record {
    held = v.held;
    single = v.single;
    orderly = record {
      loaded = v.orderly.loaded;
      external = v.orderly.external;
      internal = v.orderly.internal;
      completion = v.orderly.completion;
      goroutines = v.orderly.goroutines;
      heap = v.orderly.heap;
    };
  }

-- Soundness of a shard with the same waiters.
pub IsSoundShard-like :
    {X : Externals} {s s' : Shard X}
    → s'.w_register ≡ s.w_register
    → s'.w_recover ≡ s.w_recover
    → s'.w_acquire ≡ s.w_acquire
    → IsSoundShard s
    → IsSoundShard s'
IsSoundShard-like e f g h = record {
  plain_register = subst IsPlainOption (sym e) h.plain_register;
  plain_recover = subst IsPlainOption (sym f) h.plain_recover;
  plain_acquire = subst (All IsPlain) (sym g) h.plain_acquire;
}
