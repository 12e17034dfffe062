-- ===== src/Store/Soundness/Delivery.antt =====
-- The dispatchers keep the invariant: a result that is delivered leaves its reference with the accessor,
-- and one that is not leaves it with a release.
use dagstore.Shared.{
  ℕ, ◌+◌, ◌≤◌, ◌≡◌, ap, Bool, true, false, Option, none, some, List, [], ◌∷◌, length, total, arith,
  All-append, total-append,
}
use dagstore.Store.Types.{Externals, Accessor, Dispatch, release}
use dagstore.Store.Async.{task_of}
use dagstore.Store.System.Defs.{System}
use dagstore.Store.System.Steps.{hand_over, notify_dead, deliver, deliver_failure}
use dagstore.Store.Soundness.Measure.{
  task_refs, result_refs, accessor_refs, handed_refs, notify_refs, holders, refs_at, IsSoundTask,
}
use dagstore.Store.Soundness.Invariant.{IsOrderly, Inv}

module _ {X : Externals} {n : ℕ} (d : System X) (o : IsOrderly n d)
    (single : length d.internal_ch ≤ 1) where
  notify_dead-Inv :
      (shard : Option ℕ)
      → ((r : ℕ) → holders r d + notify_refs r shard ≤ refs_at r d.heap)
      → Inv n (notify_dead shard d)
  unfolding holders
  notify_dead-Inv none held = record {
    held = λ r. omega (arith, held r);
    single = single;
    orderly = o;
  }
  notify_dead-Inv (some shard) held = record {
    held = λ r. omega (
      arith,
      held r,
      total-append (task_refs r) d.completion_ch (task_of release shard none ∷ []),
    );
    single = single;
    orderly = record {
      loaded = o.loaded;
      external = o.external;
      internal = o.internal;
      completion =
          All-append IsSoundTask d.completion_ch _ o.completion
            (record { plain = tt; waits = tt }, tt);
      goroutines = o.goroutines;
      heap = o.heap;
    };
  }

  hand_over-Inv :
      (a : Option (Accessor X))
      → ((r : ℕ) → holders r d + handed_refs r a ≤ refs_at r d.heap)
      → Inv n (hand_over a d)
  unfolding holders
  hand_over-Inv none held = record {
    held = λ r. omega (arith, held r);
    single = single;
    orderly = o;
  }
  hand_over-Inv (some a) held = record {
    held = λ r. omega (arith, held r, total-append (accessor_refs r) d.accessors (a ∷ []));
    single = single;
    orderly = record {
      loaded = o.loaded;
      external = o.external;
      internal = o.internal;
      completion = o.completion;
      goroutines = o.goroutines;
      heap = o.heap;
    };
  }

module _ {X : Externals} {n : ℕ} (d : System X) where
  taken-IsOrderly :
      (rest : List (Dispatch X))
      → IsOrderly n d
      → IsOrderly n (record d { dispatch_results_ch = rest })
  taken-IsOrderly rest o = record {
    loaded = o.loaded;
    external = o.external;
    internal = o.internal;
    completion = o.completion;
    goroutines = o.goroutines;
    heap = o.heap;
  }

  pub deliver-Inv :
      (dead : Bool) (l : List (Dispatch X))
      → d.dispatch_results_ch ≡ l
      → Inv n d
      → Inv n (deliver dead l d)
  unfolding deliver holders
  deliver-Inv dead [] e v = v
  deliver-Inv true (x ∷ rest) e v =
      notify_dead-Inv _ (taken-IsOrderly rest v.orderly) v.single x.w.notify_dead
        λ r. omega (arith, v.held r, ap (total (result_refs r)) e)
  deliver-Inv false (x ∷ rest) e v =
      hand_over-Inv _ (taken-IsOrderly rest v.orderly) v.single x.res.accessor
        λ r. omega (arith, v.held r, ap (total (result_refs r)) e)

  pub deliver_failure-Inv : (l : List (Dispatch X)) → Inv n d → Inv n (deliver_failure l d)
  unfolding deliver_failure holders
  deliver_failure-Inv [] v = v
  deliver_failure-Inv (x ∷ rest) v = record {
    held = v.held;
    single = v.single;
    orderly = record {
      loaded = v.orderly.loaded;
      external = v.orderly.external;
      internal = v.orderly.internal;
      completion = v.orderly.completion;
      goroutines = v.orderly.goroutines;
      heap = v.orderly.heap;
    };
  }
