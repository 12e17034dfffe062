-- ===== src/Store/GcCalls/Tests.antt =====
-- Calls of `GC` at concrete inputs.
use dagstore.Shared.{◌≡◌, refl, [], ◌∷◌}
use dagstore.Store.GcCalls.{
  GcCalls, waiting, answered, idle, collecting, begins, requests, cancels, collects, hands_over,
  processes, on_requests, gc_step, gc_run,
}
use dagstore.Store.GcCalls.Blocking.{cancelled_gc_blocks}

abbrev no_calls : GcCalls
no_calls = record { calls = []; gc_ch = []; loop = idle }

test_answered :
    (gc_run (begins ∷ requests 0 ∷ collects ∷ hands_over ∷ []) no_calls).calls ≡ answered ∷ []
unfolding gc_run gc_step on_requests
test_answered = refl

abbrev one_collection : GcCalls
one_collection = record { calls = waiting ∷ []; gc_ch = []; loop = collecting 0 }

test_collection : gc_run (begins ∷ requests 0 ∷ collects ∷ []) no_calls ≡ one_collection
unfolding gc_run gc_step on_requests
test_collection = refl

cancelled_gc_blocks_example :
    (gc_run
      (begins ∷ requests 1 ∷ hands_over ∷ processes ∷ collects ∷ [])
      (gc_step (cancels 0) one_collection)).loop
    ≡ collecting 0
cancelled_gc_blocks_example =
    cancelled_gc_blocks 0 (begins ∷ requests 1 ∷ hands_over ∷ processes ∷ collects ∷ [])
      one_collection refl refl (tt, (tt, (tt, (tt, (tt, tt)))))
