-- ===== src/Mount/Upgrader/Tests.antt =====
-- Fetches of an upgraded mount at concrete inputs.
use dagstore.Shared.{
  ◌<>◌, ◌≤◌, ◌≡◌, ◌≢◌, refl, String, true, false, none, some, List, [], ◌∷◌, ◌++◌, get_elem?, All,
  length, total, arith, lookup, insert, erase, string_eq,
}
use dagstore.Error.{Result, ok, err, external, stat_failed, fetch_failed}
use dagstore.Throttle.{noop}
use dagstore.Mount.Upgrader.{Os, Upgrader}
use dagstore.Mount.Upgrader.Refetch.{Bytes, Answers, refetch, copying}
use dagstore.Mount.Upgrader.Fetch.{
  at_once, returned, Fetching, Event, calls, proceeds, refetches, deletes, new_fetching,
  refetch_step, fetching_run,
}
use dagstore.Mount.Upgrader.Fetch.Once.{busy, one_writer}
use dagstore.Mount.Upgrader.Fetch.Faithful.{fetch_reads_whole}
use dagstore.Mount.Upgrader.Fetch.Ending.{IsOwn}
use dagstore.Mount.Upgrader.Fetch.Returns.{every_call_returns}
use dagstore.Mount.Upgrader.Fetch.Failure.{failed_refetch_is_final}

abbrev unix : Os
unix = record { temp_dir = "/tmp"; join = λ a b. a <> "/" <> b; has_rel = λ a b. true }

abbrev upgraded : Upgrader String
upgraded = record {
  rootdir = "/t";
  underlying = "peer";
  throttler = noop;
  key = "a";
  passthrough = false;
  path_complete = "/t/a.complete";
  path_partial = "/t/a.partial";
  path = "";
  ready = false;
}

abbrev car : Bytes
car = 1 ∷ 2 ∷ []

abbrev fine : Answers
fine = record {
  stat = ok (record { exists = true; size = 2; ready = true });
  gave_up = none;
  source = ok car;
  broken = none;
  create = none;
  rename = none;
  removed = none;
  opened = none;
}

-- Two calls, of which the first fetches and the second waits for it.
abbrev two_calls : List Event
two_calls =
    calls
    ∷ calls
    ∷ proceeds 0 fine
    ∷ proceeds 1 fine
    ∷ proceeds 0 fine
    ∷ refetches 0 fine
    ∷ proceeds 1 fine
    ∷ refetches 0 fine
    ∷ refetches 0 fine
    ∷ refetches 0 fine
    ∷ refetches 0 fine
    ∷ proceeds 1 fine
    ∷ proceeds 1 fine
    ∷ []

test_second_call :
    get_elem? (fetching_run unix two_calls (new_fetching upgraded [])).calls 1
    ≡ some (returned (ok car))
unfolding fetching_run new_fetching refetch_step refetch lookup insert erase
test_second_call = refl

one_writer_example :
    let f = fetching_run unix two_calls (new_fetching upgraded []) in
    total busy (f.older ++ f.current ∷ []) ≤ 1
one_writer_example = one_writer unix upgraded [] two_calls

paths_differ : ◌≢◌ {A = String} "/t/a.partial" "/t/a.complete"
paths_differ = ground (arith, string_eq.beq_iff "/t/a.partial" "/t/a.complete")

fetch_reads_whole_example : ◌≡◌ {A = Bytes} car car
unfolding lookup
fetch_reads_whole_example =
    fetch_reads_whole car unix upgraded [] two_calls paths_differ refl tt
      (
        tt,
        (
          tt,
          (
            refl,
            (refl, (refl, (refl, (refl, (refl, (refl, (refl, (refl, (refl, (refl, tt)))))))))),
          ),
        ),
      )
      1 car test_second_call

-- The underlying mount cannot be reached once, and then it can.
abbrev broken : Answers
broken = record fine { stat = err (external "timeout") }

abbrev copying_once : Fetching String
copying_once = record {
  upgrader = upgraded;
  older = [];
  current = copying;
  once_err = none;
  files = ("/t/a.partial", []) ∷ [];
  calls = at_once 0 ∷ [];
}

abbrev recovery : List Event
recovery =
    proceeds 0 broken
    ∷ proceeds 0 broken
    ∷ deletes none
    ∷ calls
    ∷ proceeds 1 fine
    ∷ proceeds 1 fine
    ∷ proceeds 1 fine
    ∷ []

test_recovery :
    get_elem? (fetching_run unix recovery (refetch_step broken copying copying_once)).calls 1
    ≡ some (returned (err (fetch_failed (stat_failed (external "timeout")))))
unfolding fetching_run refetch_step refetch lookup insert erase
test_recovery = refl

refetch-broken : (refetch noop broken).1 ≡ some (stat_failed (external "timeout"))
unfolding refetch
refetch-broken = refl

failed_refetch_is_final_example :
    ◌≡◌ {A = Result Bytes}
      (err (fetch_failed (stat_failed (external "timeout"))))
      (err (fetch_failed (stat_failed (external "timeout"))))
failed_refetch_is_final_example =
    failed_refetch_is_final (stat_failed (external "timeout")) unix broken copying_once recovery
      refl refl refl tt (tt, tt) refetch-broken 1
      (err (fetch_failed (stat_failed (external "timeout")))) test_recovery

-- One call fetches and another waits for it.
abbrev fetching_and_waiting : List Event
fetching_and_waiting = calls ∷ calls ∷ proceeds 0 fine ∷ proceeds 0 fine ∷ proceeds 1 fine ∷ []

test_waits :
    get_elem? (fetching_run unix fetching_and_waiting (new_fetching upgraded [])).calls 1
    ≡ some (at_once 0)
unfolding fetching_run new_fetching refetch_step lookup
test_waits = refl

every_call_returns_example :
    let f = fetching_run unix fetching_and_waiting (new_fetching upgraded []) in
    (more : List Event) × (r : Result Bytes) × (length more ≤ 9)
    × All (IsOwn 1 broken) more
    × (get_elem? (fetching_run unix more f).calls 1 ≡ some (returned r))
every_call_returns_example =
    every_call_returns unix upgraded [] fetching_and_waiting 1 (at_once 0) broken test_waits
