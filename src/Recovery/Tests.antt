-- ===== src/Recovery/Tests.antt =====
-- The failure handler on a shard that fails again and again.
use dagstore.Shared.{◌≤◌, ◌≡◌, refl, none, List, [], ◌∷◌, lookup, insert, arith}
use dagstore.ShardKey.{Key}
use dagstore.Recovery.{Notice, failed, attempts_of, recover_immediately}
use dagstore.Recovery.Laws.{queued, recover_immediately_bounded}

abbrev a_key : Key
a_key = record { str = "a" }

abbrev three_failures : List Notice
three_failures = failed a_key none ∷ failed a_key none ∷ failed a_key none ∷ []

test_limit : attempts_of (recover_immediately 2 three_failures ([], [])).1 a_key ≡ 2
unfolding recover_immediately attempts_of lookup insert
test_limit = refl

recover_immediately_bounded_example :
    let (done, m) = recover_immediately 2 three_failures ([], []) in
    (attempts_of m a_key ≡ queued a_key done) × (queued a_key done ≤ 2)
recover_immediately_bounded_example =
    recover_immediately_bounded 2 (omega arith) a_key three_failures
