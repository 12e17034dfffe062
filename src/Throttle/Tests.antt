-- ===== src/Throttle/Tests.antt =====
-- Three calls on a throttler of limit two.
use dagstore.Shared.{◌+◌, ◌≤◌, ◌<◌, ◌≡◌, refl, List, [], ◌∷◌}
use dagstore.Throttle.{Step, claims, returns, new_fixed, do_step, do_steps}
use dagstore.Throttle.Laws.{do_steps_bounded}

abbrev three_calls : List Step
three_calls = claims ∷ claims ∷ claims ∷ returns ∷ []

test_one_left : (do_steps three_calls (new_fixed 2)).running ≡ 1
unfolding do_steps new_fixed
test_one_left = refl

do_steps_bounded_example :
    let g = do_steps three_calls (new_fixed 2) in
    (g.running ≤ 2) × (g.running < 2 → (do_step claims g).running ≡ g.running + 1)
do_steps_bounded_example = do_steps_bounded 2 three_calls
