-- ===== src/Throttle/Laws.antt =====
-- throttle/throttler.go: the bound that a throttler keeps, and when it makes a call wait.
use dagstore.Shared.{ℕ, ◌+◌, ◌≤◌, ◌<◌, ◌≡◌, refl, List, [], ◌∷◌, arith}
use dagstore.Throttle.{Guarded, Step, claims, gives_up, returns, new_fixed, do_step, do_steps}

do_steps-tokens :
    (ss : List Step) (g : Guarded)
    → (do_steps ss g).tokens + (do_steps ss g).running ≡ g.tokens + g.running
unfolding do_steps
do_steps-tokens [] g = refl
do_steps-tokens (claims ∷ ss) g = ground (arith, do_steps-tokens ss (do_step claims g))
do_steps-tokens (gives_up ∷ ss) g = do_steps-tokens ss g
do_steps-tokens (returns ∷ ss) g = ground (arith, do_steps-tokens ss (do_step returns g))

-- However calls of `Do` start, are given up and return, never more actions run than the limit, and the
-- next call runs its action at once whenever fewer do.
pub do_steps_bounded :
    (max_concurrency : ℕ) (ss : List Step)
    → let g = do_steps ss (new_fixed max_concurrency) in
      (g.running ≤ max_concurrency)
      × (g.running < max_concurrency → (do_step claims g).running ≡ g.running + 1)
unfolding new_fixed do_step
do_steps_bounded max_concurrency ss =
    let tokens = do_steps-tokens ss (new_fixed max_concurrency) in
    (omega (arith, tokens), λ free. ground (arith, tokens))
