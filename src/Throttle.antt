-- ===== src/Throttle.antt =====
-- throttle/throttler.go: which throttler, its limit, and the calls of `Do` on one of fixed limit.
pub mod Laws
mod Tests
use dagstore.Shared.{ℕ, suc, ◌+◌, ◌-◌, List, [], ◌∷◌, if◌then◌else◌, nat_beq}

pub data Throttler : Type 0 where
  noop : Throttler
  fixed : ℕ → Throttler

-- The tokens in the channel of a `throttler`, and the actions that run.
pub record Guarded : Type 0 where
  pub tokens : ℕ
  pub running : ℕ

-- A `Do` that is ready takes a token and runs its action, or its context ends first; an action that
-- runs returns, and its token goes back.
pub data Step : Type 0 where
  claims gives_up returns : Step

-- `Fixed`: the channel is filled with its limit of tokens.
unfoldable pub new_fixed : ℕ → Guarded
new_fixed max_concurrency = record { tokens = max_concurrency; running = 0 }

-- A `Do` that finds no token waits: nothing happens.
unfoldable pub do_step : Step → Guarded → Guarded
do_step claims g =
    if nat_beq g.tokens 0 then g else record { tokens = g.tokens - 1; running = g.running + 1 }
do_step gives_up g = g
do_step returns g =
    if nat_beq g.running 0 then g else record { tokens = g.tokens + 1; running = g.running - 1 }

unfoldable pub do_steps : List Step → Guarded → Guarded
unfolding do_step
do_steps [] g = g
do_steps (s ∷ ss) g = do_steps ss (do_step s g)
