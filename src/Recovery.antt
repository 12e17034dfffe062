-- ===== src/Recovery.antt =====
-- handlers.go: `RecoverImmediately`, the failure handler, as a step for each of the `select`'s cases.
pub mod Laws
mod Tests
use dagstore.Shared.{
  ℕ, ◌+◌, ◌%◌, ◌^◌, Bool, true, false, Option, none, some, List, [], ◌∷◌, lookup, insert, erase,
  if◌then◌else◌, leb,
}
use dagstore.Error.{Error}
use dagstore.ShardKey.{Key, key_eq}

-- A failure of a shard, with what `RecoverShard` returns if it is called for it, or the result of a
-- recovery.
pub data Notice : Type 0 where
  failed : Key → (queue_error : Option Error) → Notice
  recovery_ended : Key → (error : Option Error) → Notice

-- The `attempts` map, whose values are `uint64`.
abbrev pub Attempts : Type 0
Attempts = List (Key × ℕ)

-- The value of a Go map, zero for a key that it lacks.
unfoldable pub attempts_of : Attempts → Key → ℕ
attempts_of m key = elim (lookup key m) [ none ↦ 0 | some n ↦ n ]

module _ (max_attempts : ℕ) where
  -- The second part is whether `RecoverShard` was called.
  unfoldable pub on_notice : Notice → Attempts → Attempts × Bool
  unfolding attempts_of
  on_notice (failed key queue_error) m =
      let att = attempts_of m key in
      if leb max_attempts att then (m, false) else elim queue_error [
        | some e ↦ (m, true)
        | none ↦ (insert key ((att + 1) % 2 ^ 64) m, true)
      ]
  on_notice (recovery_ended key none) m = (erase key m, false)
  on_notice (recovery_ended key (some e)) m = (m, false)

  -- What the handler did on each notice, the latest first, and its map.
  unfoldable pub recover_immediately :
      List Notice → List (Notice × Bool) × Attempts → List (Notice × Bool) × Attempts
  unfolding on_notice
  recover_immediately [] acc = acc
  recover_immediately (n ∷ ns) (done, m) =
      let (m', called) = on_notice n m in recover_immediately ns ((n, called) ∷ done, m')
