-- ===== src/Recovery/Laws.antt =====
-- handlers.go: the bound on the recoveries that the failure handler asks for.
use dagstore.Shared.{
  ℕ, ◌+◌, ◌%◌, ◌^◌, ◌≤◌, ◌<◌, ◌≡◌, refl, Bool, true, none, some, List, [], ◌∷◌, lookup,
  lookup-insert, lookup-erase, if◌then◌else◌, arith, ◌==◌,
}
use dagstore.ShardKey.{Key, key_eq}
use dagstore.Recovery.{
  Notice, failed, recovery_ended, Attempts, attempts_of, on_notice, recover_immediately,
}

module _ (key : Key) where
  -- The recoveries of the shard that were queued since it last recovered, in a record of what the
  -- handler did, the latest first.
  abbrev pub queued : List (Notice × Bool) → ℕ
  queued [] = 0
  queued ((failed k none, true) ∷ done) =
      let before = queued done in if k == key then before + 1 else before
  queued ((recovery_ended k none, called) ∷ done) =
      let before = queued done in if k == key then 0 else before
  queued ((n, called) ∷ done) = queued done

module _ (max_attempts : ℕ) (fits : max_attempts < 2 ^ 64) (key : Key) where
  Counted : List (Notice × Bool) × Attempts → Type 0
  Counted (done, m) = (attempts_of m key ≡ queued key done) × (queued key done ≤ max_attempts)

  on_notice-Counted :
      (n : Notice) (done : List (Notice × Bool)) (m : Attempts)
      → Counted (done, m)
      → Counted ((n, (on_notice max_attempts n m).1) ∷ done, (on_notice max_attempts n m).0)
  unfolding Counted on_notice attempts_of
  on_notice-Counted (failed k none) done m v =
      ground (arith, key_eq.beq_iff k key, lookup-insert k key ((attempts_of m k + 1) % 2 ^ 64) m)
  on_notice-Counted (failed k (some e)) done m v = ground arith
  on_notice-Counted (recovery_ended k none) done m v =
      ground (arith, key_eq.beq_iff k key, lookup-erase k key m)
  on_notice-Counted (recovery_ended k (some e)) done m v = ground arith

  recover_immediately-Counted :
      (ns : List Notice) (acc : List (Notice × Bool) × Attempts)
      → Counted acc
      → Counted (recover_immediately max_attempts ns acc)
  unfolding recover_immediately
  recover_immediately-Counted [] acc v = v
  recover_immediately-Counted (n ∷ ns) (done, m) v =
      recover_immediately-Counted ns _ (on_notice-Counted n done m v)

  -- Whatever failures and results the handler gets, if its limit is below 2 ^ 64, its count for a shard
  -- is the number of recoveries that it queued since the shard last recovered, and never exceeds the
  -- limit.
  pub recover_immediately_bounded :
      (ns : List Notice)
      → let (done, m) = recover_immediately max_attempts ns ([], []) in
        (attempts_of m key ≡ queued key done) × (queued key done ≤ max_attempts)
  unfolding Counted attempts_of lookup
  recover_immediately_bounded ns = recover_immediately-Counted ns ([], []) (refl, omega arith)
