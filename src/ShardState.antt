-- ===== src/ShardState.antt =====
-- shard_state.go: the states of a shard, their byte values and names.
use dagstore.Shared.{ℕ, String}

pub data ShardState : Type 0 where
  new initializing available serving recovering errored unknown : ShardState

unfoldable pub to_byte : ShardState → ℕ
to_byte new = 0
to_byte initializing = 1
to_byte available = 2
to_byte serving = 3
to_byte recovering = 0x80
to_byte errored = 0xf0
to_byte unknown = 0xff

unfoldable pub to_string : ShardState → String
to_string new = "ShardStateNew"
to_string initializing = "ShardStateInitializing"
to_string available = "ShardStateAvailable"
to_string serving = "ShardStateServing"
to_string recovering = "ShardStateRecovering"
to_string errored = "ShardStateErrored"
to_string unknown = "ShardStateUnknown"
