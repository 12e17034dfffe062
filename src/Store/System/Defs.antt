-- ===== src/Store/System/Defs.antt =====
-- dagstore.go: `DAGStore`, with the heap of shards and the goroutines under way.
use dagstore.Shared.{ℕ, String, Bool, Option, List}
use dagstore.ShardKey.{Key}
use dagstore.Throttle.{Throttler}
use dagstore.Mount.Registry.{Registry}
use dagstore.Store.Types.{Externals, Task, Accessor, Dispatch, Shard, PersistedShard, Trace}
use dagstore.Store.Async.{Goroutine}

pub record System (X : Externals) : Type 0 where
  -- Every shard object ever made, by its pointer, and the catalogue of those that are registered.
  pub heap : List (Shard X)
  pub shards : List (Key × ℕ)
  pub mounts : Registry X.Mount
  pub indices : X.Repo
  pub top_level_index : X.TopLevel
  pub store : List (String × PersistedShard)
  pub transients_dir : String
  pub throttle_ready_fetch : Throttler
  pub external_ch : List Task
  pub internal_ch : List Task
  pub completion_ch : List Task
  pub dispatch_results_ch : List (Dispatch X)
  pub dispatch_failures_ch : List (Dispatch X)
  pub failure_ch : Option ℕ
  -- Whether the application listens for traces, and those that it got.
  pub trace_ch : Bool
  pub traces : List Trace
  pub goroutines : List (Goroutine X)
  -- The accessors that callers hold.
  pub accessors : List (Accessor X)
