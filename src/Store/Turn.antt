-- ===== src/Store/Turn.antt =====
-- dagstore_control.go: what one round of the event loop leaves behind, and how it answers waiters.
use dagstore.Shared.{ℕ, ◌%◌, ◌^◌, Bool, true, false, Option, none, some, List, [], ◌∷◌}
use dagstore.Error.{Error, Result, ok, err}
use dagstore.ShardState.{ShardState, new, available, serving, errored}
use dagstore.Index.Repo.{Stat}
use dagstore.Store.Types.{Externals, Context, Waiter, Task, ShardResult, Dispatch, Shard}

-- A goroutine that the event loop starts, before its first step.
pub data Spawn : Type 0 where
  acquire_async : Waiter → ℕ → Spawn
  initialize_shard : Context → ℕ → Spawn

-- What a round does: the shard and the index repository after it, the task that it puts on `internalCh`,
-- the results and the failures that it dispatches, and the goroutines that it starts.
pub record Turn (X : Externals) : Type 0 where
  pub shard : Shard X
  pub indices : X.Repo
  pub staged : List Task
  pub results : List (Dispatch X)
  pub failures : List (Dispatch X)
  pub spawned : List Spawn
  -- Whether the shard leaves the catalogue.
  pub removed : Bool

abbrev pub is_new : ShardState → Bool
is_new new = true
is_new _ = false

abbrev pub is_errored : ShardState → Bool
is_errored errored = true
is_errored _ = false

abbrev pub is_serving : ShardState → Bool
is_serving serving = true
is_serving _ = false

abbrev pub is_available : ShardState → Bool
is_available available = true
is_available _ = false

abbrev pub u32 : ℕ → ℕ
u32 n = n % 2 ^ 32

-- An event of the shard with no task to follow and nobody to tell.
abbrev pub quiet : {X : Externals} → Shard X → X.Repo → Turn X
quiet s repo = record {
  shard = s;
  indices = repo;
  staged = [];
  results = [];
  failures = [];
  spawned = [];
  removed = false;
}

-- dispatcher.go: a waiter with no channel is skipped.
abbrev pub dispatch_result : {X : Externals} → ShardResult X → List Waiter → List (Dispatch X)
dispatch_result res [] = []
dispatch_result res (w ∷ ws) =
    let rest = dispatch_result res ws in
    elim w.out_ch [ none ↦ rest | some _ ↦ record { w = w; res = res } ∷ rest ]

-- Tell a waiter that may be nil; the caller has tested it.
abbrev pub dispatch_to : {X : Externals} → ShardResult X → Option Waiter → List (Dispatch X)
dispatch_to res none = []
dispatch_to res (some w) = dispatch_result res (w ∷ [])

abbrev pub failed_with : {X : Externals} → Shard X → Error → ShardResult X
failed_with s e = record { key = s.key; error = some e; accessor = none }

abbrev pub succeeded : {X : Externals} → Shard X → ShardResult X
succeeded s = record { key = s.key; error = none; accessor = none }

-- Whether `StatFullIndex` succeeds and finds an index.
abbrev pub index_exists : Result Stat → Bool
index_exists (ok stat) = stat.exists
index_exists (err e) = false
