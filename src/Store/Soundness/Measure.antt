-- ===== src/Store/Soundness/Measure.antt =====
-- Who holds a reference to a shard, and what makes tasks, waiters and shards well formed.
use dagstore.Shared.{
  ℕ, ◌+◌, ◌≡◌, refl, Option, none, some, List, [], ◌∷◌, All, total, length, get_elem?,
  if◌then◌else◌, nat_beq, arith,
}
use Prim.Native.Nat.{max}
use dagstore.Store.Types.{
  Externals, Waiter, OpType, register, initialize, destroy, acquire, release, recover, Task,
  Accessor, ShardResult, Dispatch, Shard,
}
use dagstore.Store.Turn.{Spawn, acquire_async, initialize_shard, dispatch_result, dispatch_to}
use dagstore.Store.Async.{
  Send, to_external, to_completion, to_results, Goroutine, acquiring, indexing, initializing,
  adding, sending,
}
use dagstore.Store.System.Defs.{System}

abbrev pub same : ℕ → ℕ → ℕ
same r shard = if nat_beq r shard then 1 else 0

-- A queued release gives back one reference.
abbrev pub release_refs : ℕ → OpType → ℕ → ℕ
release_refs r release shard = same r shard
release_refs r op shard = 0

abbrev pub task_refs : ℕ → Task → ℕ
task_refs r t = release_refs r t.op t.shard

abbrev pub notify_refs : ℕ → Option ℕ → ℕ
notify_refs r none = 0
notify_refs r (some shard) = same r shard

abbrev pub accessor_refs : {X : Externals} → ℕ → Accessor X → ℕ
accessor_refs r a = same r a.shard

abbrev pub handed_refs : {X : Externals} → ℕ → Option (Accessor X) → ℕ
handed_refs r none = 0
handed_refs r (some a) = accessor_refs r a

-- A result on its way holds the reference of its accessor, which its waiter gives back if it is dead.
abbrev pub result_refs : {X : Externals} → ℕ → Dispatch X → ℕ
result_refs r d = max (notify_refs r d.w.notify_dead) (handed_refs r d.res.accessor)

abbrev pub spawn_refs : ℕ → Spawn → ℕ
spawn_refs r (acquire_async w shard) = same r shard
spawn_refs r (initialize_shard ctx shard) = 0

abbrev pub send_refs : {X : Externals} → ℕ → Send X → ℕ
send_refs r (to_external t) = task_refs r t
send_refs r (to_completion t) = task_refs r t
send_refs r (to_results d) = result_refs r d

abbrev pub goroutine_refs : {X : Externals} → ℕ → Goroutine X → ℕ
goroutine_refs r (acquiring w shard) = same r shard
goroutine_refs r (indexing w shard reader) = same r shard
goroutine_refs r (initializing ctx shard) = 0
goroutine_refs r (adding ctx shard idx) = 0
goroutine_refs r (sending l) = total (send_refs r) l

-- All who hold a reference to the shard: acquisitions under way, results not yet delivered, accessors
-- not yet closed, and releases not yet processed.
unfoldable pub holders : {X : Externals} → ℕ → System X → ℕ
holders r d =
    total (task_refs r) d.external_ch
    + total (task_refs r) d.internal_ch
    + total (task_refs r) d.completion_ch
    + total (result_refs r) d.dispatch_results_ch
    + total (goroutine_refs r) d.goroutines
    + total (accessor_refs r) d.accessors

abbrev pub refs_of : {X : Externals} → Option (Shard X) → ℕ
refs_of none = 0
refs_of (some s) = s.refs

abbrev pub refs_at : {X : Externals} → ℕ → List (Shard X) → ℕ
refs_at r heap = refs_of (get_elem? heap r)

-- The references of a shard, and those that its parked acquirers will get.
abbrev pub load : {X : Externals} → Option (Shard X) → ℕ
load none = 0
load (some s) = s.refs + length s.w_acquire

abbrev pub load_at : {X : Externals} → ℕ → List (Shard X) → ℕ
load_at r heap = load (get_elem? heap r)

-- A waiter whose death nobody has to be told of.
abbrev pub IsPlain : Waiter → Type 0
IsPlain w = w.notify_dead ≡ none

abbrev pub IsPlainOption : Option Waiter → Type 0
IsPlainOption none = Unit
IsPlainOption (some w) = IsPlain w

-- The operations whose case reads the waiter, or hands it to one that does, have one.
abbrev pub HasWaiter : OpType → Option Waiter → Type 0
HasWaiter register none = ⊥
HasWaiter initialize none = ⊥
HasWaiter destroy none = ⊥
HasWaiter acquire none = ⊥
HasWaiter recover none = ⊥
HasWaiter op w = Unit

pub record IsSoundTask (t : Task) : Type 0 where
  pub plain : IsPlainOption t.waiter
  pub waits : HasWaiter t.op t.waiter

pub record IsSoundShard {X : Externals} (s : Shard X) : Type 0 where
  pub plain_register : IsPlainOption s.w_register
  pub plain_recover : IsPlainOption s.w_recover
  pub plain_acquire : All IsPlain s.w_acquire

abbrev pub IsSoundSpawn : Spawn → Type 0
IsSoundSpawn (acquire_async w shard) = IsPlain w
IsSoundSpawn (initialize_shard ctx shard) = Unit

abbrev pub IsSoundSend : {X : Externals} → Send X → Type 0
IsSoundSend (to_external t) = IsSoundTask t
IsSoundSend (to_completion t) = IsSoundTask t
IsSoundSend (to_results d) = Unit

abbrev pub IsSoundGoroutine : {X : Externals} → Goroutine X → Type 0
IsSoundGoroutine (acquiring w shard) = IsPlain w
IsSoundGoroutine (indexing w shard reader) = IsPlain w
IsSoundGoroutine (sending l) = All IsSoundSend l
IsSoundGoroutine g = Unit

module _ {X : Externals} (r : ℕ) (res : ShardResult X) (bare : res.accessor ≡ none) where
  -- Results without an accessor, to plain waiters, hold nothing.
  pub total-dispatch_result :
      (ws : List Waiter) → All IsPlain ws → total (result_refs r) (dispatch_result res ws) ≡ 0
  total-dispatch_result [] p = refl
  total-dispatch_result (w ∷ ws) p = ground (arith, total-dispatch_result ws p.1)

  pub total-dispatch_to :
      (w : Option Waiter) → IsPlainOption w → total (result_refs r) (dispatch_to res w) ≡ 0
  total-dispatch_to none p = refl
  total-dispatch_to (some w) p = total-dispatch_result (w ∷ []) (p, tt)
