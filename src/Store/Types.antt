-- ===== src/Store/Types.antt =====
-- shard.go, dagstore.go, accessor.go, dispatcher.go: the data of the DAG store. A pointer to a shard is
-- its index in the heap of `System`, so a task keeps naming a shard that the catalogue has dropped.
use dagstore.Shared.{ℕ, String, Bool, Option, List}
use dagstore.Error.{Error, Result}
use dagstore.ShardKey.{Key}
use dagstore.ShardState.{ShardState}
use dagstore.Mount.Interface.{MountOps, Url}
use dagstore.Mount.Upgrader.{Upgrader, Os}
use dagstore.Index.Repo.{FullIndexRepo}

-- What the DAG store is configured with, and the libraries that it calls.
pub record Externals : Type 1 where
  pub Mount : Type 0
  pub Reader : Type 0
  pub Index : Type 0
  pub Repo : Type 0
  pub mount : MountOps Mount
  pub os : Os
  pub repo : FullIndexRepo Repo Index
  -- `index.Inverted`: its state, and what it returns for an addition.
  pub TopLevel : Type 0
  pub add_multihashes_for_shard : TopLevel → List String → Key → TopLevel × Option Error
  pub get_shards_for_multihash : TopLevel → String → Result (List Key)
  -- The multihashes of an index that is a `carindex.IterableIndex`.
  pub iterable : Index → Option (List String)
  -- `url.Parse`, `fmt`'s `%d`, and `ds.NewKey`.
  pub parse_url : String → Result Url
  pub decimal : ℕ → String
  pub new_key : String → String

-- `context.Context`: the background, the one that `Close` cancels, or a caller's.
pub data Context : Type 0 where
  background : Context
  of_store : Context
  caller : ℕ → Context

-- `notify_dead` is the shard that the closure of `acquireAsync` releases.
pub record Waiter : Type 0 where
  pub ctx : Context
  pub out_ch : Option ℕ
  pub notify_dead : Option ℕ

pub data OpType : Type 0 where
  register initialize make_available destroy acquire fail release recover : OpType

unfoldable pub op_string : OpType → String
op_string register = "OpShardRegister"
op_string initialize = "OpShardInitialize"
op_string make_available = "OpShardMakeAvailable"
op_string destroy = "OpShardDestroy"
op_string acquire = "OpShardAcquire"
op_string fail = "OpShardFail"
op_string release = "OpShardRelease"
op_string recover = "OpShardRecover"

pub record Task : Type 0 where
  pub waiter : Option Waiter
  pub op : OpType
  pub shard : ℕ
  pub err : Option Error

pub record Accessor (X : Externals) : Type 0 where
  pub reader : X.Reader
  pub idx : X.Index
  pub shard : ℕ

pub record ShardResult (X : Externals) : Type 0 where
  pub key : Key
  pub error : Option Error
  pub accessor : Option (Accessor X)

pub record Dispatch (X : Externals) : Type 0 where
  pub w : Waiter
  pub res : ShardResult X

pub record Shard (X : Externals) : Type 0 where
  pub key : Key
  pub mount : Upgrader X.Mount
  pub lazy : Bool
  pub state : ShardState
  pub err : Option Error
  pub recover_on_next_acquire : Bool
  pub w_register : Option Waiter
  pub w_recover : Option Waiter
  pub w_acquire : List Waiter
  pub w_destroy : Option Waiter
  pub refs : ℕ  -- uint32

pub record PersistedShard : Type 0 where
  pub key : String
  pub url : String
  pub transient_path : String
  pub state : ShardState
  pub lazy : Bool
  pub error : String

pub record ShardInfo : Type 0 where
  pub state : ShardState
  pub error : Option Error
  pub refs : ℕ

pub record Trace : Type 0 where
  pub key : Key
  pub op : OpType
  pub after : ShardInfo
