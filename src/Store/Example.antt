-- ===== src/Store/Example.antt =====
-- A DAG store to run the model on: mounts that are named by a host, indices that are lists of multihashes,
-- and the repository of indices in memory.
use dagstore.Shared.{
  ℕ, String, ◌<>◌, Bool, true, false, none, some, List, [], ◌∷◌, length, ◌==◌, string_eq,
  if◌then◌else◌,
}
use dagstore.Error.{external, Result, ok, err}
use dagstore.ShardKey.{Key}
use dagstore.ShardState.{new, errored}
use dagstore.Throttle.{noop}
use dagstore.Mount.Interface.{MountOps, Url, remote}
use dagstore.Mount.Registry.{Registry}
use dagstore.Mount.Upgrader.{Os, Upgrader}
use dagstore.Index.Memory.{MemIndexRepo, memory_repo}
use dagstore.Index.Inverted.{Datastore, Faults, add_multihashes_for_shard, get_shards_for_multihash}
use dagstore.Store.Types.{Externals, caller, Waiter, OpType, Task, Shard}
use dagstore.Store.System.Defs.{System}
use dagstore.Store.System.Loop.{Answers}
use dagstore.Store.Start.{do_not_recover, Config}

-- Its URL carries the host, and a template takes the host of the URL that it is given.
abbrev pub host_mount : MountOps String
host_mount = record {
  type_of = λ m. "HostMount";
  info = λ m. record {
    kind = remote;
    access_sequential = true;
    access_seek = false;
    access_random = false;
  };
  serialize = λ m. record { scheme = ""; host = m; raw_query = "" };
  deserialize = λ template u. ok u.host;
  url_text = λ u. u.scheme <> "://" <> u.host;
}

abbrev pub unix : Os
unix = record { temp_dir = "/tmp"; join = λ a b. a <> "/" <> b; has_rel = λ a b. true }

abbrev pub no_faults : Faults
no_faults = record { batch = none; get = λ k. none; put = λ k. none; commit = none; sync = none }

abbrev pub datastore_key : String → String
datastore_key s = "/" <> s

abbrev pub written_size : List String → Result ℕ
written_size idx = ok (length idx)

-- It reads the URL of one host, and refuses any other.
abbrev parse_host : String → Result Url
parse_host text =
    if text == "host://peer"
    then ok (record { scheme = "host"; host = "peer"; raw_query = "" })
    else err (external "invalid URL")

abbrev pub example : Externals
example = record {
  Mount = String;
  Reader = String;
  Index = List String;
  Repo = MemIndexRepo (List String);
  mount = host_mount;
  os = unix;
  repo = memory_repo written_size;
  TopLevel = Datastore;
  add_multihashes_for_shard =
      λ top mhs k. add_multihashes_for_shard datastore_key (λ mh. mh) no_faults mhs k top;
  get_shards_for_multihash =
      λ top mh. get_shards_for_multihash datastore_key (λ text. text) no_faults mh top;
  iterable = some;
  parse_url = parse_host;
  decimal = λ n. "1";
  new_key = datastore_key;
}

abbrev pub host_registry : Registry String
host_registry = record { by_scheme = ("host", "") ∷ []; by_type = ("HostMount", "host") ∷ [] }

abbrev pub config : Config example
config = record {
  transients_dir = "/transients";
  index_repo = [];
  top_level_index = [];
  datastore = [];
  mount_registry = host_registry;
  trace_ch = true;
  failure_ch = some 9;
  max_concurrent_ready_fetches = 0;
  recover_on_start = do_not_recover;
}

abbrev pub a_key : Key
a_key = record { str = "a" }

-- A caller that waits for its result on the channel 5.
abbrev pub waiter : Waiter
waiter = record { ctx = caller 1; out_ch = some 5; notify_dead = none }

abbrev pub task : OpType → Task
task op = record { waiter = some waiter; op = op; shard = 0; err = none }

abbrev pub upgraded : Upgrader String
upgraded = record {
  rootdir = "/transients";
  underlying = "peer";
  throttler = noop;
  key = "a";
  passthrough = false;
  path_complete = "/transients/transient-a.complete";
  path_partial = "/transients/transient-a.partial";
  path = "";
  ready = false;
}

abbrev pub shard : Shard example
shard = record {
  key = a_key;
  mount = upgraded;
  lazy = false;
  state = new;
  err = none;
  recover_on_next_acquire = false;
  w_register = none;
  w_recover = none;
  w_acquire = [];
  w_destroy = none;
  refs = 0;
}

abbrev pub quiet_world : Answers
quiet_world = record { removed = none; put_failed = false; delete_failed = false }

abbrev pub fresh_store : System example
fresh_store = record {
  heap = [];
  shards = [];
  mounts = host_registry;
  indices = [];
  top_level_index = [];
  store = [];
  transients_dir = "/transients";
  throttle_ready_fetch = noop;
  external_ch = [];
  internal_ch = [];
  completion_ch = [];
  dispatch_results_ch = [];
  dispatch_failures_ch = [];
  failure_ch = some 9;
  trace_ch = true;
  traces = [];
  goroutines = [];
  accessors = [];
}

abbrev pub no_file : String → Bool
no_file path = false

abbrev pub broken : Shard example
broken = record shard { state = errored; err = some (external "io"); refs = 1 }

abbrev pub store_of : Shard example → System example
store_of s = record fresh_store { heap = s ∷ shard ∷ []; shards = (a_key, 0) ∷ [] }
