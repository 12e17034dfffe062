-- ===== src/Lib.antt =====
-- A DAG store keeps shards: CAR files that are reached by a mount, with an index of their blocks.
--
-- Parts. One event loop (dagstore_control.go) owns the state of every shard. The calls of the
-- application (dagstore.go) and the goroutines that fetch and index (dagstore_async.go) send it tasks
-- over three channels. It answers waiters through a dispatcher (dispatcher.go, shard.go), persists each
-- shard after each task (shard_persist.go), and alone runs garbage collections (dagstore_gc.go). Mounts
-- (mount/) tell where data is, and index repositories (index/) hold the indices.
--
-- Files.
--   Shared: tests into Bool, lists over native numbers, and Go maps as association lists.
--   ShardKey, ShardState: shard/key.go, shard_state.go. Error: every error, with its text.
--   Mount: mount/mount.go (Interface), mount/registry.go (Registry), mount/upgrader.go (Upgrader, with
--     `refetch` in Upgrader.Refetch, concurrent calls of `Fetch` in Upgrader.Fetch, and what it passes on
--     in Upgrader.Delegates); mount/bytes.go, mount/file.go, mount/fs.go and mount/counting.go (BuiltIn,
--     and Readers for `Fetch`).
--   Index: index/repo.go (Repo), index/repo_mem.go (Memory), index/repo_fs.go (FileRepo),
--     index/inverted_index_impl.go (Inverted).
--   IndexedBlockstore: indexbs/indexbacked_bs.go, with concurrent calls of `execOp` in Threads.
--   Throttle: throttle/throttler.go. Recovery: handlers.go, `RecoverImmediately`.
--   Store.Types, Store.Turn: the data of shard.go, dagstore.go, accessor.go; a round's effects.
--   Store.Control: one function `on_…` for each case of the switch in `control`, joined by `handle`.
--   Store.Async: `acquireAsync` and `initializeShard`, cut at their accesses to what is shared.
--   Store.Persist: `MarshalJSON`, `UnmarshalJSON` and `persist`.
--   Store.Accessor: accessor.go, the views of an accessor and their mappings into memory.
--   Store.GcCalls: `GC` of dagstore.go, and how its result comes back from the event loop.
--   Store.Lifecycle: `Close` and `queueTask` of dagstore.go, with the event loop and the dispatchers as
--     goroutines that end.
--   Store.System: the whole store. Calls has the calls of the application that change it, Queries those
--     that read, Loop `consumeNext` and a round of `control`, Gc `gc`, Orphans `clearOrphaned`, and Steps
--     every step that a running store can take, and runs.
--   Store.Start: `NewDAGStore`, `ensureDir`, `restoreState` and `Start`.
--   Store.Soundness: the invariant of a run, and that each step keeps it. Store.Properties: what follows,
--     with the count of the results that are due on a channel in Properties.Deliveries, and the datastore
--     that mirrors the shards through a run, up to a restart on it, in Properties.Mirrored,
--     and runs that do what callers ask for in Properties.Served.
--
-- Correspondence. A pointer to a shard is an index into the heap of `System`, so tasks can name a shard
-- that the catalogue has dropped. Each send of a goroutine is a step of its own, so a channel that is
-- full is a step that has not been taken; the order in which goroutines, dispatchers and the event loop
-- run is the order of the events of a run. A nil waiter that Go would dereference is a crash, `none`.
-- What a mount, the file system, the datastore and a context answer stands in the event. The store is
-- built over `Externals`: the mounts, the index repository, the inverted index, the operating system, and
-- `url.Parse`. A shard's record holds the text of its URL; that it can be read back is a condition. A batch
-- of the datastore is no transaction: a commit that fails has written any part of its entries, each whole.
--
-- Concurrent calls of `Upgrader.Fetch`, of `execOp` and of `GC` are runs of their own, over the state that
-- they share: the transients and the `sync.Once`s, the striped lock and the cache, the channel of requests.
-- So is the end of the store, in which a round of the event loop is what it sends, channels are full, and
-- goroutines of `acquireAsync` send whether `Close` has returned or not.
--
-- Bounds. `refs` is a uint32 and wraps; runs are shorter than 2 ^ 32 events, so it does not. Attempts of
-- the failure handler are a uint64, and so is the limit. No function is on fuel: loops are recursion on
-- lists.
--
-- Not modelled: a walk of a directory that fails, the `Manifest` interface of index/manifest.go, which
-- nothing implements, and the generator in gen/. JSON, CAR, reflection, contexts and the cache of blockstores are
-- libraries. The shutdown of the event loop ends a run.
pub mod Shared
pub mod ShardKey
pub mod ShardState
pub mod Error
pub mod Mount
pub mod Throttle
pub mod Index
pub mod Store
pub mod IndexedBlockstore
pub mod Recovery
