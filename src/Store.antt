-- ===== src/Store.antt =====
-- The DAG store itself: dagstore.go, dagstore_control.go, dagstore_async.go, dagstore_gc.go,
-- dispatcher.go, shard.go, shard_persist.go and accessor.go.
pub mod Types
pub mod Example
mod Tests
mod Scenarios
mod RestartTests
mod MirrorTests
mod ServedTests
mod RoundTests
mod QueryTests
pub mod Turn
pub mod Control
pub mod Async
pub mod Persist
pub mod System
pub mod Start
pub mod Accessor
pub mod GcCalls
pub mod Lifecycle
pub mod Soundness
pub mod Properties
