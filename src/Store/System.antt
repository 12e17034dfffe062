-- ===== src/Store/System.antt =====
-- The running DAG store: what its goroutines share, and each step that one of them can take next.
-- A send on a full channel waits; here it is a step that comes later, so the queues have no limit.
pub mod Defs
pub mod Calls
pub mod Queries
pub mod Loop
pub mod Gc
pub mod Orphans
pub mod Steps
