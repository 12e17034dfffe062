-- ===== src/Store/Soundness.antt =====
-- What holds of the store in every state that it can reach.
pub mod Measure
pub mod Rounds
pub mod Invariant
pub mod Process
pub mod Calls
pub mod Goroutines
pub mod Delivery
pub mod Async
pub mod Moves
pub mod Collection
pub mod Runs
pub mod Started
