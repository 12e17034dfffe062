-- ===== src/Store/Properties.antt =====
-- What the DAG store promises.
pub mod Safety
pub mod Transitions
pub mod Answers
pub mod Faults
pub mod Destruction
pub mod Persistence
pub mod Recorded
pub mod Mirrored
pub mod Served
pub mod Cleared
pub mod Restart
pub mod Collection
mod Round
pub mod Draining
pub mod Deliveries
pub mod Findable
pub mod Information
