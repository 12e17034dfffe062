-- ===== src/Mount.antt =====
-- mount/: the mounts, the registry of their types, and the upgrader.
pub mod Interface
pub mod Registry
pub mod Upgrader
pub mod BuiltIn
pub mod Readers
mod Tests
