-- ===== src/Coordination/Lifecycle.antt =====
-- `mark_running` and the rest of `InstanceCoordinator`: each operation is one session, that commits
-- what it wrote or leaves the database as it was.
pub mod Finalize
pub mod Cleanup
pub mod Expiry
pub mod Solves
