-- ===== src/Coordination/Invariant.antt =====
-- What holds of the tables after any sequence of transactions.
pub mod Uniqueness
pub mod Rows
pub mod Progress
pub mod Mirror
pub mod Quota
