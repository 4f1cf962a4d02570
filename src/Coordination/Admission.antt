-- ===== src/Coordination/Admission.antt =====
-- What a reservation gets: an undisturbed attempt is decided at once, and an instance is placed only on
-- a context that takes instances at the commit.
pub mod Fresh
pub mod Commit
pub mod Again
