-- ===== src/Coordination/Admission/Again.antt =====
-- A reservation that was committed is what the owner's next attempt for the challenge reads.
