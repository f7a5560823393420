-- ===== src/Verification.antt =====
-- Verification of replays: sim/tes_replay/verification.py.
pub mod Normal
pub mod Streams
pub mod Hashes
pub mod Reports
pub mod Outcomes
pub mod Tests
