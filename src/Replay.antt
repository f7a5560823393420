-- ===== src/Replay.antt =====
-- Replay of stored runs: sim/tes_replay.
pub mod Timeline
pub mod Playback
pub mod Tests
