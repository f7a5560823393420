-- ===== src/Tournaments.antt =====
-- Tournaments: the expansion into child runs and the report of sim/api/tournaments.py, and the
-- service of sim/api/services/tournament_service.py.
pub mod Aggregates
pub mod Cancellation
pub mod Expand
pub mod Keys
pub mod Metrics
pub mod Report
pub mod Requests
pub mod Service
pub mod Tests
