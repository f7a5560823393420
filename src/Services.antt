-- ===== src/Services.antt =====
-- The services of the API: sim/api/services.
pub mod Values
pub mod Stream
pub mod Runs
pub mod Reads
pub mod Tests
