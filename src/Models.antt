-- ===== src/Models.antt =====
-- The command and event models and their texts: sim/tes_models and sim/tes_serialization.
pub mod Require
pub mod Events
pub mod Serialization
pub mod RoundTrip
pub mod Raises
pub mod Commands
mod Tests
