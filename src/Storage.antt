-- ===== src/Storage.antt =====
-- The run storage of the API: sim/api/storage/base.py and sim/api/storage/in_memory.py.
pub mod Records
pub mod Selection
pub mod InMemory
pub mod Calls
pub mod Tournaments
pub mod Laws
pub mod Paging
pub mod Tests
