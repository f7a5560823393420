-- ===== src/Queue.antt =====
-- The durable run queue: sim/api/execution/queue.py and sim/api/execution/scheduler.py.
pub mod Types
pub mod Runs
pub mod Workers
pub mod Scheduler
pub mod Calls
pub mod Edits
pub mod Lifecycle
pub mod Claims
pub mod Recovery
mod Tests
