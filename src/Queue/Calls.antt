-- ===== src/Queue/Calls.antt =====
-- The calls that change the tables of sim/api/execution/queue.py, as data: a history of the queue is
-- a list of them, whoever makes them. SQLite runs each transaction alone, so a history is a sequence.
-- `requeue_stale` has several: `requeues` runs it with no other process in between, and where others
-- come in between, it is a `detects` and, later, a `frees` with the runs that it selected.
use tirrad_exchange_system.Prelude.{ℕ, String, Option, List, [], ◌∷◌}
use tirrad_exchange_system.Prelude.Int.{ℤ}
use tirrad_exchange_system.Queue.Types.{SqliteRunQueue}
use tirrad_exchange_system.Queue.Runs.{
  enqueue, claim_next, mark_running, mark_completed, mark_failed, mark_canceled, cancel_pending,
}
use tirrad_exchange_system.Queue.Workers.{
  Registration, Beat, register_worker, heartbeat, drain_worker, shutdown_worker,
  detect_stale_workers,
}
use tirrad_exchange_system.Queue.Scheduler.{record_scheduler_metrics, requeue_stale, requeue_rows}

pub data Call : Type 0 where
  enqueues : ℕ → String → ℤ → Option ℕ → Call
  claims : ℕ → String → Call
  starts : ℕ → String → Option String → Call
  completes : ℕ → String → Call
  fails : ℕ → String → String → Call
  cancels : ℕ → String → Option String → Call
  cancels_pending : ℕ → String → Call
  registers : ℕ → String → Registration → Call
  beats : ℕ → ℕ → String → Beat → Call
  drains shuts_down : String → Call
  detects : ℕ → Option ℕ → Call
  requeues : (ℕ → ℕ) → Option ℕ → Call
  frees : ℕ → ℕ → List String → (ℕ → ℕ) → Call
  reports : (ℕ → ℕ) → Call

unfoldable pub apply : SqliteRunQueue → Call → SqliteRunQueue
apply q (enqueues now r priority available) = (enqueue q now r priority available).0
apply q (claims now w) = (claim_next q now w).0
apply q (starts now r w) = (mark_running q now r w).0
apply q (completes now r) = (mark_completed q now r).0
apply q (fails now r e) = (mark_failed q now r e).0
apply q (cancels now r e) = (mark_canceled q now r e).0
apply q (cancels_pending now r) = (cancel_pending q now r).0
apply q (registers now w r) = (register_worker q now w r).0
apply q (beats now registered w b) = heartbeat q now registered w b
apply q (drains w) = (drain_worker q w).0
apply q (shuts_down w) = (shutdown_worker q w).0
apply q (detects now t) = (detect_stale_workers q now t).0
apply q (requeues clock t) = (requeue_stale q clock t).0
apply q (frees now cutoff runs clock) = requeue_rows q now cutoff runs clock
apply q (reports clock) = (record_scheduler_metrics q clock).0

unfoldable pub run : SqliteRunQueue → List Call → SqliteRunQueue
run q [] = q
run q (c ∷ cs) = run (apply q c) cs

-- SqliteRunQueue(path, stale_after_seconds=n) on a fresh database.
abbrev pub empty_queue : ℕ → SqliteRunQueue
empty_queue n = record {
  stale_after_seconds = n;
  run_queue = [];
  workers = [];
  worker_heartbeats = [];
  run_leases = [];
  scheduler_metrics = [];
}
