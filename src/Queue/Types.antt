-- ===== src/Queue/Types.antt =====
-- The rows and tables of sim/api/execution/queue.py.
-- A datetime is a number of microseconds; the texts that `_format_datetime` stores compare as these
-- numbers do. A nullable column is an `Option`. The tables are lists of rows in the order of their
-- insertion, and `SqliteRunQueue` holds the tables of the database that the connection reaches.
use tirrad_exchange_system.Prelude.{ℕ, ◌*◌, String, Bool, Option, List, eqb, ◌==◌}
use tirrad_exchange_system.Prelude.Int.{ℤ}
use tirrad_exchange_system.Json.{Fields, Float}

pub data QueueStatus : Type 0 where
  pending running completed failed canceled : QueueStatus

abbrev status_code : QueueStatus → ℕ
status_code pending = 0
status_code running = 1
status_code completed = 2
status_code failed = 3
status_code canceled = 4

abbrev pub eq_status : QueueStatus → QueueStatus → Bool
eq_status a b = eqb (status_code a) (status_code b)

pub record QueueItem : Type 0 where
  pub run_id : String
  pub status : QueueStatus
  pub priority : ℤ
  pub created_at : ℕ
  pub available_at : ℕ
  pub started_at : Option ℕ
  pub completed_at : Option ℕ
  pub attempts : ℕ
  pub last_error : Option String
  pub locked_by : Option String
  pub locked_at : Option ℕ

-- A worker's status is `WorkerStatus | str`: any text.
pub record WorkerRecord : Type 0 where
  pub worker_id : String
  pub hostname : String
  pub process_id : Option ℤ
  pub started_at : ℕ
  pub heartbeat_at : ℕ
  pub capabilities : Fields
  pub status : String
  pub current_run_id : Option String
  pub progress_summary : Fields
  pub cpu_percent : Option Float
  pub memory_bytes : Option ℤ
  pub drain_requested : Bool
  pub shutdown_requested : Bool

-- A row of `worker_heartbeats`, less its autoincremented key, which is its position.
pub record HeartbeatRow : Type 0 where
  pub worker_id : String
  pub status : String
  pub heartbeat_at : ℕ
  pub current_run_id : Option String
  pub progress_summary : Fields
  pub cpu_percent : Option Float
  pub memory_bytes : Option ℤ

pub record RunLease : Type 0 where
  pub run_id : String
  pub worker_id : String
  pub acquired_at : ℕ
  pub expires_at : ℕ
  pub heartbeat_at : ℕ

-- A quotient of floats, kept exact as the two numbers that are divided; `den` is 0 for "0.0, since
-- there is nothing to divide by".
pub record Ratio : Type 0 where
  pub num : ℕ
  pub den : ℕ

pub record SchedulerStatus : Type 0 where
  pub pending_count : ℕ
  pub running_count : ℕ
  pub completed_count : ℕ
  pub failed_count : ℕ
  pub stale_worker_count : ℕ
  pub stale_job_count : ℕ
  pub queue_depth : ℕ
  pub average_wait_seconds : Ratio
  pub average_run_seconds : Ratio
  pub worker_utilization : Ratio
  pub throughput_per_minute : ℕ

pub record MetricsRow : Type 0 where
  pub captured_at : ℕ
  pub snapshot : SchedulerStatus

pub record RequeueResult : Type 0 where
  pub stale_workers : ℕ
  pub requeued_runs : List String

pub record SqliteRunQueue : Type 0 where
  pub stale_after_seconds : ℕ
  pub run_queue : List QueueItem
  pub workers : List WorkerRecord
  pub worker_heartbeats : List HeartbeatRow
  pub run_leases : List RunLease
  pub scheduler_metrics : List MetricsRow

-- timedelta(seconds=n)
abbrev pub seconds : ℕ → ℕ
seconds n = n * 1000000

-- WHERE run_id = ?
abbrev pub is_run : String → QueueItem → Bool
is_run r row = row.run_id == r

abbrev pub is_lease_of : String → RunLease → Bool
is_lease_of r lease = lease.run_id == r

abbrev pub is_worker : String → WorkerRecord → Bool
is_worker w row = row.worker_id == w
