-- ===== src/Queue/Scheduler.antt =====
-- Stale recovery and the scheduler's snapshot, of sim/api/execution/queue.py.
-- A method that reads the clock more than once, itself or in the methods that it calls, takes the
-- sequence of its readings: `clock i` is the one that it makes after `i` others.
use tirrad_exchange_system.Prelude.{
  ℕ, ◌+◌, ◌-◌, ◌*◌, String, Bool, true, false, not, ◌&&◌, ◌||◌, Option, none, some, List, [], ◌∷◌,
  ◌++◌, ltb, leb, eqb, ◌==◌, if◌then◌else◌, select, update_where, count, length, map, or_else,
}
use tirrad_exchange_system.Prelude.Text.{text_leb}
use tirrad_exchange_system.Prelude.Sorting.{order_by}
use tirrad_exchange_system.Json.{one_of}
use tirrad_exchange_system.Queue.Types.{
  QueueStatus, pending, running, completed, failed, eq_status, QueueItem, RunLease, WorkerRecord,
  Ratio, SchedulerStatus, RequeueResult, SqliteRunQueue, seconds,
}
use tirrad_exchange_system.Queue.Runs.{is_stale, delete_lease}
use tirrad_exchange_system.Queue.Workers.{list_worker_records, detect_stale_workers, timeout_of}

-- max((to - from).total_seconds(), 0.0), in microseconds
abbrev span : ℕ → ℕ → ℕ
span from to = to - from

unfoldable pub waits_and_durations : ℕ → List QueueItem → List (ℕ × ℕ)
waits_and_durations now [] = []
waits_and_durations now (row ∷ rows) =
    let rest = waits_and_durations now rows in
    elim row.started_at [
      | none ↦ rest
      | some t ↦ (span row.created_at t, span t (or_else row.completed_at now)) ∷ rest
    ]

abbrev sum_of {ℓ} : {A : Type ℓ} → (A → ℕ) → List A → ℕ
sum_of f [] = 0
sum_of f (x ∷ xs) = f x + sum_of f xs

-- The averages in seconds of the spans in microseconds.
unfoldable pub duration_averages : SqliteRunQueue → ℕ → Ratio × Ratio
unfolding waits_and_durations
duration_averages q now =
    let rows = waits_and_durations now q.run_queue in
    (
      record { num = sum_of (λ r. r.0) rows; den = length rows * 1000000 },
      record { num = sum_of (λ r. r.1) rows; den = length rows * 1000000 },
    )

abbrev completed_since : ℕ → Option ℕ → Bool
completed_since since none = false
completed_since since (some t) = leb since t

unfoldable pub throughput_per_minute : SqliteRunQueue → ℕ → ℕ
throughput_per_minute q now =
    count
      (λ row.
        completed_since (now - seconds 60) row.completed_at
        && (eq_status row.status completed || eq_status row.status failed))
      q.run_queue

-- worker.current_run_id as a condition: neither None nor empty.
abbrev has_run : Option String → Bool
has_run none = false
has_run (some r) = not (r == "")

abbrev pub is_active : WorkerRecord → Bool
is_active worker = one_of worker.status ("idle" ∷ "busy" ∷ "running" ∷ [])

abbrev pub is_busy : WorkerRecord → Bool
is_busy worker =
    is_active worker
    && (one_of worker.status ("busy" ∷ "running" ∷ []) || has_run worker.current_run_id)

abbrev pub with_status : QueueStatus → List QueueItem → ℕ
with_status s rows = count (λ row. eq_status row.status s) rows

unfoldable pub scheduler_status : SqliteRunQueue → (ℕ → ℕ) → SqliteRunQueue × SchedulerStatus
unfolding detect_stale_workers duration_averages throughput_per_minute
scheduler_status q clock =
    let q' = (detect_stale_workers q (clock 0) none).0 in
    let now = clock 1 in
    let workers = list_worker_records q' in
    let averages = duration_averages q' now in
    (
      q',
      record {
        pending_count = with_status pending q'.run_queue;
        running_count = with_status running q'.run_queue;
        completed_count = with_status completed q'.run_queue;
        failed_count = with_status failed q'.run_queue;
        stale_worker_count = count (λ worker. worker.status == "stale") workers;
        stale_job_count = count (is_stale (now - seconds q'.stale_after_seconds)) q'.run_queue;
        queue_depth = with_status pending q'.run_queue + with_status running q'.run_queue;
        average_wait_seconds = averages.0;
        average_run_seconds = averages.1;
        worker_utilization = record { num = count is_busy workers; den = count is_active workers };
        throughput_per_minute = throughput_per_minute q' now;
      },
    )

-- A row of `scheduler_metrics` keeps eight numbers of the snapshot; the model keeps it whole.
unfoldable pub record_scheduler_metrics :
    SqliteRunQueue → (ℕ → ℕ) → SqliteRunQueue × SchedulerStatus
unfolding scheduler_status
record_scheduler_metrics q clock =
    let (q', status) = scheduler_status q clock in
    (
      record q' {
        scheduler_metrics =
            q'.scheduler_metrics ++ record { captured_at = clock 2; snapshot = status } ∷ [];
      },
      status,
    )

-- ORDER BY locked_at ASC, run_id ASC (a NULL, which the WHERE clause excludes, comes first).
unfoldable pub lock_order : QueueItem → QueueItem → Bool
lock_order a b =
    let s = or_else a.locked_at 0 in
    let t = or_else b.locked_at 0 in
    if ltb s t then true else if eqb s t then text_leb a.run_id b.run_id else false

unfoldable pub requeued : ℕ → QueueItem → QueueItem
requeued now row = record row {
  status = pending;
  available_at = now;
  locked_by = none;
  locked_at = none;
  last_error = some "requeued after stale worker lease expired";
}

unfoldable pub delete_leases : List String → List RunLease → List RunLease
unfolding delete_lease
delete_leases [] leases = leases
delete_leases (run_id ∷ rest) leases = delete_leases rest (delete_lease run_id leases)

-- The SELECT of `requeue_stale`.
unfoldable pub stale_runs : SqliteRunQueue → ℕ → List String
unfolding lock_order
stale_runs q cutoff =
    map (λ row. row.run_id) (order_by lock_order (select (is_stale cutoff) q.run_queue))

-- Its last transaction: the UPDATE, which reads the table anew, the DELETE of the leases of the runs
-- that were selected before, and the snapshot.
unfoldable pub requeue_rows : SqliteRunQueue → ℕ → ℕ → List String → (ℕ → ℕ) → SqliteRunQueue
unfolding requeued delete_leases record_scheduler_metrics
requeue_rows q now cutoff runs clock =
    let q' = record q {
      run_queue = update_where (is_stale cutoff) (requeued now) q.run_queue;
      run_leases = delete_leases runs q.run_leases;
    } in
    (record_scheduler_metrics q' clock).0

-- detect_stale_workers commits, then the rows are selected, then comes the transaction that changes
-- them. Here no other process comes in between; a history in which some do has `detect_stale_workers` and
-- `requeue_rows` as calls of their own.
unfoldable pub requeue_stale : SqliteRunQueue → (ℕ → ℕ) → Option ℕ → SqliteRunQueue × RequeueResult
unfolding timeout_of detect_stale_workers stale_runs requeue_rows
requeue_stale q clock stale_after_seconds =
    let timeout = timeout_of q stale_after_seconds in
    let now = clock 0 in
    let cutoff = now - seconds timeout in
    let (q₁, stale_workers) = detect_stale_workers q (clock 1) (some timeout) in
    let runs = stale_runs q₁ cutoff in
    (
      requeue_rows q₁ now cutoff runs (λ i. clock (2 + i)),
      record { stale_workers = length stale_workers; requeued_runs = runs },
    )
