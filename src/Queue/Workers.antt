-- ===== src/Queue/Workers.antt =====
-- The operations of sim/api/execution/queue.py on the tables `workers` and `worker_heartbeats`.
use tirrad_exchange_system.Prelude.{
  ℕ, ◌-◌, String, Bool, true, false, not, ◌&&◌, Option, none, some, List, [], ◌∷◌, ◌++◌, ltb, eqb,
  ◌==◌, if◌then◌else◌, select, find, update_where, any, or_else, map,
}
use tirrad_exchange_system.Prelude.Int.{ℤ}
use tirrad_exchange_system.Prelude.Text.{text_leb}
use tirrad_exchange_system.Prelude.Sorting.{order_by}
use tirrad_exchange_system.Prelude.Results.{Result}
use tirrad_exchange_system.Json.{Fields, end, Float, one_of}
use tirrad_exchange_system.Queue.Types.{WorkerRecord, SqliteRunQueue, seconds, is_worker}
use tirrad_exchange_system.Queue.Runs.{QueueError, failed_to_register, or_raise, upsert_lease}

unfoldable pub get_worker : SqliteRunQueue → String → Option WorkerRecord
get_worker q worker_id = find (is_worker worker_id) q.workers

unfoldable pub insert_worker_heartbeat :
    SqliteRunQueue
    → String
    → String
    → ℕ
    → Option String
    → Fields
    → Option Float
    → Option ℤ
    → SqliteRunQueue
insert_worker_heartbeat q worker_id status now current_run_id progress cpu_percent memory_bytes =
    record q {
      worker_heartbeats =
          q.worker_heartbeats
          ++ record {
            worker_id = worker_id;
            status = status;
            heartbeat_at = now;
            current_run_id = current_run_id;
            progress_summary = progress;
            cpu_percent = cpu_percent;
            memory_bytes = memory_bytes;
          }
            ∷ [];
    }

-- What the caller of `register_worker` passes; `started_at` is its own reading if it is left out.
pub record Registration : Type 0 where
  pub hostname : String
  pub process_id : Option ℤ
  pub started_at : Option ℕ
  pub capabilities : Fields
  pub status : String

unfoldable pub registered_again : ℕ → Registration → WorkerRecord → WorkerRecord
registered_again now r row = record row {
  hostname = r.hostname;
  process_id = r.process_id;
  heartbeat_at = now;
  capabilities = r.capabilities;
  status = r.status;
}

abbrev new_worker : ℕ → String → Registration → WorkerRecord
new_worker now worker_id r = record {
  worker_id = worker_id;
  hostname = r.hostname;
  process_id = r.process_id;
  started_at = or_else r.started_at now;
  heartbeat_at = now;
  capabilities = r.capabilities;
  status = r.status;
  current_run_id = none;
  progress_summary = end;
  cpu_percent = none;
  memory_bytes = none;
  drain_requested = false;
  shutdown_requested = false;
}

unfoldable pub register_worker :
    SqliteRunQueue → ℕ → String → Registration → SqliteRunQueue × Result QueueError WorkerRecord
unfolding get_worker registered_again insert_worker_heartbeat
register_worker q now worker_id r =
    let rows =
      if any (is_worker worker_id) q.workers
      then update_where (is_worker worker_id) (registered_again now r) q.workers
      else q.workers ++ new_worker now worker_id r ∷ [] in
    let q' =
      insert_worker_heartbeat (record q { workers = rows }) worker_id r.status now none end none
        none in
    (q', or_raise (failed_to_register worker_id) (get_worker q' worker_id))

-- What the caller of `heartbeat` passes.
pub record Beat : Type 0 where
  pub status : String
  pub current_run_id : Option String
  pub progress_summary : Fields
  pub cpu_percent : Option Float
  pub memory_bytes : Option ℤ

unfoldable pub beaten : ℕ → Beat → WorkerRecord → WorkerRecord
beaten now b row = record row {
  heartbeat_at = now;
  status = b.status;
  current_run_id = b.current_run_id;
  progress_summary = b.progress_summary;
  cpu_percent = b.cpu_percent;
  memory_bytes = b.memory_bytes;
}

abbrev unknown_host : String → Registration
unknown_host status = record {
  hostname = "unknown";
  process_id = none;
  started_at = none;
  capabilities = end;
  status = status;
}

-- The registration inside `heartbeat`, of a worker that is not known.
unfoldable pub ensure_worker :
    SqliteRunQueue → ℕ → String → String → Option WorkerRecord → SqliteRunQueue
unfolding register_worker
ensure_worker q registered worker_id status none =
    (register_worker q registered worker_id (unknown_host status)).0
ensure_worker q registered worker_id status (some worker) = q

-- The lease part of `heartbeat`.
unfoldable pub beat_lease : SqliteRunQueue → ℕ → String → Option String → SqliteRunQueue
unfolding upsert_lease
beat_lease q now worker_id none = q
beat_lease q now worker_id (some run_id) = upsert_lease q now run_id worker_id

-- Its UPDATE of `workers` and its row of `worker_heartbeats`.
unfoldable pub beat_rows : SqliteRunQueue → ℕ → String → Beat → SqliteRunQueue
unfolding beaten insert_worker_heartbeat
beat_rows q now worker_id b =
    insert_worker_heartbeat
      (record q { workers = update_where (is_worker worker_id) (beaten now b) q.workers }) worker_id
      b.status now b.current_run_id b.progress_summary b.cpu_percent b.memory_bytes

-- `now` is the reading of `heartbeat`, `registered` the one that `register_worker` makes inside it.
unfoldable pub heartbeat : SqliteRunQueue → ℕ → ℕ → String → Beat → SqliteRunQueue
unfolding get_worker ensure_worker beat_rows beat_lease
heartbeat q now registered worker_id b =
    let known = ensure_worker q registered worker_id b.status (get_worker q worker_id) in
    beat_lease (beat_rows known now worker_id b) now worker_id b.current_run_id

-- ORDER BY heartbeat_at DESC, worker_id ASC
unfoldable pub worker_order : WorkerRecord → WorkerRecord → Bool
worker_order a b =
    if ltb b.heartbeat_at a.heartbeat_at
    then true
    else if eqb b.heartbeat_at a.heartbeat_at
    then text_leb a.worker_id b.worker_id
    else false

unfoldable pub list_worker_records : SqliteRunQueue → List WorkerRecord
list_worker_records q = order_by worker_order q.workers

-- A row of `list_workers`.
pub record WorkerHeartbeat : Type 0 where
  pub worker_id : String
  pub status : String
  pub updated_at : ℕ
  pub current_run_id : Option String

abbrev observed : WorkerRecord → WorkerHeartbeat
observed r = record {
  worker_id = r.worker_id;
  status = r.status;
  updated_at = r.heartbeat_at;
  current_run_id = r.current_run_id;
}

unfoldable pub list_workers : SqliteRunQueue → List WorkerHeartbeat
list_workers q = map observed (list_worker_records q)

abbrev drained : WorkerRecord → WorkerRecord
drained row = record row { drain_requested = true }

unfoldable pub drain_worker : SqliteRunQueue → String → SqliteRunQueue × Option WorkerRecord
unfolding get_worker
drain_worker q worker_id =
    let q' = record q { workers = update_where (is_worker worker_id) drained q.workers } in
    (q', get_worker q' worker_id)

abbrev shut_down : WorkerRecord → WorkerRecord
shut_down row = record row { shutdown_requested = true; status = "offline" }

unfoldable pub shutdown_worker : SqliteRunQueue → String → SqliteRunQueue × Option WorkerRecord
unfolding get_worker
shutdown_worker q worker_id =
    let q' = record q { workers = update_where (is_worker worker_id) shut_down q.workers } in
    (q', get_worker q' worker_id)

-- stale_after_seconds or self._stale_after_seconds: a 0 counts as left out.
unfoldable pub timeout_of : SqliteRunQueue → Option ℕ → ℕ
timeout_of q none = q.stale_after_seconds
timeout_of q (some n) = if eqb n 0 then q.stale_after_seconds else n

abbrev pub is_silent : ℕ → WorkerRecord → Bool
is_silent cutoff row =
    not (one_of row.status ("offline" ∷ "stale" ∷ [])) && ltb row.heartbeat_at cutoff

abbrev pub gone_stale : WorkerRecord → WorkerRecord
gone_stale row = record row { status = "stale" }

unfoldable pub detect_stale_workers :
    SqliteRunQueue → ℕ → Option ℕ → SqliteRunQueue × List WorkerRecord
unfolding timeout_of list_worker_records
detect_stale_workers q now stale_after_seconds =
    let cutoff = now - seconds (timeout_of q stale_after_seconds) in
    let q' = record q { workers = update_where (is_silent cutoff) gone_stale q.workers } in
    (q', select (λ worker. worker.status == "stale") (list_worker_records q'))
