-- ===== src/Services/Runs.antt =====
-- The life of a run in `RunService` (sim/api/services/run_service.py), over the in-memory store.
-- The executors of sessions and backtests stand on the engine and are arguments: from the service at
-- their start they give the service at their end, which has their progress messages and whatever
-- other requests changed meanwhile, and an outcome.
pub mod Stored
pub mod Outcomes
pub mod Cancellation
use tirrad_exchange_system.Prelude.{ℕ, String, Bool, true, false, Option, none, some, if◌then◌else◌}
use tirrad_exchange_system.Prelude.Results.{Result, ok, err}
use tirrad_exchange_system.Json.{Value, text, object, Fields, end, field}
use tirrad_exchange_system.Storage.Records.{
  RunType, session, backtest, benchmark, RunStatus, pending, running, completed, failed, canceled,
  RunRecord, InMemoryRunStore,
}
use tirrad_exchange_system.Storage.InMemory.{
  create_run, get_run, update_run, RunUpdate, append_log, store_result, RunResult, delete_run,
}
use tirrad_exchange_system.Services.Stream.{
  RunOutput, RunService, publish, close_stream, publish_result_streams, completion_payload,
}

-- RunNotFoundError, InvalidRequestError by the place that raises it, RunExecutionError, and the
-- validation error of a stored configuration.
pub data ServiceError : Type 0 where
  run_not_found already_completed run_is_canceled completed_not_cancelable : String → ServiceError
  invalid_request run_execution : String → ServiceError
  unsupported_run_type : RunType → ServiceError
  invalid_config : Fields → ServiceError

-- How an executor ends: with a result, with InvalidRequestError, or with another exception. The text
-- is str(exc); where that is empty it is "invalid request" and the name of the class.
pub data Outcome : Type 0 where
  finished : RunOutput → Outcome
  refused : String → Outcome
  raised : String → Outcome

abbrev pub Executor : Type 0
Executor = RunService → RunService × Outcome

-- What the service takes from outside: Python's str, isoformat, the validation of stored
-- configurations, and the executors.
pub record Outside : Type 0 where
  pub str_of : Value → String
  pub isoformat : ℕ → String
  pub accepts_session : Fields → Bool
  pub accepts_backtest : Fields → Bool
  pub run_session : Fields → String → Executor
  pub run_backtest : Fields → String → Executor

abbrev pub run_type_name : RunType → String
run_type_name session = "session"
run_type_name backtest = "backtest"
run_type_name benchmark = "benchmark"

abbrev pub status_name : RunStatus → String
status_name pending = "pending"
status_name running = "running"
status_name completed = "completed"
status_name failed = "failed"
status_name canceled = "canceled"

abbrev pub type_and_config : RunType → Fields → Fields
type_and_config run_type config =
    field "run_type" (text (run_type_name run_type)) (field "config" (object config) end)

abbrev pub with_store : RunService → InMemoryRunStore → RunService
with_store s store = record s { store = store }

abbrev pub starting : ℕ → RunUpdate
starting now = record {
  status = some running;
  started_at = some now;
  completed_at = none;
  error = none;
}

abbrev pub ending : RunStatus → ℕ → Option String → RunUpdate
ending status now error = record {
  status = some status;
  started_at = none;
  completed_at = some now;
  error = error;
}

abbrev pub result_of : RunOutput → RunResult
result_of x = record {
  report = x.report;
  events = x.events;
  snapshots = x.snapshots;
  accounts = x.accounts;
  logs = none;
}

-- The two except clauses: the run is failed with the error text, published, and its stream closed.
unfoldable pub fail_run : RunService → ℕ → String → String → String → RunService
unfolding update_run publish close_stream
fail_run s now run_id error message =
    let s₁ = with_store s (update_run s.store run_id (ending failed now (some error))).0 in
    close_stream (publish s₁ run_id "error" "run_failed" (field "error" (text message) end) none)
      run_id

-- What follows the try statement.
unfoldable pub complete_run :
    (Value → String)
    → RunService
    → ℕ
    → String
    → Fields
    → RunOutput
    → RunService × Result ServiceError RunRecord
unfolding update_run store_result publish close_stream publish_result_streams completion_payload
complete_run str_of s now run_id config result =
    let s₁ = publish_result_streams str_of s run_id config result in
    let s₂ = with_store s₁ (store_result s₁.store run_id (result_of result)).0 in
    let (store, found) = update_run s₂.store run_id (ending completed now none) in
    let s₃ = with_store s₂ store in
    elim found [
      | none ↦ (s₃, err (run_not_found run_id))
      | some r ↦ (
        close_stream
            (publish s₃ run_id "completed" "run_completed" (completion_payload result) none) run_id,
        ok r,
      )
    ]

unfoldable pub settle :
    (Value → String)
    → ℕ
    → String
    → Fields
    → RunService × Outcome
    → RunService × Result ServiceError RunRecord
unfolding fail_run complete_run
settle str_of now run_id config (s, finished result) =
    complete_run str_of s now run_id config result
settle str_of now run_id config (s, refused message) =
    (fail_run s now run_id "invalid request" message, err (invalid_request message))
settle str_of now run_id config (s, raised message) =
    (fail_run s now run_id message message, err (run_execution message))

-- The part of _execute_record before the executor is called.
unfoldable pub start_run : RunService → ℕ → String → RunType → Fields → RunService
unfolding update_run publish
start_run s now run_id run_type config =
    publish (with_store s (update_run s.store run_id (starting now)).0) run_id "status"
      "run_started" (type_and_config run_type config) none

-- `now` and `later` are the two readings of the clock.
unfoldable pub execute_record :
    (Value → String)
    → RunService
    → ℕ
    → ℕ
    → String
    → RunType
    → Fields
    → Executor
    → RunService × Result ServiceError RunRecord
unfolding start_run settle
execute_record str_of s now later run_id run_type config executor =
    settle str_of later run_id config (executor (start_run s now run_id run_type config))

-- _execute: a new run, executed at once.
unfoldable pub execute :
    (Value → String)
    → RunService
    → String
    → ℕ
    → ℕ
    → ℕ
    → RunType
    → Fields
    → (String → Executor)
    → RunService × Result ServiceError RunRecord
unfolding create_run execute_record
execute str_of s new_id created now later run_type config executor =
    let (store, r) = create_run s.store new_id created run_type config in
    execute_record str_of (with_store s store) now later r.run_id run_type config
      (executor r.run_id)

unfoldable pub queue_run : RunService → String → ℕ → RunType → Fields → RunService × RunRecord
unfolding create_run publish
queue_run s new_id now run_type config =
    let (store, r) = create_run s.store new_id now run_type config in
    (
      publish (with_store s store) r.run_id "status" "run_queued"
          (type_and_config run_type r.config) none,
      r,
    )

unfoldable pub execute_open :
    Outside → RunService → ℕ → ℕ → RunRecord → RunService × Result ServiceError RunRecord
unfolding execute_record
execute_open o s now later r = elim r.run_type [
  | session ↦
      if o.accepts_session r.config
      then execute_record o.str_of s now later r.run_id session r.config
          (o.run_session r.config r.run_id)
      else (s, err (invalid_config r.config))
  | backtest ↦
      if o.accepts_backtest r.config
      then execute_record o.str_of s now later r.run_id backtest r.config
          (o.run_backtest r.config r.run_id)
      else (s, err (invalid_config r.config))
  | benchmark ↦ (s, err (unsupported_run_type benchmark))
]

unfoldable pub execute_pending_run :
    Outside → RunService → ℕ → ℕ → String → RunService × Result ServiceError RunRecord
unfolding get_run execute_open
execute_pending_run o s now later run_id = elim (get_run s.store run_id) [
  | none ↦ (s, err (run_not_found run_id))
  | some r ↦ elim r.status [
    | completed ↦ (s, err (already_completed run_id))
    | canceled ↦ (s, err (run_is_canceled run_id))
    | _ ↦ execute_open o s now later r
  ]
]

-- The log that cancel_run appends.
abbrev pub cancel_log : (ℕ → String) → ℕ → RunStatus → Fields
cancel_log isoformat now status = field "level" (text "warning") (
    field "message" (text "run cancellation requested")
      (field "status" (text (status_name status)) (field "timestamp" (text (isoformat now)) end)))

abbrev pub if_pending : {A : Type 0} → RunStatus → A → A → A
if_pending pending a b = a
if_pending _ a b = b

abbrev pub canceling : ℕ → RunStatus → RunUpdate
canceling now status = record {
  status = some canceled;
  started_at = none;
  completed_at = if_pending status (some now) none;
  error = some "canceled";
}

unfoldable pub cancel_open :
    (ℕ → String) → RunService → ℕ → String → RunRecord → RunService × Result ServiceError RunRecord
unfolding update_run append_log publish close_stream
cancel_open isoformat s now run_id r =
    let (store, found) = update_run s.store run_id (canceling now r.status) in
    elim found [
      | none ↦ (with_store s store, err (run_not_found run_id))
      | some u ↦
          let s₁ = with_store s (append_log store run_id (cancel_log isoformat now r.status)).0 in
          let s₂ =
            publish s₁ run_id "status" "run_canceled"
              (field "previous_status" (text (status_name r.status)) end) none in
          (if_pending r.status (close_stream s₂ run_id) s₂, ok u)
    ]

unfoldable pub cancel_found :
    (ℕ → String)
    → RunService
    → ℕ
    → String
    → RunRecord
    → RunStatus
    → RunService × Result ServiceError RunRecord
unfolding cancel_open
cancel_found isoformat s now run_id r completed = (s, err (completed_not_cancelable run_id))
cancel_found isoformat s now run_id r canceled = (s, ok r)
cancel_found isoformat s now run_id r _ = cancel_open isoformat s now run_id r

unfoldable pub cancel_run :
    (ℕ → String) → RunService → ℕ → String → RunService × Result ServiceError RunRecord
unfolding get_run cancel_found
cancel_run isoformat s now run_id = elim (get_run s.store run_id) [
  | none ↦ (s, err (run_not_found run_id))
  | some r ↦ cancel_found isoformat s now run_id r r.status
]

unfoldable pub delete_service_run :
    RunService → String → RunService × Result ServiceError (Unit {0})
unfolding delete_run close_stream
delete_service_run s run_id =
    let (store, found) = delete_run s.store run_id in
    if found
    then (close_stream (with_store s store) run_id, ok tt)
    else (with_store s store, err (run_not_found run_id))
