-- ===== src/Services/Reads.antt =====
-- The summaries and the look-ups of `RunService` (sim/api/services/run_service.py). `_to_detail` gives
-- the summary with the report.
pub mod Deletion
use tirrad_exchange_system.Prelude.{
  ℕ, String, Bool, true, false, not, ◌≡◌, ◌∙◌, ◌==◌, ap, refl, arith, Option, none, some, List, [],
  ◌∷◌, map, if◌then◌else◌, or_else, eq_refl,
}
use tirrad_exchange_system.Prelude.Int.{ℤ, pos, eqb_ℤ}
use tirrad_exchange_system.Prelude.Results.{Result, ok, err}
use tirrad_exchange_system.Json.{Value, Fields, int, text, get}
use tirrad_exchange_system.Storage.Records.{RunType, RunStatus, RunRecord, InMemoryRunStore}
use tirrad_exchange_system.Storage.InMemory.{
  get_run, list_runs, get_report, get_events, get_snapshots, get_accounts, get_logs, delete_run,
}
use tirrad_exchange_system.Storage.Laws.{get_run-delete_run}
use tirrad_exchange_system.Services.Stream.{RunService, report_summary, close_stream}
use tirrad_exchange_system.Services.Runs.{ServiceError, run_not_found, delete_service_run}

unfoldable pub string_field : Fields → String → Option String
string_field source key = elim (get key source) [ some (text s) ↦ some s | _ ↦ none ]

unfoldable pub summary_int : Fields → String → Option ℤ
summary_int source key = elim (get key source) [ some (int n) ↦ some n | _ ↦ none ]

-- a or b, on numbers: None and 0 are passed over.
abbrev or_int : Option ℤ → Option ℤ → Option ℤ
or_int none b = b
or_int (some n) b = if eqb_ℤ n (pos 0) then b else some n

pub record RunSummary : Type 0 where
  pub run_id : String
  pub run_type : RunType
  pub status : RunStatus
  pub created_at : ℕ
  pub started_at : Option ℕ
  pub completed_at : Option ℕ
  pub config : Fields
  pub report_summary : Fields
  pub error : Option String
  pub scenario : Option String
  pub strategy : Option String
  pub step_count : ℤ
  pub trade_count : ℤ
  pub rejection_count : ℤ

unfoldable pub to_summary : RunRecord → RunSummary
unfolding report_summary string_field summary_int
to_summary r =
    let summary = report_summary r.report in
    record {
      run_id = r.run_id;
      run_type = r.run_type;
      status = r.status;
      created_at = r.created_at;
      started_at = r.started_at;
      completed_at = r.completed_at;
      config = r.config;
      report_summary = summary;
      error = r.error;
      scenario = string_field r.config "scenario";
      strategy = string_field r.config "strategy";
      step_count =
          or_else
            (or_int (summary_int summary "total_steps")
              (or_int (summary_int r.config "steps") none))
            (pos 0);
      trade_count = or_else (or_int (summary_int summary "total_trades") none) (pos 0);
      rejection_count =
          or_else
            (or_int (summary_int summary "total_rejections")
              (or_int (summary_int summary "rejected_orders") none))
            (pos 0);
    }

pub record RunDetail : Type 0 where
  pub summary : RunSummary
  pub report : Fields

unfoldable pub to_detail : RunRecord → RunDetail
unfolding to_summary
to_detail r = record { summary = to_summary r; report = r.report }

-- `if x is None: raise RunNotFoundError(run_id)`
abbrev pub or_not_found : {A : Type 0} → String → Option A → Result ServiceError A
or_not_found run_id none = err (run_not_found run_id)
or_not_found run_id (some a) = ok a

unfoldable pub list_run_summaries : RunService → List RunSummary
unfolding list_runs to_summary
list_run_summaries s = map to_summary (list_runs s.store)

unfoldable pub require_run : RunService → String → Result ServiceError RunRecord
unfolding get_run
require_run s run_id = or_not_found run_id (get_run s.store run_id)

unfoldable pub detail_of : Result ServiceError RunRecord → Result ServiceError RunDetail
unfolding to_detail
detail_of (ok r) = ok (to_detail r)
detail_of (err e) = err e

unfoldable pub get_run_detail : RunService → String → Result ServiceError RunDetail
unfolding require_run detail_of
get_run_detail s run_id = detail_of (require_run s run_id)

unfoldable pub get_run_report : RunService → String → Result ServiceError Fields
unfolding get_report
get_run_report s run_id = or_not_found run_id (get_report s.store run_id)

unfoldable pub get_run_events :
    RunService
    → String
    → Option String
    → Option String
    → Option ℤ
    → ℤ
    → Result ServiceError (List Fields)
unfolding get_events
get_run_events s run_id symbol event_type limit offset =
    or_not_found run_id (get_events s.store run_id symbol event_type limit offset)

unfoldable pub get_run_snapshots :
    RunService → String → Option String → Option ℤ → ℤ → Result ServiceError (List Fields)
unfolding get_snapshots
get_run_snapshots s run_id symbol limit offset =
    or_not_found run_id (get_snapshots s.store run_id symbol limit offset)

-- The store is called without limit and offset, which are None and 0 by default.
unfoldable pub get_run_accounts :
    (Option Value → String)
    → RunService
    → String
    → Option String
    → Option String
    → Result ServiceError (List Fields)
unfolding get_accounts
get_run_accounts str_of s run_id account_id symbol =
    or_not_found run_id (get_accounts str_of s.store run_id account_id symbol none (pos 0))

unfoldable pub get_run_logs : RunService → String → Option ℤ → ℤ → Result ServiceError (List Fields)
unfolding get_logs
get_run_logs s run_id limit offset = or_not_found run_id (get_logs s.store run_id limit offset)
