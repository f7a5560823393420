-- ===== src/Services/Tests.antt =====
-- The theorems on the run service at a concrete service.
use tirrad_exchange_system.Prelude.{◌+◌, true, false, ◌==◌, if◌then◌else◌}
use tirrad_exchange_system.Services.Runs.{
  Outside, execute_pending_run, run_is_canceled, run_not_found, delete_service_run,
}
use tirrad_exchange_system.Services.Runs.Cancellation.{execute_pending_run-cancel_run}
use tirrad_exchange_system.Services.Reads.{require_run}
use tirrad_exchange_system.Services.Reads.Deletion.{require_run-delete_service_run}
use tirrad_exchange_system.Prelude.{
  ℕ, String, ◌≡◌, refl, none, some, [], ◌∷◌, ◌⊎◌, find, update_where,
}
use tirrad_exchange_system.Prelude.Results.{ok, err}
use tirrad_exchange_system.Json.{Value, Fields, text, end, field, int}
use tirrad_exchange_system.Prelude.Int.{pos}
use tirrad_exchange_system.Storage.Records.{
  session, running, completed, failed, canceled, RunRecord,
}
use tirrad_exchange_system.Storage.InMemory.{new_record, get_run}
use tirrad_exchange_system.Streaming.Messages
use tirrad_exchange_system.Streaming.Messages.{to_log}
use tirrad_exchange_system.Services.Stream.{RunOutput, RunService, publish}
use tirrad_exchange_system.Services.Runs.{
  finished, raised, start_run, type_and_config, execute_record, cancel_run,
  completed_not_cancelable,
}
use tirrad_exchange_system.Services.Runs.Outcomes.{
  stored_error, raised_error, execute_record-failed,
}
use tirrad_exchange_system.Services.Runs.Cancellation.{
  Canceled, cancel_run-Canceled, execute_record-cancel_run,
}

abbrev waiting_run : RunRecord
waiting_run = new_record "a" 10 session end

abbrev stream_outside : Messages.Outside
stream_outside = record {
  str_of = λ v. elim v [ text s ↦ s | _ ↦ "" ];
  isoformat = λ t. "2026-01-01T00:00:00Z";
  fromisoformat = λ s. none;
  dump = λ m. end;
  validate = λ fs. none;
}

abbrev one_run : RunService
one_run = record {
  store = record { records = waiting_run ∷ []; tournaments = []; tournament_children = [] };
  stream_service = some (record { outside = stream_outside; clock = λ n. 25 + n });
  stream = [];
}

abbrev str_of : Value → String
str_of (text s) = s
str_of _ = ""

abbrev clock_text : ℕ → String
clock_text n = "2026-01-01T00:00:00+00:00"

abbrev some_output : RunOutput
some_output = record {
  report = field "total_trades" (int (pos 3)) end;
  events = field "type" (text "TradeExecuted") end ∷ [];
  snapshots = [];
  accounts = [];
}

-- What the stream service writes when the run starts.
abbrev started_log : Fields
started_log = to_log stream_outside (record {
  run_id = "a";
  timestamp = 25;
  step = none;
  category = "status";
  type = "run_started";
  payload = type_and_config session end;
})

abbrev running_run : RunRecord
running_run = record waiting_run { status = running; started_at = some 20; logs = started_log ∷ [] }

waiting_test : get_run one_run.store "a" ≡ some waiting_run
unfolding get_run find
waiting_test = refl

running_test : get_run (start_run one_run 20 "a" session end).store "a" ≡ some running_run
unfolding start_run publish get_run find update_where
running_test = refl

execute_record-failed_example :
    ((execute_record str_of one_run 20 30 "a" session end (λ s. (s, raised "boom"))).1
      ≡ err (raised_error (raised "boom")))
    × (d : RunRecord) × (get_run
          (execute_record str_of one_run 20 30 "a" session end (λ s. (s, raised "boom"))).0.store
          "a"
        ≡ some d)
    × (d.status ≡ failed)
    × (d.error ≡ some (stored_error (raised "boom")))
    × (d.completed_at ≡ some 30)
    × (d.report ≡ end)
    × (d.events ≡ [])
execute_record-failed_example =
    execute_record-failed str_of one_run (start_run one_run 20 "a" session end) 20 30 "a" session
      end (λ s. (s, raised "boom")) (raised "boom") running_run refl refl running_test

cancel_run-Canceled_example :
    ((waiting_run.status ≡ completed)
      × (cancel_run clock_text one_run 20 "a" ≡ (one_run, err (completed_not_cancelable "a"))))
    ⊎ ((waiting_run.status ≡ canceled)
        × (cancel_run clock_text one_run 20 "a" ≡ (one_run, ok waiting_run)))
    ⊎ Canceled clock_text one_run 20 "a" waiting_run
cancel_run-Canceled_example = cancel_run-Canceled clock_text one_run 20 "a" waiting_run waiting_test

execute_record-cancel_run_example :
    (d : RunRecord) × (get_run
        (execute_record str_of one_run 20 40 "a" session end
          (λ y. ((cancel_run clock_text y 30 "a").0, finished some_output))).0.store
        "a"
      ≡ some d)
    × (d.status ≡ completed)
    × (d.error ≡ some "canceled")
execute_record-cancel_run_example =
    execute_record-cancel_run str_of clock_text one_run 20 30 40 "a" session end some_output
      waiting_run waiting_test

abbrev outside : Outside
outside = record {
  str_of = str_of;
  isoformat = clock_text;
  accepts_session = λ config. true;
  accepts_backtest = λ config. false;
  run_session = λ config i s. (s, finished some_output);
  run_backtest = λ config i s. (s, raised "boom");
}

execute_pending_run-cancel_run_example :
    execute_pending_run outside (cancel_run clock_text one_run 20 "a").0 30 40 "a"
    ≡ ((cancel_run clock_text one_run 20 "a").0, err (run_is_canceled "a"))
execute_pending_run-cancel_run_example =
    execute_pending_run-cancel_run outside one_run 20 30 40 "a" waiting_run waiting_test refl

require_run-delete_service_run_example :
    require_run (delete_service_run one_run "b").0 "a"
    ≡ (if "a" == "b" then err (run_not_found "a") else require_run one_run "a")
require_run-delete_service_run_example = require_run-delete_service_run one_run "b" "a"
