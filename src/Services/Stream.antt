-- ===== src/Services/Stream.antt =====
-- What the run service (sim/api/services/run_service.py) tells its stream service
-- (sim/api/services/stream_service.py), which writes it to the log of the run, and the texts it builds
-- for it.
use tirrad_exchange_system.Prelude.{
  ℕ, String, Option, none, some, List, [], ◌∷◌, ◌++◌, if◌then◌else◌, length,
}
use tirrad_exchange_system.Prelude.Int.{pos}
use tirrad_exchange_system.Prelude.Results.{Result, ok, err}
use tirrad_exchange_system.Json.{Value, null, bool, int, text, object, Fields, end, field, get}
use tirrad_exchange_system.Storage.Records.{InMemoryRunStore}
use tirrad_exchange_system.Storage.InMemory.{append_log}
use tirrad_exchange_system.Streaming.Messages.{
  Outside, StreamMessage, StreamError, MessageDict, coerce_dict, to_log,
}
use tirrad_exchange_system.Services.Values.{or_value, flag}

-- The result dict of a simulation.
pub record RunOutput : Type 0 where
  pub report : Fields
  pub events : List Fields
  pub snapshots : List Fields
  pub accounts : List Fields

-- A call of the stream service: publish(run_id, {category, type, payload, step}) or close(run_id).
pub data StreamCall : Type 0 where
  published : String → String → String → Fields → Option Value → StreamCall
  closed : String → StreamCall

-- The stream service that a run service is given: what it takes from outside, and the readings of the
-- clock for the messages without a timestamp, numbered by the calls before.
pub record StreamSide : Type 0 where
  pub outside : Outside
  pub clock : ℕ → ℕ

-- The store, the stream service, and the calls of it so far.
pub record RunService : Type 0 where
  pub store : InMemoryRunStore
  pub stream_service : Option StreamSide
  pub stream : List StreamCall

abbrev pub value_or_null : Option Value → Value
value_or_null none = null
value_or_null (some v) = v

-- {"category": category, "type": message_type, "payload": payload, "step": step}
abbrev pub message_dict : String → String → Fields → Option Value → MessageDict
message_dict category message_type payload step = record {
  timestamp = none;
  fields = field "category" (text category) (
      field "type" (text message_type)
        (field "payload" (object payload) (field "step" (value_or_null step) end)));
}

-- The message in the log of the run; the categories of the run service are all known.
abbrev pub persisted :
    StreamSide → InMemoryRunStore → String → Result StreamError StreamMessage → InMemoryRunStore
persisted p store run_id (ok m) = (append_log store run_id (to_log p.outside m)).0
persisted p store run_id (err e) = store

abbrev pub publish_with :
    Option StreamSide → RunService → String → String → String → Fields → Option Value → RunService
publish_with none s run_id category message_type payload step = s
publish_with (some p) s run_id category message_type payload step = record s {
  store = persisted p s.store run_id (
      coerce_dict p.outside run_id (p.clock (length s.stream))
        (message_dict category message_type payload step));
  stream = s.stream ++ published run_id category message_type payload step ∷ [];
}

-- The stream service keeps the message, and persists it in the run's log in the same store.
unfoldable pub publish : RunService → String → String → String → Fields → Option Value → RunService
unfolding append_log coerce_dict to_log
publish s run_id category message_type payload step =
    publish_with s.stream_service s run_id category message_type payload step

abbrev pub close_with : Option StreamSide → RunService → String → RunService
close_with none s run_id = s
close_with (some p) s run_id = record s { stream = s.stream ++ closed run_id ∷ [] }

unfoldable pub close_stream : RunService → String → RunService
close_stream s run_id = close_with s.stream_service s run_id

-- value if isinstance(value, int) else None: True and False are integers.
abbrev pub int_or_none : Option Value → Option Value
int_or_none (some (int n)) = some (int n)
int_or_none (some (bool b)) = some (bool b)
int_or_none _ = none

-- event.get("step") or data.get("step")
abbrev pub event_step : Fields → Option Value
event_step event = elim (get "data" event) [
  | some (object fields) ↦ int_or_none (or_value (get "step" event) (get "step" fields))
  | _ ↦ int_or_none (or_value (get "step" event) none)
]

-- str(event.get("type", "event"))
abbrev pub type_name : (Value → String) → Option Value → String
type_name str_of none = "event"
type_name str_of (some v) = str_of v

unfoldable pub publish_events : (Value → String) → String → List Fields → RunService → RunService
unfolding publish
publish_events str_of run_id [] s = s
publish_events str_of run_id (event ∷ events) s =
    publish_events str_of run_id events
      (publish s run_id "event" (type_name str_of (get "type" event)) event (event_step event))

unfoldable pub publish_snapshots : String → List Fields → RunService → RunService
unfolding publish
publish_snapshots run_id [] s = s
publish_snapshots run_id (snapshot ∷ snapshots) s =
    publish_snapshots run_id snapshots
      (publish s run_id "snapshot" "snapshot" snapshot (int_or_none (get "step" snapshot)))

unfoldable pub publish_result_streams :
    (Value → String) → RunService → String → Fields → RunOutput → RunService
unfolding publish_events publish_snapshots
publish_result_streams str_of s run_id config result =
    let s₁ =
      if flag (get "stream_events" config)
      then publish_events str_of run_id result.events s
      else s in
    if flag (get "stream_snapshots" config)
    then publish_snapshots run_id result.snapshots s₁
    else s₁

-- {key: report[key] for key in summary_keys if key in report}
abbrev keep_keys : List String → Fields → Fields
keep_keys [] report = end
keep_keys (k ∷ ks) report = elim (get k report) [
  | none ↦ keep_keys ks report
  | some v ↦ field k v (keep_keys ks report)
]

unfoldable pub report_summary : Fields → Fields
report_summary report =
    keep_keys
      ("total_steps" ∷ "total_orders" ∷ "total_trades" ∷ "total_volume" ∷ "ending_equity"
        ∷ "final_equity" ∷ "rejected_orders" ∷ "total_rejections" ∷ [])
      report

unfoldable pub completion_payload : RunOutput → Fields
unfolding report_summary
completion_payload result = field "report_summary" (object (report_summary result.report)) (
    field "total_events" (int (pos (length result.events))) (
      field "total_snapshots" (int (pos (length result.snapshots)))
        (field "total_accounts" (int (pos (length result.accounts))) end)))
