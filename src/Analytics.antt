-- ===== src/Analytics.antt =====
-- Counts of events: sim/tes_analytics/summary.py, sim/tes_simulation/results.py, and the result and the
-- check of sim/tes_replay/replay.py and sim/tes_replay/validation.py.
pub mod Counts
pub mod Tests
use tirrad_exchange_system.Prelude.{
  ℕ, ◌+◌, String, Bool, true, false, not, ◌&&◌, List, [], ◌∷◌, ◌==◌, if◌then◌else◌, length, count,
  any, select, map,
}
use tirrad_exchange_system.Prelude.Int.{ℤ, pos, ltb_ℤ}
use tirrad_exchange_system.Prelude.Results.{Result, ok, err, ◌>>=◌}
use tirrad_exchange_system.Models.Events.{
  TesEngineEvent, event_type, order_accepted, order_rejected, order_canceled, cancel_rejected,
  trade_executed, top_of_book,
}

-- An entry of the dict of counts.
pub record EventCount : Type 0 where
  pub name : String
  pub total : ℕ

-- counts[name] = counts.get(name, 0) + 1
unfoldable pub count_one_more : String → List EventCount → List EventCount
count_one_more name [] = record { name = name; total = 1 } ∷ []
count_one_more name (c ∷ cs) =
    let rest = c ∷ count_one_more name cs in
    if c.name == name then record c { total = c.total + 1 } ∷ cs else rest

-- The loop of count_events.
unfoldable pub count_more : List EventCount → List TesEngineEvent → List EventCount
unfolding count_one_more
count_more counts [] = counts
count_more counts (event ∷ events) = count_more (count_one_more (event_type event) counts) events

unfoldable pub count_events : List TesEngineEvent → List EventCount
unfolding count_more
count_events events = count_more [] events

abbrev pub is_of_type : String → TesEngineEvent → Bool
is_of_type name event = event_type event == name

unfoldable pub count_trades : List TesEngineEvent → ℕ
count_trades events = count (is_of_type "TradeExecuted") events

pub record SimulationSummary : Type 0 where
  pub total_commands : ℤ
  pub total_events : ℕ
  pub total_trades : ℕ
  pub total_order_accepted : ℕ
  pub total_order_canceled : ℕ

pub record SimulationRunRecord : Type 0 where
  pub run_id : String
  pub summary : SimulationSummary
  pub events : List TesEngineEvent

-- The ValueError of each check.
pub data ResultError : Type 0 where
  negative_commands empty_run_id not_an_event : ResultError

unfoldable pub build_simulation_summary :
    List TesEngineEvent → ℤ → Result ResultError SimulationSummary
build_simulation_summary events total_commands =
    if ltb_ℤ total_commands (pos 0)
    then err negative_commands
    else ok (record {
      total_commands = total_commands;
      total_events = length events;
      total_trades = count (is_of_type "TradeExecuted") events;
      total_order_accepted = count (is_of_type "OrderAccepted") events;
      total_order_canceled = count (is_of_type "OrderCanceled") events;
    })

abbrev pub with_summary :
    String
    → List TesEngineEvent
    → Result ResultError SimulationSummary
    → Result ResultError SimulationRunRecord
with_summary run_id events (ok summary) =
    ok (record { run_id = run_id; summary = summary; events = events })
with_summary run_id events (err e) = err e

unfoldable pub build_run_record :
    String → List TesEngineEvent → ℤ → Result ResultError SimulationRunRecord
unfolding build_simulation_summary
build_run_record run_id events total_commands =
    if run_id == ""
    then err empty_run_id
    else with_summary run_id events (build_simulation_summary events total_commands)

pub record ReplayResult : Type 0 where
  pub events : List TesEngineEvent
  pub total_events : ℕ
  pub total_trades : ℕ

unfoldable pub replay_events : List TesEngineEvent → ReplayResult
replay_events events = record {
  events = events;
  total_events = length events;
  total_trades = count (is_of_type "TradeExecuted") events;
}

-- The isinstance test.
unfoldable pub is_replayable : TesEngineEvent → Bool
is_replayable (order_accepted d) = true
is_replayable (order_rejected d) = true
is_replayable (order_canceled d) = true
is_replayable (cancel_rejected d) = true
is_replayable (trade_executed d) = true
is_replayable (top_of_book d) = true
is_replayable _ = false

-- validate_replay_events, on a list of events.
unfoldable pub validate_replay_events :
    List TesEngineEvent → Result ResultError (List TesEngineEvent)
unfolding is_replayable
validate_replay_events events =
    if any (λ event. not (is_replayable event)) events then err not_an_event else ok events
