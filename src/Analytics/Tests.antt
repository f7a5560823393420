-- ===== src/Analytics/Tests.antt =====
-- The theorems on the counts of events at concrete events.
use tirrad_exchange_system.Prelude.{
  ◌==◌, false, String, ◌≡◌, ◌⊎◌, true, List, [], ◌∷◌, length, count,
}
use tirrad_exchange_system.Prelude.Int.{pos, ltb_ℤ}
use tirrad_exchange_system.Prelude.Results.{ok, err}
use tirrad_exchange_system.Models.Events.{TesEngineEvent, trade_executed, order_canceled}
use tirrad_exchange_system.Analytics.{
  count_events, is_of_type, SimulationRunRecord, negative_commands, empty_run_id, build_run_record,
}
use tirrad_exchange_system.Analytics.Counts.{
  count_of, sum_counts, count_of-count_events, build_run_record-counts,
}

abbrev a_trade : TesEngineEvent
a_trade = trade_executed (record {
  price = pos 100;
  qty = pos 5;
  maker_order_id = pos 1;
  taker_order_id = pos 2;
  symbol = "DEFAULT";
})

abbrev a_cancel : TesEngineEvent
a_cancel = order_canceled (record { order_id = pos 3; symbol = "DEFAULT" })

abbrev some_events : List TesEngineEvent
some_events = a_trade ∷ a_cancel ∷ a_trade ∷ []

count_of-count_events_example :
    (count_of "TradeExecuted" (count_events some_events)
      ≡ count (is_of_type "TradeExecuted") some_events)
    × (sum_counts (count_events some_events) ≡ length some_events)
count_of-count_events_example = count_of-count_events "TradeExecuted" some_events

abbrev run_name : String
run_name = "run-1"

build_run_record-counts_example :
    ((run_name ≡ "") × (build_run_record run_name some_events (pos 2) ≡ err empty_run_id))
    ⊎ (((run_name == "") ≡ false)
        × (ltb_ℤ (pos 2) (pos 0) ≡ true)
        × (build_run_record run_name some_events (pos 2) ≡ err negative_commands))
    ⊎ (r : SimulationRunRecord) × ((run_name == "") ≡ false)
      × (ltb_ℤ (pos 2) (pos 0) ≡ false)
      × (build_run_record run_name some_events (pos 2) ≡ ok r)
      × (r.run_id ≡ run_name)
      × (r.events ≡ some_events)
      × (r.summary.total_commands ≡ pos 2)
      × (r.summary.total_events ≡ sum_counts (count_events some_events))
      × (r.summary.total_trades ≡ count_of "TradeExecuted" (count_events some_events))
      × (r.summary.total_order_accepted ≡ count_of "OrderAccepted" (count_events some_events))
      × (r.summary.total_order_canceled ≡ count_of "OrderCanceled" (count_events some_events))
build_run_record-counts_example = build_run_record-counts run_name some_events (pos 2)
