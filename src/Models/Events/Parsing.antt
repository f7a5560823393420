-- ===== src/Models/Events/Parsing.antt =====
-- `parse_event` and `parse_events` of sim/tes_models/events.py.
use tirrad_exchange_system.Prelude.{String, [], ◌∷◌, List, ◌==◌, if◌then◌else◌}
use tirrad_exchange_system.Prelude.Results.{Result, err, ◌>>=◌, ◌>>◌, map_result}
use tirrad_exchange_system.Json.{Value, Fields, array, items_of}
use tirrad_exchange_system.Models.Require.{
  Fault, unknown_type, not_a_list, require_dict, require_exact_keys, item, require_text,
}
use tirrad_exchange_system.Models.Events.{TesEngineEvent}
use tirrad_exchange_system.Models.Events.OrderParsing.{
  parse_order_accepted, parse_hidden_order_accepted, parse_iceberg_order_accepted,
  parse_iceberg_replenished, parse_order_rejected, parse_order_canceled, parse_cancel_rejected,
  parse_trade_executed, parse_stop_order_accepted, parse_stop_order_triggered, parse_top_of_book,
  parse_order_partially_filled, parse_order_filled, parse_order_expired,
}
use tirrad_exchange_system.Models.Events.MarketParsing.{
  parse_symbol_halted, parse_symbol_resumed, parse_price_band_updated,
  parse_circuit_breaker_triggered, parse_auction_started, parse_auction_ended,
  parse_auction_uncross, parse_indicative_price_updated,
}

-- The ladder of tests on `event_type`.
unfoldable pub parse_event_data : String → Fields → Result Fault TesEngineEvent
unfolding parse_order_accepted parse_hidden_order_accepted parse_iceberg_order_accepted
    parse_iceberg_replenished parse_order_rejected parse_order_canceled parse_cancel_rejected
    parse_trade_executed parse_stop_order_accepted parse_stop_order_triggered parse_top_of_book
    parse_order_partially_filled parse_order_filled parse_order_expired parse_symbol_halted
    parse_symbol_resumed parse_price_band_updated parse_circuit_breaker_triggered
    parse_auction_started parse_auction_ended parse_auction_uncross parse_indicative_price_updated
parse_event_data t d =
    if t == "OrderAccepted"
    then parse_order_accepted d
    else if t == "HiddenOrderAccepted"
    then parse_hidden_order_accepted d
    else if t == "IcebergOrderAccepted"
    then parse_iceberg_order_accepted d
    else if t == "IcebergReplenished"
    then parse_iceberg_replenished d
    else if t == "OrderRejected"
    then parse_order_rejected d
    else if t == "OrderCanceled"
    then parse_order_canceled d
    else if t == "CancelRejected"
    then parse_cancel_rejected d
    else if t == "TradeExecuted"
    then parse_trade_executed d
    else if t == "StopOrderAccepted"
    then parse_stop_order_accepted d
    else if t == "StopOrderTriggered"
    then parse_stop_order_triggered d
    else if t == "TopOfBook"
    then parse_top_of_book d
    else if t == "OrderPartiallyFilled"
    then parse_order_partially_filled d
    else if t == "OrderFilled"
    then parse_order_filled d
    else if t == "OrderExpired"
    then parse_order_expired d
    else if t == "SymbolHalted"
    then parse_symbol_halted d
    else if t == "SymbolResumed"
    then parse_symbol_resumed d
    else if t == "PriceBandUpdated"
    then parse_price_band_updated d
    else if t == "CircuitBreakerTriggered"
    then parse_circuit_breaker_triggered d
    else if t == "AuctionStarted"
    then parse_auction_started d
    else if t == "AuctionEnded"
    then parse_auction_ended d
    else if t == "AuctionUncross"
    then parse_auction_uncross d
    else if t == "IndicativePriceUpdated"
    then parse_indicative_price_updated d
    else err (unknown_type t)

unfoldable pub parse_event : Value → Result Fault TesEngineEvent
unfolding require_dict require_exact_keys item require_text parse_event_data
parse_event raw = do
  event ← require_dict raw "event"
  require_exact_keys event ("type" ∷ "data" ∷ []) "event"
  event_type ← require_text (← item "type" event) "type"
  d ← require_dict (← item "data" event) "event.data"
  parse_event_data event_type d

unfoldable pub parse_events : Value → Result Fault (List TesEngineEvent)
unfolding parse_event map_result
parse_events (array raw_events) = map_result parse_event (items_of raw_events)
parse_events _ = err not_a_list
