-- ===== src/Models/Raises/Events.antt =====
-- `parse_event` of sim/tes_models/events.py raises no KeyError.
use tirrad_exchange_system.Prelude.{◌≡◌, refl, true, String, [], ◌∷◌}
use tirrad_exchange_system.Json.{Value, Fields}
use tirrad_exchange_system.Models.Require.{require_dict}
use tirrad_exchange_system.Models.Events.Parsing.{parse_event, parse_event_data}
use tirrad_exchange_system.Models.Raises.{
  no_key_error, >>=-no_key_error, if-no_key_error, exact_keys-no_key_error, item-no_key_error,
  require_dict-no_key_error, require_text-no_key_error,
}
use tirrad_exchange_system.Models.Raises.Orders.{
  order_accepted-no_key_error, hidden_order_accepted-no_key_error,
  iceberg_order_accepted-no_key_error, iceberg_replenished-no_key_error,
  order_rejected-no_key_error, order_canceled-no_key_error, cancel_rejected-no_key_error,
  trade_executed-no_key_error, stop_order_accepted-no_key_error, stop_order_triggered-no_key_error,
  top_of_book-no_key_error, order_partially_filled-no_key_error, order_filled-no_key_error,
  order_expired-no_key_error,
}
use tirrad_exchange_system.Models.Raises.Market.{
  symbol_halted-no_key_error, symbol_resumed-no_key_error, price_band_updated-no_key_error,
  circuit_breaker_triggered-no_key_error, auction_started-no_key_error, auction_ended-no_key_error,
  auction_uncross-no_key_error, indicative_price_updated-no_key_error,
}

parse_event_data-no_key_error :
    (t : String) (d : Fields) → no_key_error (parse_event_data t d) ≡ true
unfolding parse_event_data
parse_event_data-no_key_error t d =
    search
      (
        if-no_key_error, order_accepted-no_key_error, hidden_order_accepted-no_key_error,
        iceberg_order_accepted-no_key_error, iceberg_replenished-no_key_error,
        order_rejected-no_key_error, order_canceled-no_key_error, cancel_rejected-no_key_error,
        trade_executed-no_key_error, stop_order_accepted-no_key_error,
        stop_order_triggered-no_key_error, top_of_book-no_key_error,
        order_partially_filled-no_key_error, order_filled-no_key_error, order_expired-no_key_error,
        symbol_halted-no_key_error, symbol_resumed-no_key_error, price_band_updated-no_key_error,
        circuit_breaker_triggered-no_key_error, auction_started-no_key_error,
        auction_ended-no_key_error, auction_uncross-no_key_error,
        indicative_price_updated-no_key_error,
      )
      depth 60

-- Whatever value it is given, `parse_event` returns an event, or raises one of its own exceptions or
-- the TypeError of an unhashable value; it raises no KeyError.
pub parse_event-no_key_error : (raw : Value) → no_key_error (parse_event raw) ≡ true
unfolding parse_event
parse_event-no_key_error raw =
    >>=-no_key_error (require_dict raw "event") _ (require_dict-no_key_error raw "event") λ event.
      exact_keys-no_key_error event ("type" ∷ "data" ∷ []) "event" _ λ h.
        search
          (
            >>=-no_key_error,
            item-no_key_error ("type" ∷ "data" ∷ []) "type" event h refl,
            item-no_key_error ("type" ∷ "data" ∷ []) "data" event h refl,
            require_text-no_key_error,
            require_dict-no_key_error,
            parse_event_data-no_key_error,
          )
          depth 30
