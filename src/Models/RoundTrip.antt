-- ===== src/Models/RoundTrip.antt =====
-- Parsing, by sim/tes_models/events.py, what sim/tes_serialization/events.py writes.
pub mod Fields
pub mod Orders
pub mod Market
use tirrad_exchange_system.Prelude.{
  ◌≡◌, refl, String, Bool, true, false, Option, none, some, ap, All, List, [], ◌∷◌, map, ◌==◌,
  arith,
}
use tirrad_exchange_system.Prelude.Results.{Result, ok, err, ◌>>=◌, map_result}
use tirrad_exchange_system.Json.{Value, array, array_of, items_of}
use tirrad_exchange_system.Models.Require.{Fault, wrong_keys}
use tirrad_exchange_system.Models.Events.{
  default_symbol, TesEngineEvent, order_accepted, hidden_order_accepted, iceberg_order_accepted,
  iceberg_replenished, order_rejected, order_canceled, cancel_rejected, trade_executed,
  stop_order_accepted, stop_order_triggered, top_of_book, order_partially_filled, order_filled,
  order_expired, symbol_halted, symbol_resumed, price_band_updated, circuit_breaker_triggered,
  auction_started, auction_ended, auction_uncross, indicative_price_updated,
}
use tirrad_exchange_system.Models.Events.Parsing.{parse_event, parse_events}
use tirrad_exchange_system.Models.Serialization.{serialize_event, serialize_events, event_to_dict}
use Fields.{Restored}
use Orders.{
  Restored-order_accepted, Restored-hidden_order_accepted, Restored-iceberg_order_accepted,
  Restored-iceberg_replenished, Restored-order_rejected, Restored-order_canceled,
  Restored-cancel_rejected, Restored-trade_executed, Restored-stop_order_accepted,
  Restored-stop_order_triggered, Restored-top_of_book, Restored-order_partially_filled,
  Restored-order_filled, Restored-order_expired,
}
use Market.{
  Restored-symbol_halted, Restored-symbol_resumed, Restored-price_band_updated,
  Restored-circuit_breaker_triggered, Restored-auction_started, Restored-auction_ended,
  Restored-auction_uncross, Restored-indicative_price_updated,
}

-- The symbol of an event whose parser demands the key "symbol".
abbrev pub demanded_symbol : TesEngineEvent → Option String
demanded_symbol (symbol_halted d) = some d.symbol
demanded_symbol (symbol_resumed d) = some d.symbol
demanded_symbol (price_band_updated d) = some d.symbol
demanded_symbol (circuit_breaker_triggered d) = some d.symbol
demanded_symbol (auction_started d) = some d.symbol
demanded_symbol (auction_ended d) = some d.symbol
demanded_symbol (auction_uncross d) = some d.symbol
demanded_symbol (indicative_price_updated d) = some d.symbol
demanded_symbol e = none

abbrev names_default : Option String → Bool
names_default none = false
names_default (some s) = s == default_symbol

-- The serializer drops a symbol that the parser demands.
abbrev pub loses_symbol : TesEngineEvent → Bool
loses_symbol e = names_default (demanded_symbol e)

-- What `serialize_event` writes, `parse_event` reads back as the same event, for every event of an
-- order or a trade, and for every market control or auction event whose symbol is not "DEFAULT".
pub parse_event-serialize :
    (e : TesEngineEvent) → loses_symbol e ≡ false → parse_event (serialize_event e) ≡ ok e
parse_event-serialize (order_accepted d) h = Restored-order_accepted d
parse_event-serialize (hidden_order_accepted d) h = Restored-hidden_order_accepted d
parse_event-serialize (iceberg_order_accepted d) h = Restored-iceberg_order_accepted d
parse_event-serialize (iceberg_replenished d) h = Restored-iceberg_replenished d
parse_event-serialize (order_rejected d) h = Restored-order_rejected d
parse_event-serialize (order_canceled d) h = Restored-order_canceled d
parse_event-serialize (cancel_rejected d) h = Restored-cancel_rejected d
parse_event-serialize (trade_executed d) h = Restored-trade_executed d
parse_event-serialize (stop_order_accepted d) h = Restored-stop_order_accepted d
parse_event-serialize (stop_order_triggered d) h = Restored-stop_order_triggered d
parse_event-serialize (top_of_book d) h = Restored-top_of_book d
parse_event-serialize (order_partially_filled d) h = Restored-order_partially_filled d
parse_event-serialize (order_filled d) h = Restored-order_filled d
parse_event-serialize (order_expired d) h = Restored-order_expired d
parse_event-serialize (symbol_halted d) h = Restored-symbol_halted d h
parse_event-serialize (symbol_resumed d) h = Restored-symbol_resumed d h
parse_event-serialize (price_band_updated d) h = Restored-price_band_updated d h
parse_event-serialize (circuit_breaker_triggered d) h = Restored-circuit_breaker_triggered d h
parse_event-serialize (auction_started d) h = Restored-auction_started d h
parse_event-serialize (auction_ended d) h = Restored-auction_ended d h
parse_event-serialize (auction_uncross d) h = Restored-auction_uncross d h
parse_event-serialize (indicative_price_updated d) h = Restored-indicative_price_updated d h

-- A market control or auction event of the symbol "DEFAULT" is written without its symbol, and
-- `parse_event` refuses what was written for its keys.
pub parse_event-refuses :
    (e : TesEngineEvent)
    → loses_symbol e ≡ true
    → (name : String) × (parse_event (serialize_event e) ≡ err (wrong_keys name))
unfolding parse_event serialize_event
parse_event-refuses (symbol_halted d) h = ("SymbolHalted.data", rw h)
parse_event-refuses (symbol_resumed d) h = ("SymbolResumed.data", rw h)
parse_event-refuses (price_band_updated d) h = ("PriceBandUpdated.data", rw h)
parse_event-refuses (circuit_breaker_triggered d) h = ("CircuitBreakerTriggered.data", rw h)
parse_event-refuses (auction_started d) h = ("AuctionStarted.data", rw h)
parse_event-refuses (auction_ended d) h = ("AuctionEnded.data", rw h)
parse_event-refuses (auction_uncross d) h = ("AuctionUncross.data", rw h)
parse_event-refuses (indicative_price_updated d) h = ("IndicativePriceUpdated.data", rw h)
parse_event-refuses (order_accepted d) h = cc
parse_event-refuses e h = cc

array_of-items : (vs : List Value) → items_of (array_of vs) ≡ vs
array_of-items [] = refl
array_of-items (v ∷ vs) = ap (◌∷◌ v) (array_of-items vs)

parse_event-dict :
    (e : TesEngineEvent) → loses_symbol e ≡ false → parse_event (event_to_dict e) ≡ ok e
unfolding serialize_event
parse_event-dict e h = parse_event-serialize e h

map_result-serialize :
    (es : List TesEngineEvent)
    → All (λ e. loses_symbol e ≡ false) es
    → map_result parse_event (map event_to_dict es) ≡ ok es
unfolding map_result
map_result-serialize [] h = refl
map_result-serialize (e ∷ es) h =
    rw (parse_event-dict e h.0) (rw (map_result-serialize es h.1) refl)

-- A list of events of orders and trades, and of market controls and auctions whose symbol is not
-- "DEFAULT", is read back whole, in its order, from what `serialize_events` writes.
pub parse_events-serialize :
    (es : List TesEngineEvent)
    → All (λ e. loses_symbol e ≡ false) es
    → parse_events (array (array_of (serialize_events es))) ≡ ok es
unfolding serialize_events
parse_events-serialize es h = unfold parse_events in rw array_of-items (map_result-serialize es h)
