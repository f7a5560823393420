-- ===== src/Models/Serialization.antt =====
-- sim/tes_serialization/events.py.
use tirrad_exchange_system.Prelude.{Option, none, some, List, map, Bool, false, ◌==◌, if◌then◌else◌}
use tirrad_exchange_system.Json.{Value, Fields, end, field, text, object, int, null, get, remove}
use tirrad_exchange_system.Models.Require.{side_name, phase_name, reason_name}
use tirrad_exchange_system.Prelude.Int.{ℤ}
use tirrad_exchange_system.Models.Events.{
  default_symbol, TesEngineEvent, event_type, order_accepted, hidden_order_accepted,
  iceberg_order_accepted, iceberg_replenished, order_rejected, order_canceled, cancel_rejected,
  trade_executed, stop_order_accepted, stop_order_triggered, top_of_book, order_partially_filled,
  order_filled, order_expired, symbol_halted, symbol_resumed, price_band_updated,
  circuit_breaker_triggered, auction_started, auction_ended, auction_uncross,
  indicative_price_updated,
}

abbrev pub optional_int : Option ℤ → Value
optional_int none = null
optional_int (some n) = int n

-- asdict(event.data): the fields of the dataclass in their order.
unfoldable pub as_dict : TesEngineEvent → Fields
as_dict (order_accepted d) = field "order_id" (int d.order_id) (
    field "side" (text (side_name d.side))
      (field "price" (int d.price) (field "qty" (int d.qty) (field "symbol" (text d.symbol) end))))
as_dict (hidden_order_accepted d) = field "order_id" (int d.order_id) (
    field "side" (text (side_name d.side)) (
      field "price" (int d.price)
        (field "total_qty" (int d.total_qty) (field "symbol" (text d.symbol) end))))
as_dict (iceberg_order_accepted d) = field "order_id" (int d.order_id) (
    field "side" (text (side_name d.side)) (
      field "price" (int d.price) (
        field "total_qty" (int d.total_qty) (
          field "display_qty" (int d.display_qty) (
            field "reserve_qty" (int d.reserve_qty) (
              field "hidden_remaining" (int d.hidden_remaining) (
                field "current_visible_qty" (int d.current_visible_qty)
                  (field "symbol" (text d.symbol) end))))))))
as_dict (iceberg_replenished d) = field "order_id" (int d.order_id) (
    field "side" (text (side_name d.side)) (
      field "price" (int d.price) (
        field "replenished_qty" (int d.replenished_qty) (
          field "reserve_qty" (int d.reserve_qty) (
            field "hidden_remaining" (int d.hidden_remaining) (
              field "total_remaining_qty" (int d.total_remaining_qty)
                (field "symbol" (text d.symbol) end)))))))
as_dict (order_rejected d) = field "side" (text (side_name d.side)) (
    field "price" (int d.price) (
      field "qty" (int d.qty)
        (field "reason" (text (reason_name d.reason)) (field "symbol" (text d.symbol) end))))
as_dict (order_canceled d) = field "order_id" (int d.order_id) (field "symbol" (text d.symbol) end)
as_dict (cancel_rejected d) =
    field "order_id" (int d.order_id)
      (field "reason" (text (reason_name d.reason)) (field "symbol" (text d.symbol) end))
as_dict (trade_executed d) = field "price" (int d.price) (
    field "qty" (int d.qty) (
      field "maker_order_id" (int d.maker_order_id)
        (field "taker_order_id" (int d.taker_order_id) (field "symbol" (text d.symbol) end))))
as_dict (stop_order_accepted d) = field "order_id" (int d.order_id) (
    field "side" (text (side_name d.side)) (
      field "stop_price" (int d.stop_price) (
        field "qty" (int d.qty)
          (field "limit_price" (optional_int d.limit_price) (field "symbol" (text d.symbol) end)))))
as_dict (stop_order_triggered d) = field "order_id" (int d.order_id) (
    field "resulting_order_id" (int d.resulting_order_id) (
      field "side" (text (side_name d.side)) (
        field "stop_price" (int d.stop_price) (
          field "qty" (int d.qty) (
            field "limit_price" (optional_int d.limit_price)
              (field "symbol" (text d.symbol) end))))))
as_dict (top_of_book d) =
    field "best_bid" (optional_int d.best_bid)
      (field "best_ask" (optional_int d.best_ask) (field "symbol" (text d.symbol) end))
as_dict (order_partially_filled d) = field "order_id" (int d.order_id) (
    field "last_fill_qty" (int d.last_fill_qty)
      (field "remaining_qty" (int d.remaining_qty) (field "symbol" (text d.symbol) end)))
as_dict (order_filled d) =
    field "order_id" (int d.order_id)
      (field "last_fill_qty" (int d.last_fill_qty) (field "symbol" (text d.symbol) end))
as_dict (order_expired d) = field "order_id" (int d.order_id) (field "symbol" (text d.symbol) end)
as_dict (symbol_halted d) = field "symbol" (text d.symbol) (field "reason" (text d.reason) end)
as_dict (symbol_resumed d) = field "symbol" (text d.symbol) end
as_dict (price_band_updated d) = field "symbol" (text d.symbol) (
    field "lower_price" (optional_int d.lower_price)
      (field "upper_price" (optional_int d.upper_price) end))
as_dict (circuit_breaker_triggered d) =
    field "symbol" (text d.symbol)
      (field "price" (int d.price) (field "reason" (text d.reason) end))
as_dict (auction_started d) =
    field "symbol" (text d.symbol) (field "phase" (text (phase_name d.phase)) end)
as_dict (auction_ended d) =
    field "symbol" (text d.symbol) (field "phase" (text (phase_name d.phase)) end)
as_dict (auction_uncross d) = field "symbol" (text d.symbol) (
    field "price" (int d.price) (field "qty" (int d.qty) (field "imbalance" (int d.imbalance) end)))
as_dict (indicative_price_updated d) = field "symbol" (text d.symbol) (
    field "price" (optional_int d.price)
      (field "qty" (int d.qty) (field "imbalance" (int d.imbalance) end)))

-- data.get("symbol") == DEFAULT_SYMBOL
abbrev is_default : Option Value → Bool
is_default (some (text s)) = s == default_symbol
is_default _ = false

unfoldable pub drop_default_symbol : Fields → Fields
drop_default_symbol d = if is_default (get "symbol" d) then remove "symbol" d else d

unfoldable pub event_to_dict : TesEngineEvent → Value
unfolding as_dict drop_default_symbol
event_to_dict e = object (
    field "type" (text (event_type e))
      (field "data" (object (drop_default_symbol (as_dict e))) end))

unfoldable pub serialize_event : TesEngineEvent → Value
unfolding event_to_dict
serialize_event e = event_to_dict e

unfoldable pub serialize_events : List TesEngineEvent → List Value
unfolding event_to_dict
serialize_events es = map event_to_dict es
