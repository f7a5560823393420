-- ===== src/Models/Events/OrderParsing.antt =====
-- The order and trade branches of `parse_event` in sim/tes_models/events.py, one function for each `if`.
use tirrad_exchange_system.Prelude.{[], ◌∷◌}
use tirrad_exchange_system.Prelude.Results.{Result, ok, ◌>>=◌, ◌>>◌}
use tirrad_exchange_system.Json.{Fields}
use tirrad_exchange_system.Models.Require.{
  Fault, require_event_keys, int_field, optional_int_field, side_field, reason_field,
  optional_symbol,
}
use tirrad_exchange_system.Models.Events.{
  TesEngineEvent, order_accepted, hidden_order_accepted, iceberg_order_accepted,
  iceberg_replenished, order_rejected, order_canceled, cancel_rejected, trade_executed,
  stop_order_accepted, stop_order_triggered, top_of_book, order_partially_filled, order_filled,
  order_expired,
}

unfoldable pub parse_order_accepted : Fields → Result Fault TesEngineEvent
unfolding require_event_keys int_field side_field optional_symbol
parse_order_accepted d = do
  require_event_keys d ("order_id" ∷ "side" ∷ "price" ∷ "qty" ∷ []) "OrderAccepted.data"
  order_id ← int_field "order_id" d
  side ← side_field d
  price ← int_field "price" d
  qty ← int_field "qty" d
  symbol ← optional_symbol d
  ok (
      order_accepted
        (record { order_id = order_id; side = side; price = price; qty = qty; symbol = symbol }))

unfoldable pub parse_hidden_order_accepted : Fields → Result Fault TesEngineEvent
unfolding require_event_keys int_field side_field optional_symbol
parse_hidden_order_accepted d = do
  require_event_keys d ("order_id" ∷ "side" ∷ "price" ∷ "total_qty" ∷ []) "HiddenOrderAccepted.data"
  order_id ← int_field "order_id" d
  side ← side_field d
  price ← int_field "price" d
  total_qty ← int_field "total_qty" d
  symbol ← optional_symbol d
  ok (
      hidden_order_accepted (record {
        order_id = order_id;
        side = side;
        price = price;
        total_qty = total_qty;
        symbol = symbol;
      }))

unfoldable pub parse_iceberg_order_accepted : Fields → Result Fault TesEngineEvent
unfolding require_event_keys int_field side_field optional_symbol
parse_iceberg_order_accepted d = do
  require_event_keys d
      ("order_id" ∷ "side" ∷ "price" ∷ "total_qty" ∷ "display_qty" ∷ "reserve_qty"
        ∷ "hidden_remaining" ∷ "current_visible_qty" ∷ [])
      "IcebergOrderAccepted.data"
  order_id ← int_field "order_id" d
  side ← side_field d
  price ← int_field "price" d
  total_qty ← int_field "total_qty" d
  display_qty ← int_field "display_qty" d
  reserve_qty ← int_field "reserve_qty" d
  hidden_remaining ← int_field "hidden_remaining" d
  current_visible_qty ← int_field "current_visible_qty" d
  symbol ← optional_symbol d
  ok (
      iceberg_order_accepted (record {
        order_id = order_id;
        side = side;
        price = price;
        total_qty = total_qty;
        display_qty = display_qty;
        reserve_qty = reserve_qty;
        hidden_remaining = hidden_remaining;
        current_visible_qty = current_visible_qty;
        symbol = symbol;
      }))

unfoldable pub parse_iceberg_replenished : Fields → Result Fault TesEngineEvent
unfolding require_event_keys int_field side_field optional_symbol
parse_iceberg_replenished d = do
  require_event_keys d
      ("order_id" ∷ "side" ∷ "price" ∷ "replenished_qty" ∷ "reserve_qty" ∷ "hidden_remaining"
        ∷ "total_remaining_qty" ∷ [])
      "IcebergReplenished.data"
  order_id ← int_field "order_id" d
  side ← side_field d
  price ← int_field "price" d
  replenished_qty ← int_field "replenished_qty" d
  reserve_qty ← int_field "reserve_qty" d
  hidden_remaining ← int_field "hidden_remaining" d
  total_remaining_qty ← int_field "total_remaining_qty" d
  symbol ← optional_symbol d
  ok (
      iceberg_replenished (record {
        order_id = order_id;
        side = side;
        price = price;
        replenished_qty = replenished_qty;
        reserve_qty = reserve_qty;
        hidden_remaining = hidden_remaining;
        total_remaining_qty = total_remaining_qty;
        symbol = symbol;
      }))

unfoldable pub parse_order_rejected : Fields → Result Fault TesEngineEvent
unfolding require_event_keys side_field int_field reason_field optional_symbol
parse_order_rejected d = do
  require_event_keys d ("side" ∷ "price" ∷ "qty" ∷ "reason" ∷ []) "OrderRejected.data"
  side ← side_field d
  price ← int_field "price" d
  qty ← int_field "qty" d
  reason ← reason_field d
  symbol ← optional_symbol d
  ok (
      order_rejected
        (record { side = side; price = price; qty = qty; reason = reason; symbol = symbol }))

unfoldable pub parse_order_canceled : Fields → Result Fault TesEngineEvent
unfolding require_event_keys int_field optional_symbol
parse_order_canceled d = do
  require_event_keys d ("order_id" ∷ []) "OrderCanceled.data"
  order_id ← int_field "order_id" d
  symbol ← optional_symbol d
  ok (order_canceled (record { order_id = order_id; symbol = symbol }))

unfoldable pub parse_cancel_rejected : Fields → Result Fault TesEngineEvent
unfolding require_event_keys int_field reason_field optional_symbol
parse_cancel_rejected d = do
  require_event_keys d ("order_id" ∷ "reason" ∷ []) "CancelRejected.data"
  order_id ← int_field "order_id" d
  reason ← reason_field d
  symbol ← optional_symbol d
  ok (cancel_rejected (record { order_id = order_id; reason = reason; symbol = symbol }))

unfoldable pub parse_trade_executed : Fields → Result Fault TesEngineEvent
unfolding require_event_keys int_field optional_symbol
parse_trade_executed d = do
  require_event_keys d ("price" ∷ "qty" ∷ "maker_order_id" ∷ "taker_order_id" ∷ [])
      "TradeExecuted.data"
  price ← int_field "price" d
  qty ← int_field "qty" d
  maker_order_id ← int_field "maker_order_id" d
  taker_order_id ← int_field "taker_order_id" d
  symbol ← optional_symbol d
  ok (
      trade_executed (record {
        price = price;
        qty = qty;
        maker_order_id = maker_order_id;
        taker_order_id = taker_order_id;
        symbol = symbol;
      }))

unfoldable pub parse_stop_order_accepted : Fields → Result Fault TesEngineEvent
unfolding require_event_keys int_field side_field optional_int_field optional_symbol
parse_stop_order_accepted d = do
  require_event_keys d ("order_id" ∷ "side" ∷ "stop_price" ∷ "qty" ∷ "limit_price" ∷ [])
      "StopOrderAccepted.data"
  order_id ← int_field "order_id" d
  side ← side_field d
  stop_price ← int_field "stop_price" d
  qty ← int_field "qty" d
  limit_price ← optional_int_field "limit_price" d
  symbol ← optional_symbol d
  ok (
      stop_order_accepted (record {
        order_id = order_id;
        side = side;
        stop_price = stop_price;
        qty = qty;
        limit_price = limit_price;
        symbol = symbol;
      }))

unfoldable pub parse_stop_order_triggered : Fields → Result Fault TesEngineEvent
unfolding require_event_keys int_field side_field optional_int_field optional_symbol
parse_stop_order_triggered d = do
  require_event_keys d
      ("order_id" ∷ "resulting_order_id" ∷ "side" ∷ "stop_price" ∷ "qty" ∷ "limit_price" ∷ [])
      "StopOrderTriggered.data"
  order_id ← int_field "order_id" d
  resulting_order_id ← int_field "resulting_order_id" d
  side ← side_field d
  stop_price ← int_field "stop_price" d
  qty ← int_field "qty" d
  limit_price ← optional_int_field "limit_price" d
  symbol ← optional_symbol d
  ok (
      stop_order_triggered (record {
        order_id = order_id;
        resulting_order_id = resulting_order_id;
        side = side;
        stop_price = stop_price;
        qty = qty;
        limit_price = limit_price;
        symbol = symbol;
      }))

unfoldable pub parse_top_of_book : Fields → Result Fault TesEngineEvent
unfolding require_event_keys optional_int_field optional_symbol
parse_top_of_book d = do
  require_event_keys d ("best_bid" ∷ "best_ask" ∷ []) "TopOfBook.data"
  best_bid ← optional_int_field "best_bid" d
  best_ask ← optional_int_field "best_ask" d
  symbol ← optional_symbol d
  ok (top_of_book (record { best_bid = best_bid; best_ask = best_ask; symbol = symbol }))

unfoldable pub parse_order_partially_filled : Fields → Result Fault TesEngineEvent
unfolding require_event_keys int_field optional_symbol
parse_order_partially_filled d = do
  require_event_keys d ("order_id" ∷ "last_fill_qty" ∷ "remaining_qty" ∷ [])
      "OrderPartiallyFilled.data"
  order_id ← int_field "order_id" d
  last_fill_qty ← int_field "last_fill_qty" d
  remaining_qty ← int_field "remaining_qty" d
  symbol ← optional_symbol d
  ok (
      order_partially_filled (record {
        order_id = order_id;
        last_fill_qty = last_fill_qty;
        remaining_qty = remaining_qty;
        symbol = symbol;
      }))

unfoldable pub parse_order_filled : Fields → Result Fault TesEngineEvent
unfolding require_event_keys int_field optional_symbol
parse_order_filled d = do
  require_event_keys d ("order_id" ∷ "last_fill_qty" ∷ []) "OrderFilled.data"
  order_id ← int_field "order_id" d
  last_fill_qty ← int_field "last_fill_qty" d
  symbol ← optional_symbol d
  ok (order_filled (record { order_id = order_id; last_fill_qty = last_fill_qty; symbol = symbol }))

unfoldable pub parse_order_expired : Fields → Result Fault TesEngineEvent
unfolding require_event_keys int_field optional_symbol
parse_order_expired d = do
  require_event_keys d ("order_id" ∷ []) "OrderExpired.data"
  order_id ← int_field "order_id" d
  symbol ← optional_symbol d
  ok (order_expired (record { order_id = order_id; symbol = symbol }))
