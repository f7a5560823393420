-- ===== src/Models/RoundTrip/Orders.antt =====
-- The order and trade events are read back.
use tirrad_exchange_system.Prelude.{refl}
use tirrad_exchange_system.Models.Events.{
  order_accepted, hidden_order_accepted, iceberg_order_accepted, iceberg_replenished,
  order_rejected, order_canceled, cancel_rejected, trade_executed, stop_order_accepted,
  stop_order_triggered, top_of_book, order_partially_filled, order_filled, order_expired,
  CancelRejectedData, HiddenOrderAcceptedData, IcebergOrderAcceptedData, IcebergReplenishedData,
  OrderAcceptedData, OrderCanceledData, OrderExpiredData, OrderFilledData, OrderPartiallyFilledData,
  OrderRejectedData, StopOrderAcceptedData, StopOrderTriggeredData, TopOfBookData,
  TradeExecutedData,
}
use tirrad_exchange_system.Models.Events.Parsing.{parse_event}
use tirrad_exchange_system.Models.Serialization.{serialize_event}
use tirrad_exchange_system.Models.RoundTrip.Fields.{
  require_side-name, require_reject_reason-name, require_optional_int-written, by_symbol, Restored,
}

pub Restored-order_accepted : (d : OrderAcceptedData) → Restored (order_accepted d)
unfolding parse_event serialize_event
Restored-order_accepted d =
    by_symbol (λ s. Restored (order_accepted (record d { symbol = s }))) d.symbol
      (rw (require_side-name d.side)) (λ e. rw (e, require_side-name d.side))

pub Restored-hidden_order_accepted :
    (d : HiddenOrderAcceptedData) → Restored (hidden_order_accepted d)
unfolding parse_event serialize_event
Restored-hidden_order_accepted d =
    by_symbol (λ s. Restored (hidden_order_accepted (record d { symbol = s }))) d.symbol
      (rw (require_side-name d.side)) (λ e. rw (e, require_side-name d.side))

pub Restored-iceberg_order_accepted :
    (d : IcebergOrderAcceptedData) → Restored (iceberg_order_accepted d)
unfolding parse_event serialize_event
Restored-iceberg_order_accepted d =
    by_symbol (λ s. Restored (iceberg_order_accepted (record d { symbol = s }))) d.symbol
      (rw (require_side-name d.side)) (λ e. rw (e, require_side-name d.side))

pub Restored-iceberg_replenished : (d : IcebergReplenishedData) → Restored (iceberg_replenished d)
unfolding parse_event serialize_event
Restored-iceberg_replenished d =
    by_symbol (λ s. Restored (iceberg_replenished (record d { symbol = s }))) d.symbol
      (rw (require_side-name d.side)) (λ e. rw (e, require_side-name d.side))

pub Restored-order_rejected : (d : OrderRejectedData) → Restored (order_rejected d)
unfolding parse_event serialize_event
Restored-order_rejected d =
    by_symbol (λ s. Restored (order_rejected (record d { symbol = s }))) d.symbol
      (rw (require_side-name d.side, require_reject_reason-name d.reason))
      (λ e. rw (e, require_side-name d.side, require_reject_reason-name d.reason))

pub Restored-order_canceled : (d : OrderCanceledData) → Restored (order_canceled d)
unfolding parse_event serialize_event
Restored-order_canceled d =
    by_symbol (λ s. Restored (order_canceled (record d { symbol = s }))) d.symbol refl (λ e. rw e)

pub Restored-cancel_rejected : (d : CancelRejectedData) → Restored (cancel_rejected d)
unfolding parse_event serialize_event
Restored-cancel_rejected d =
    by_symbol (λ s. Restored (cancel_rejected (record d { symbol = s }))) d.symbol
      (rw (require_reject_reason-name d.reason)) (λ e. rw (e, require_reject_reason-name d.reason))

pub Restored-trade_executed : (d : TradeExecutedData) → Restored (trade_executed d)
unfolding parse_event serialize_event
Restored-trade_executed d =
    by_symbol (λ s. Restored (trade_executed (record d { symbol = s }))) d.symbol refl (λ e. rw e)

pub Restored-stop_order_accepted : (d : StopOrderAcceptedData) → Restored (stop_order_accepted d)
unfolding parse_event serialize_event
Restored-stop_order_accepted d =
    by_symbol (λ s. Restored (stop_order_accepted (record d { symbol = s }))) d.symbol
      (rw (require_side-name d.side, require_optional_int-written d.limit_price "limit_price"))
      (λ e.
        rw (e, require_side-name d.side, require_optional_int-written d.limit_price "limit_price"))

pub Restored-stop_order_triggered : (d : StopOrderTriggeredData) → Restored (stop_order_triggered d)
unfolding parse_event serialize_event
Restored-stop_order_triggered d =
    by_symbol (λ s. Restored (stop_order_triggered (record d { symbol = s }))) d.symbol
      (rw (require_side-name d.side, require_optional_int-written d.limit_price "limit_price"))
      (λ e.
        rw (e, require_side-name d.side, require_optional_int-written d.limit_price "limit_price"))

pub Restored-top_of_book : (d : TopOfBookData) → Restored (top_of_book d)
unfolding parse_event serialize_event
Restored-top_of_book d =
    by_symbol (λ s. Restored (top_of_book (record d { symbol = s }))) d.symbol
      (rw (
        require_optional_int-written d.best_bid "best_bid",
        require_optional_int-written d.best_ask "best_ask",
      ))
      (λ e. rw (
        e,
        require_optional_int-written d.best_bid "best_bid",
        require_optional_int-written d.best_ask "best_ask",
      ))

pub Restored-order_partially_filled :
    (d : OrderPartiallyFilledData) → Restored (order_partially_filled d)
unfolding parse_event serialize_event
Restored-order_partially_filled d =
    by_symbol (λ s. Restored (order_partially_filled (record d { symbol = s }))) d.symbol refl
      (λ e. rw e)

pub Restored-order_filled : (d : OrderFilledData) → Restored (order_filled d)
unfolding parse_event serialize_event
Restored-order_filled d =
    by_symbol (λ s. Restored (order_filled (record d { symbol = s }))) d.symbol refl (λ e. rw e)

pub Restored-order_expired : (d : OrderExpiredData) → Restored (order_expired d)
unfolding parse_event serialize_event
Restored-order_expired d =
    by_symbol (λ s. Restored (order_expired (record d { symbol = s }))) d.symbol refl (λ e. rw e)
