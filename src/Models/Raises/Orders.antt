-- ===== src/Models/Raises/Orders.antt =====
-- The order and trade branches of `parse_event` raise no KeyError.
use tirrad_exchange_system.Prelude.{◌≡◌, true, [], ◌∷◌}
use tirrad_exchange_system.Json.{Fields}
use tirrad_exchange_system.Models.Events.OrderParsing.{
  parse_order_accepted, parse_hidden_order_accepted, parse_iceberg_order_accepted,
  parse_iceberg_replenished, parse_order_rejected, parse_order_canceled, parse_cancel_rejected,
  parse_trade_executed, parse_stop_order_accepted, parse_stop_order_triggered, parse_top_of_book,
  parse_order_partially_filled, parse_order_filled, parse_order_expired,
}
use tirrad_exchange_system.Models.Raises.{
  no_key_error, >>=-no_key_error, event_keys-no_key_error, optional_symbol-no_key_error,
  int_field-no_key_error, optional_int_field-no_key_error, side_field-no_key_error,
  reason_field-no_key_error,
}

pub order_accepted-no_key_error : (d : Fields) → no_key_error (parse_order_accepted d) ≡ true
unfolding parse_order_accepted
order_accepted-no_key_error d =
    let ks = "order_id" ∷ "side" ∷ "price" ∷ "qty" ∷ [] in
    event_keys-no_key_error d ks "OrderAccepted.data" _ λ h.
      search
        (
          >>=-no_key_error,
          int_field-no_key_error ks d h,
          side_field-no_key_error ks d h,
          optional_symbol-no_key_error,
        )
        depth 40

pub hidden_order_accepted-no_key_error :
    (d : Fields) → no_key_error (parse_hidden_order_accepted d) ≡ true
unfolding parse_hidden_order_accepted
hidden_order_accepted-no_key_error d =
    let ks = "order_id" ∷ "side" ∷ "price" ∷ "total_qty" ∷ [] in
    event_keys-no_key_error d ks "HiddenOrderAccepted.data" _ λ h.
      search
        (
          >>=-no_key_error,
          int_field-no_key_error ks d h,
          side_field-no_key_error ks d h,
          optional_symbol-no_key_error,
        )
        depth 40

pub iceberg_order_accepted-no_key_error :
    (d : Fields) → no_key_error (parse_iceberg_order_accepted d) ≡ true
unfolding parse_iceberg_order_accepted
iceberg_order_accepted-no_key_error d =
    let ks =
      "order_id" ∷ "side" ∷ "price" ∷ "total_qty" ∷ "display_qty" ∷ "reserve_qty"
      ∷ "hidden_remaining" ∷ "current_visible_qty" ∷ [] in
    event_keys-no_key_error d ks "IcebergOrderAccepted.data" _ λ h.
      search
        (
          >>=-no_key_error,
          int_field-no_key_error ks d h,
          side_field-no_key_error ks d h,
          optional_symbol-no_key_error,
        )
        depth 40

pub iceberg_replenished-no_key_error :
    (d : Fields) → no_key_error (parse_iceberg_replenished d) ≡ true
unfolding parse_iceberg_replenished
iceberg_replenished-no_key_error d =
    let ks =
      "order_id" ∷ "side" ∷ "price" ∷ "replenished_qty" ∷ "reserve_qty" ∷ "hidden_remaining"
      ∷ "total_remaining_qty" ∷ [] in
    event_keys-no_key_error d ks "IcebergReplenished.data" _ λ h.
      search
        (
          >>=-no_key_error,
          int_field-no_key_error ks d h,
          side_field-no_key_error ks d h,
          optional_symbol-no_key_error,
        )
        depth 40

pub order_rejected-no_key_error : (d : Fields) → no_key_error (parse_order_rejected d) ≡ true
unfolding parse_order_rejected
order_rejected-no_key_error d =
    let ks = "side" ∷ "price" ∷ "qty" ∷ "reason" ∷ [] in
    event_keys-no_key_error d ks "OrderRejected.data" _ λ h.
      search
        (
          >>=-no_key_error,
          side_field-no_key_error ks d h,
          int_field-no_key_error ks d h,
          reason_field-no_key_error ks d h,
          optional_symbol-no_key_error,
        )
        depth 40

pub order_canceled-no_key_error : (d : Fields) → no_key_error (parse_order_canceled d) ≡ true
unfolding parse_order_canceled
order_canceled-no_key_error d =
    let ks = "order_id" ∷ [] in
    event_keys-no_key_error d ks "OrderCanceled.data" _ λ h.
      search (>>=-no_key_error, int_field-no_key_error ks d h, optional_symbol-no_key_error) depth
        40

pub cancel_rejected-no_key_error : (d : Fields) → no_key_error (parse_cancel_rejected d) ≡ true
unfolding parse_cancel_rejected
cancel_rejected-no_key_error d =
    let ks = "order_id" ∷ "reason" ∷ [] in
    event_keys-no_key_error d ks "CancelRejected.data" _ λ h.
      search
        (
          >>=-no_key_error,
          int_field-no_key_error ks d h,
          reason_field-no_key_error ks d h,
          optional_symbol-no_key_error,
        )
        depth 40

pub trade_executed-no_key_error : (d : Fields) → no_key_error (parse_trade_executed d) ≡ true
unfolding parse_trade_executed
trade_executed-no_key_error d =
    let ks = "price" ∷ "qty" ∷ "maker_order_id" ∷ "taker_order_id" ∷ [] in
    event_keys-no_key_error d ks "TradeExecuted.data" _ λ h.
      search (>>=-no_key_error, int_field-no_key_error ks d h, optional_symbol-no_key_error) depth
        40

pub stop_order_accepted-no_key_error :
    (d : Fields) → no_key_error (parse_stop_order_accepted d) ≡ true
unfolding parse_stop_order_accepted
stop_order_accepted-no_key_error d =
    let ks = "order_id" ∷ "side" ∷ "stop_price" ∷ "qty" ∷ "limit_price" ∷ [] in
    event_keys-no_key_error d ks "StopOrderAccepted.data" _ λ h.
      search
        (
          >>=-no_key_error,
          int_field-no_key_error ks d h,
          side_field-no_key_error ks d h,
          optional_int_field-no_key_error ks d h,
          optional_symbol-no_key_error,
        )
        depth 40

pub stop_order_triggered-no_key_error :
    (d : Fields) → no_key_error (parse_stop_order_triggered d) ≡ true
unfolding parse_stop_order_triggered
stop_order_triggered-no_key_error d =
    let ks =
      "order_id" ∷ "resulting_order_id" ∷ "side" ∷ "stop_price" ∷ "qty" ∷ "limit_price" ∷ [] in
    event_keys-no_key_error d ks "StopOrderTriggered.data" _ λ h.
      search
        (
          >>=-no_key_error,
          int_field-no_key_error ks d h,
          side_field-no_key_error ks d h,
          optional_int_field-no_key_error ks d h,
          optional_symbol-no_key_error,
        )
        depth 40

pub top_of_book-no_key_error : (d : Fields) → no_key_error (parse_top_of_book d) ≡ true
unfolding parse_top_of_book
top_of_book-no_key_error d =
    let ks = "best_bid" ∷ "best_ask" ∷ [] in
    event_keys-no_key_error d ks "TopOfBook.data" _ λ h.
      search
        (>>=-no_key_error, optional_int_field-no_key_error ks d h, optional_symbol-no_key_error)
        depth 40

pub order_partially_filled-no_key_error :
    (d : Fields) → no_key_error (parse_order_partially_filled d) ≡ true
unfolding parse_order_partially_filled
order_partially_filled-no_key_error d =
    let ks = "order_id" ∷ "last_fill_qty" ∷ "remaining_qty" ∷ [] in
    event_keys-no_key_error d ks "OrderPartiallyFilled.data" _ λ h.
      search (>>=-no_key_error, int_field-no_key_error ks d h, optional_symbol-no_key_error) depth
        40

pub order_filled-no_key_error : (d : Fields) → no_key_error (parse_order_filled d) ≡ true
unfolding parse_order_filled
order_filled-no_key_error d =
    let ks = "order_id" ∷ "last_fill_qty" ∷ [] in
    event_keys-no_key_error d ks "OrderFilled.data" _ λ h.
      search (>>=-no_key_error, int_field-no_key_error ks d h, optional_symbol-no_key_error) depth
        40

pub order_expired-no_key_error : (d : Fields) → no_key_error (parse_order_expired d) ≡ true
unfolding parse_order_expired
order_expired-no_key_error d =
    let ks = "order_id" ∷ [] in
    event_keys-no_key_error d ks "OrderExpired.data" _ λ h.
      search (>>=-no_key_error, int_field-no_key_error ks d h, optional_symbol-no_key_error) depth
        40
