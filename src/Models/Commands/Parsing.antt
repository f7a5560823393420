-- ===== src/Models/Commands/Parsing.antt =====
-- `parse_command` of sim/tes_models/commands.py, one function for each `if`.
use tirrad_exchange_system.Prelude.{String, List, [], ◌∷◌, ◌==◌, if◌then◌else◌}
use tirrad_exchange_system.Prelude.Int.{ltb_ℤ}
use tirrad_exchange_system.Prelude.Results.{Result, ok, err, ◌>>=◌, ◌>>◌, map_result}
use tirrad_exchange_system.Json.{Value, Fields, text, array, object, items_of}
use tirrad_exchange_system.Models.Require.{
  Fault, unknown_type, not_a_list, bad_time_in_force, unhashable, display_above_total, require_dict,
  require_exact_keys, require_event_keys, item, require_text, positive_field, side_field,
  phase_field, reason_text, symbol_field, optional_symbol,
}
use tirrad_exchange_system.Models.Commands.{
  TimeInForce, gtc, ioc, fok, TesCommand, limit_order, hidden_order, iceberg_order, market_order,
  stop_order, stop_limit_order, cancel_order, replace_order, set_trading_phase, halt_symbol,
  resume_symbol, set_price_bands, clear_price_bands, uncross_auction,
}

unfoldable pub require_time_in_force : Value → Result Fault TimeInForce
require_time_in_force (text s) =
    if s == "GTC"
    then ok gtc
    else if s == "IOC"
    then ok ioc
    else if s == "FOK"
    then ok fok
    else err bad_time_in_force
require_time_in_force (array vs) = err unhashable
require_time_in_force (object d) = err unhashable
require_time_in_force _ = err bad_time_in_force

unfoldable pub time_in_force_field : Fields → Result Fault TimeInForce
unfolding item
time_in_force_field d = do v ← item "time_in_force" d; require_time_in_force v

-- The same test as `_require_event_keys`.
unfoldable pub require_command_keys : Fields → List String → String → Result Fault Unit
unfolding require_event_keys
require_command_keys d expected name = require_event_keys d expected name

unfoldable pub parse_limit_order : Fields → Result Fault TesCommand
parse_limit_order d = do
  require_command_keys d ("side" ∷ "price" ∷ "qty" ∷ "time_in_force" ∷ []) "LimitOrder.data"
  side ← side_field d
  price ← positive_field "price" d
  qty ← positive_field "qty" d
  time_in_force ← time_in_force_field d
  symbol ← optional_symbol d
  ok (
      limit_order (record {
        side = side;
        price = price;
        qty = qty;
        time_in_force = time_in_force;
        symbol = symbol;
      }))

unfoldable pub parse_hidden_order : Fields → Result Fault TesCommand
parse_hidden_order d = do
  require_command_keys d ("side" ∷ "price" ∷ "qty" ∷ []) "HiddenOrder.data"
  side ← side_field d
  price ← positive_field "price" d
  qty ← positive_field "qty" d
  symbol ← optional_symbol d
  ok (hidden_order (record { side = side; price = price; qty = qty; symbol = symbol }))

unfoldable pub parse_iceberg_order : Fields → Result Fault TesCommand
parse_iceberg_order d = do
  require_command_keys d ("side" ∷ "price" ∷ "total_qty" ∷ "display_qty" ∷ []) "IcebergOrder.data"
  total_qty ← positive_field "total_qty" d
  display_qty ← positive_field "display_qty" d
  (if ltb_ℤ total_qty display_qty then err display_above_total else ok tt)
  side ← side_field d
  price ← positive_field "price" d
  symbol ← optional_symbol d
  ok (
      iceberg_order (record {
        side = side;
        price = price;
        total_qty = total_qty;
        display_qty = display_qty;
        symbol = symbol;
      }))

unfoldable pub parse_market_order : Fields → Result Fault TesCommand
parse_market_order d = do
  require_command_keys d ("side" ∷ "qty" ∷ []) "MarketOrder.data"
  side ← side_field d
  qty ← positive_field "qty" d
  symbol ← optional_symbol d
  ok (market_order (record { side = side; qty = qty; symbol = symbol }))

unfoldable pub parse_stop_order : Fields → Result Fault TesCommand
parse_stop_order d = do
  require_command_keys d ("side" ∷ "stop_price" ∷ "qty" ∷ []) "StopMarketOrder.data"
  side ← side_field d
  stop_price ← positive_field "stop_price" d
  qty ← positive_field "qty" d
  symbol ← optional_symbol d
  ok (stop_order (record { side = side; stop_price = stop_price; qty = qty; symbol = symbol }))

unfoldable pub parse_stop_limit_order : Fields → Result Fault TesCommand
parse_stop_limit_order d = do
  require_command_keys d ("side" ∷ "stop_price" ∷ "limit_price" ∷ "qty" ∷ []) "StopLimitOrder.data"
  side ← side_field d
  stop_price ← positive_field "stop_price" d
  limit_price ← positive_field "limit_price" d
  qty ← positive_field "qty" d
  symbol ← optional_symbol d
  ok (
      stop_limit_order (record {
        side = side;
        stop_price = stop_price;
        limit_price = limit_price;
        qty = qty;
        symbol = symbol;
      }))

unfoldable pub parse_cancel_order : Fields → Result Fault TesCommand
parse_cancel_order d = do
  require_exact_keys d ("order_id" ∷ []) "CancelOrder.data"
  order_id ← positive_field "order_id" d
  ok (cancel_order (record { order_id = order_id }))

unfoldable pub parse_replace_order : Fields → Result Fault TesCommand
parse_replace_order d = do
  require_exact_keys d ("order_id" ∷ "price" ∷ "qty" ∷ []) "ReplaceOrder.data"
  order_id ← positive_field "order_id" d
  price ← positive_field "price" d
  qty ← positive_field "qty" d
  ok (replace_order (record { order_id = order_id; price = price; qty = qty }))

unfoldable pub parse_set_trading_phase : Fields → Result Fault TesCommand
parse_set_trading_phase d = do
  require_exact_keys d ("symbol" ∷ "phase" ∷ []) "SetTradingPhase.data"
  symbol ← symbol_field d
  phase ← phase_field d
  ok (set_trading_phase (record { symbol = symbol; phase = phase }))

unfoldable pub parse_halt_symbol : Fields → Result Fault TesCommand
parse_halt_symbol d = do
  require_exact_keys d ("symbol" ∷ "reason" ∷ []) "HaltSymbol.data"
  reason ← reason_text d
  symbol ← symbol_field d
  ok (halt_symbol (record { symbol = symbol; reason = reason }))

unfoldable pub parse_resume_symbol : Fields → Result Fault TesCommand
parse_resume_symbol d = do
  require_exact_keys d ("symbol" ∷ []) "ResumeSymbol.data"
  symbol ← symbol_field d
  ok (resume_symbol (record { symbol = symbol }))

unfoldable pub parse_set_price_bands : Fields → Result Fault TesCommand
parse_set_price_bands d = do
  require_exact_keys d ("symbol" ∷ "lower_price" ∷ "upper_price" ∷ []) "SetPriceBands.data"
  symbol ← symbol_field d
  lower_price ← positive_field "lower_price" d
  upper_price ← positive_field "upper_price" d
  ok (
      set_price_bands
        (record { symbol = symbol; lower_price = lower_price; upper_price = upper_price }))

unfoldable pub parse_clear_price_bands : Fields → Result Fault TesCommand
parse_clear_price_bands d = do
  require_exact_keys d ("symbol" ∷ []) "ClearPriceBands.data"
  symbol ← symbol_field d
  ok (clear_price_bands (record { symbol = symbol }))

unfoldable pub parse_uncross_auction : Fields → Result Fault TesCommand
parse_uncross_auction d = do
  require_command_keys d [] "UncrossAuction.data"
  symbol ← optional_symbol d
  ok (uncross_auction (record { symbol = symbol }))

-- The ladder of tests on `command_type`.
unfoldable pub parse_command_data : String → Fields → Result Fault TesCommand
parse_command_data t d =
    if t == "LimitOrder"
    then parse_limit_order d
    else if t == "HiddenOrder"
    then parse_hidden_order d
    else if t == "IcebergOrder"
    then parse_iceberg_order d
    else if t == "MarketOrder"
    then parse_market_order d
    else if t == "StopMarketOrder"
    then parse_stop_order d
    else if t == "StopLimitOrder"
    then parse_stop_limit_order d
    else if t == "CancelOrder"
    then parse_cancel_order d
    else if t == "ReplaceOrder"
    then parse_replace_order d
    else if t == "SetTradingPhase"
    then parse_set_trading_phase d
    else if t == "HaltSymbol"
    then parse_halt_symbol d
    else if t == "ResumeSymbol"
    then parse_resume_symbol d
    else if t == "SetPriceBands"
    then parse_set_price_bands d
    else if t == "ClearPriceBands"
    then parse_clear_price_bands d
    else if t == "UncrossAuction"
    then parse_uncross_auction d
    else err (unknown_type t)

unfoldable pub parse_command : Value → Result Fault TesCommand
unfolding require_dict require_exact_keys item require_text parse_command_data
parse_command raw = do
  command ← require_dict raw "command"
  require_exact_keys command ("type" ∷ "data" ∷ []) "command"
  command_type ← require_text (← item "type" command) "type"
  d ← require_dict (← item "data" command) "command.data"
  parse_command_data command_type d

unfoldable pub parse_commands : Value → Result Fault (List TesCommand)
unfolding parse_command map_result
parse_commands (array raw_commands) = map_result parse_command (items_of raw_commands)
parse_commands _ = err not_a_list
