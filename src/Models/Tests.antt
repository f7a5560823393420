-- ===== src/Models/Tests.antt =====
-- The theorems of the models at concrete texts.
use tirrad_exchange_system.Prelude.{◌≡◌, refl, true, String, [], ◌∷◌}
use tirrad_exchange_system.Prelude.Int.{pos}
use tirrad_exchange_system.Prelude.Results.{ok, err}
use tirrad_exchange_system.Json.{Value, end, field, text, int, null, object, array, array_of}
use tirrad_exchange_system.Models.Require.{
  wrong_keys, positive_field, side_field, optional_symbol, require_side,
}
use tirrad_exchange_system.Models.Events.{
  default_symbol, TesEngineEvent, trade_executed, symbol_halted, sell,
}
use tirrad_exchange_system.Models.Events.Parsing.{parse_event, parse_events}
use tirrad_exchange_system.Models.Serialization.{serialize_event, serialize_events}
use tirrad_exchange_system.Models.RoundTrip.{
  parse_event-serialize, parse_event-refuses, parse_events-serialize,
}
use tirrad_exchange_system.Models.Raises.{no_key_error}
use tirrad_exchange_system.Models.Raises.Events.{parse_event-no_key_error}
use tirrad_exchange_system.Models.Commands.{TesCommand, iceberg_order}
use tirrad_exchange_system.Models.Commands.Parsing.{
  parse_command, parse_iceberg_order, require_command_keys,
}
use tirrad_exchange_system.Models.Commands.Validity.{IsValid, parse_command-IsValid}

abbrev trade : TesEngineEvent
trade = trade_executed (record {
  price = pos 100;
  qty = pos 5;
  maker_order_id = pos 1;
  taker_order_id = pos 2;
  symbol = default_symbol;
})

abbrev halt : String → TesEngineEvent
halt symbol = symbol_halted (record { symbol = symbol; reason = "ScenarioCircuitBreaker" })

parse_event-serialize_example : parse_event (serialize_event (halt "TIRRAD")) ≡ ok (halt "TIRRAD")
parse_event-serialize_example = parse_event-serialize (halt "TIRRAD") refl

parse_events-serialize_example :
    parse_events (array (array_of (serialize_events (trade ∷ halt "TIRRAD" ∷ []))))
    ≡ ok (trade ∷ halt "TIRRAD" ∷ [])
parse_events-serialize_example =
    parse_events-serialize (trade ∷ halt "TIRRAD" ∷ []) (refl, (refl, tt))

parse_event-refuses_example :
    (name : String) × (parse_event (serialize_event (halt "DEFAULT")) ≡ err (wrong_keys name))
parse_event-refuses_example = parse_event-refuses (halt "DEFAULT") refl

abbrev no_data : Value
no_data = object (field "type" (text "TradeExecuted") (field "data" null end))

parse_event-no_key_error_example : no_key_error (parse_event no_data) ≡ true
parse_event-no_key_error_example = parse_event-no_key_error no_data

abbrev iceberg_text : Value
iceberg_text = object (
    field "type" (text "IcebergOrder") (
      field "data"
        (object (
          field "side" (text "SELL") (
            field "price" (int (pos 10))
              (field "total_qty" (int (pos 9)) (field "display_qty" (int (pos 3)) end)))))
        end))

abbrev iceberg : TesCommand
iceberg = iceberg_order (record {
  side = sell;
  price = pos 10;
  total_qty = pos 9;
  display_qty = pos 3;
  symbol = default_symbol;
})

parsed_iceberg : parse_command iceberg_text ≡ ok iceberg
unfolding parse_command parse_iceberg_order require_command_keys positive_field side_field
    require_side optional_symbol
parsed_iceberg = refl

parse_command-IsValid_example : IsValid iceberg
parse_command-IsValid_example = parse_command-IsValid iceberg_text iceberg parsed_iceberg
