-- ===== src/Models/Events/MarketParsing.antt =====
-- The market control and auction branches of `parse_event` in sim/tes_models/events.py, one function for each `if`.
use tirrad_exchange_system.Prelude.{[], ◌∷◌}
use tirrad_exchange_system.Prelude.Results.{Result, ok, ◌>>=◌, ◌>>◌}
use tirrad_exchange_system.Json.{Fields}
use tirrad_exchange_system.Models.Require.{
  Fault, require_exact_keys, int_field, optional_int_field, phase_field, reason_text, symbol_field,
}
use tirrad_exchange_system.Models.Events.{
  TesEngineEvent, symbol_halted, symbol_resumed, price_band_updated, circuit_breaker_triggered,
  auction_started, auction_ended, auction_uncross, indicative_price_updated,
}

unfoldable pub parse_symbol_halted : Fields → Result Fault TesEngineEvent
unfolding require_exact_keys symbol_field reason_text
parse_symbol_halted d = do
  require_exact_keys d ("symbol" ∷ "reason" ∷ []) "SymbolHalted.data"
  reason ← reason_text d
  symbol ← symbol_field d
  ok (symbol_halted (record { symbol = symbol; reason = reason }))

unfoldable pub parse_symbol_resumed : Fields → Result Fault TesEngineEvent
unfolding require_exact_keys symbol_field
parse_symbol_resumed d = do
  require_exact_keys d ("symbol" ∷ []) "SymbolResumed.data"
  symbol ← symbol_field d
  ok (symbol_resumed (record { symbol = symbol }))

unfoldable pub parse_price_band_updated : Fields → Result Fault TesEngineEvent
unfolding require_exact_keys symbol_field optional_int_field
parse_price_band_updated d = do
  require_exact_keys d ("symbol" ∷ "lower_price" ∷ "upper_price" ∷ []) "PriceBandUpdated.data"
  symbol ← symbol_field d
  lower_price ← optional_int_field "lower_price" d
  upper_price ← optional_int_field "upper_price" d
  ok (
      price_band_updated
        (record { symbol = symbol; lower_price = lower_price; upper_price = upper_price }))

unfoldable pub parse_circuit_breaker_triggered : Fields → Result Fault TesEngineEvent
unfolding require_exact_keys symbol_field int_field reason_text
parse_circuit_breaker_triggered d = do
  require_exact_keys d ("symbol" ∷ "price" ∷ "reason" ∷ []) "CircuitBreakerTriggered.data"
  reason ← reason_text d
  symbol ← symbol_field d
  price ← int_field "price" d
  ok (circuit_breaker_triggered (record { symbol = symbol; price = price; reason = reason }))

unfoldable pub parse_auction_started : Fields → Result Fault TesEngineEvent
unfolding require_exact_keys symbol_field phase_field
parse_auction_started d = do
  require_exact_keys d ("symbol" ∷ "phase" ∷ []) "AuctionStarted.data"
  symbol ← symbol_field d
  phase ← phase_field d
  ok (auction_started (record { symbol = symbol; phase = phase }))

unfoldable pub parse_auction_ended : Fields → Result Fault TesEngineEvent
unfolding require_exact_keys symbol_field phase_field
parse_auction_ended d = do
  require_exact_keys d ("symbol" ∷ "phase" ∷ []) "AuctionEnded.data"
  symbol ← symbol_field d
  phase ← phase_field d
  ok (auction_ended (record { symbol = symbol; phase = phase }))

unfoldable pub parse_auction_uncross : Fields → Result Fault TesEngineEvent
unfolding require_exact_keys symbol_field int_field
parse_auction_uncross d = do
  require_exact_keys d ("symbol" ∷ "price" ∷ "qty" ∷ "imbalance" ∷ []) "AuctionUncross.data"
  symbol ← symbol_field d
  price ← int_field "price" d
  qty ← int_field "qty" d
  imbalance ← int_field "imbalance" d
  ok (auction_uncross (record { symbol = symbol; price = price; qty = qty; imbalance = imbalance }))

unfoldable pub parse_indicative_price_updated : Fields → Result Fault TesEngineEvent
unfolding require_exact_keys symbol_field optional_int_field int_field
parse_indicative_price_updated d = do
  require_exact_keys d ("symbol" ∷ "price" ∷ "qty" ∷ "imbalance" ∷ []) "IndicativePriceUpdated.data"
  symbol ← symbol_field d
  price ← optional_int_field "price" d
  qty ← int_field "qty" d
  imbalance ← int_field "imbalance" d
  ok (
      indicative_price_updated
        (record { symbol = symbol; price = price; qty = qty; imbalance = imbalance }))
