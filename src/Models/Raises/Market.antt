-- ===== src/Models/Raises/Market.antt =====
-- The market control and auction branches of `parse_event` raise no KeyError.
use tirrad_exchange_system.Prelude.{◌≡◌, true, [], ◌∷◌}
use tirrad_exchange_system.Json.{Fields}
use tirrad_exchange_system.Models.Events.MarketParsing.{
  parse_symbol_halted, parse_symbol_resumed, parse_price_band_updated,
  parse_circuit_breaker_triggered, parse_auction_started, parse_auction_ended,
  parse_auction_uncross, parse_indicative_price_updated,
}
use tirrad_exchange_system.Models.Raises.{
  no_key_error, >>=-no_key_error, exact_keys-no_key_error, int_field-no_key_error,
  optional_int_field-no_key_error, phase_field-no_key_error, reason_text-no_key_error,
  symbol_field-no_key_error,
}

pub symbol_halted-no_key_error : (d : Fields) → no_key_error (parse_symbol_halted d) ≡ true
unfolding parse_symbol_halted
symbol_halted-no_key_error d =
    let ks = "symbol" ∷ "reason" ∷ [] in
    exact_keys-no_key_error d ks "SymbolHalted.data" _ λ h.
      search (>>=-no_key_error, symbol_field-no_key_error ks d h, reason_text-no_key_error ks d h)
        depth 40

pub symbol_resumed-no_key_error : (d : Fields) → no_key_error (parse_symbol_resumed d) ≡ true
unfolding parse_symbol_resumed
symbol_resumed-no_key_error d =
    let ks = "symbol" ∷ [] in
    exact_keys-no_key_error d ks "SymbolResumed.data" _
      λ h. search (>>=-no_key_error, symbol_field-no_key_error ks d h) depth 40

pub price_band_updated-no_key_error :
    (d : Fields) → no_key_error (parse_price_band_updated d) ≡ true
unfolding parse_price_band_updated
price_band_updated-no_key_error d =
    let ks = "symbol" ∷ "lower_price" ∷ "upper_price" ∷ [] in
    exact_keys-no_key_error d ks "PriceBandUpdated.data" _ λ h.
      search
        (>>=-no_key_error, symbol_field-no_key_error ks d h, optional_int_field-no_key_error ks d h)
        depth 40

pub circuit_breaker_triggered-no_key_error :
    (d : Fields) → no_key_error (parse_circuit_breaker_triggered d) ≡ true
unfolding parse_circuit_breaker_triggered
circuit_breaker_triggered-no_key_error d =
    let ks = "symbol" ∷ "price" ∷ "reason" ∷ [] in
    exact_keys-no_key_error d ks "CircuitBreakerTriggered.data" _ λ h.
      search
        (
          >>=-no_key_error,
          symbol_field-no_key_error ks d h,
          int_field-no_key_error ks d h,
          reason_text-no_key_error ks d h,
        )
        depth 40

pub auction_started-no_key_error : (d : Fields) → no_key_error (parse_auction_started d) ≡ true
unfolding parse_auction_started
auction_started-no_key_error d =
    let ks = "symbol" ∷ "phase" ∷ [] in
    exact_keys-no_key_error d ks "AuctionStarted.data" _ λ h.
      search (>>=-no_key_error, symbol_field-no_key_error ks d h, phase_field-no_key_error ks d h)
        depth 40

pub auction_ended-no_key_error : (d : Fields) → no_key_error (parse_auction_ended d) ≡ true
unfolding parse_auction_ended
auction_ended-no_key_error d =
    let ks = "symbol" ∷ "phase" ∷ [] in
    exact_keys-no_key_error d ks "AuctionEnded.data" _ λ h.
      search (>>=-no_key_error, symbol_field-no_key_error ks d h, phase_field-no_key_error ks d h)
        depth 40

pub auction_uncross-no_key_error : (d : Fields) → no_key_error (parse_auction_uncross d) ≡ true
unfolding parse_auction_uncross
auction_uncross-no_key_error d =
    let ks = "symbol" ∷ "price" ∷ "qty" ∷ "imbalance" ∷ [] in
    exact_keys-no_key_error d ks "AuctionUncross.data" _ λ h.
      search (>>=-no_key_error, symbol_field-no_key_error ks d h, int_field-no_key_error ks d h)
        depth 40

pub indicative_price_updated-no_key_error :
    (d : Fields) → no_key_error (parse_indicative_price_updated d) ≡ true
unfolding parse_indicative_price_updated
indicative_price_updated-no_key_error d =
    let ks = "symbol" ∷ "price" ∷ "qty" ∷ "imbalance" ∷ [] in
    exact_keys-no_key_error d ks "IndicativePriceUpdated.data" _ λ h.
      search
        (
          >>=-no_key_error,
          symbol_field-no_key_error ks d h,
          optional_int_field-no_key_error ks d h,
          int_field-no_key_error ks d h,
        )
        depth 40
