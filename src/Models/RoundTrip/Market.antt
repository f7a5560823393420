-- ===== src/Models/RoundTrip/Market.antt =====
-- The market control and auction events are read back.
use tirrad_exchange_system.Prelude.{◌≡◌, false, ◌==◌}
use tirrad_exchange_system.Models.Events.{
  default_symbol, symbol_halted, symbol_resumed, price_band_updated, circuit_breaker_triggered,
  auction_started, auction_ended, auction_uncross, indicative_price_updated, AuctionPhaseData,
  AuctionUncrossData, CircuitBreakerTriggeredData, IndicativePriceUpdatedData, PriceBandUpdatedData,
  SymbolHaltedData, SymbolResumedData,
}
use tirrad_exchange_system.Models.Events.Parsing.{parse_event}
use tirrad_exchange_system.Models.Serialization.{serialize_event}
use tirrad_exchange_system.Models.RoundTrip.Fields.{
  require_trading_phase-name, require_optional_int-written, Restored,
}

pub Restored-symbol_halted :
    (d : SymbolHaltedData) → (d.symbol == default_symbol) ≡ false → Restored (symbol_halted d)
unfolding parse_event serialize_event
Restored-symbol_halted d e = rw (e)

pub Restored-symbol_resumed :
    (d : SymbolResumedData) → (d.symbol == default_symbol) ≡ false → Restored (symbol_resumed d)
unfolding parse_event serialize_event
Restored-symbol_resumed d e = rw (e)

pub Restored-price_band_updated :
    (d : PriceBandUpdatedData)
    → (d.symbol == default_symbol) ≡ false
    → Restored (price_band_updated d)
unfolding parse_event serialize_event
Restored-price_band_updated d e = rw (
  e,
  require_optional_int-written d.lower_price "lower_price",
  require_optional_int-written d.upper_price "upper_price",
)

pub Restored-circuit_breaker_triggered :
    (d : CircuitBreakerTriggeredData)
    → (d.symbol == default_symbol) ≡ false
    → Restored (circuit_breaker_triggered d)
unfolding parse_event serialize_event
Restored-circuit_breaker_triggered d e = rw (e)

pub Restored-auction_started :
    (d : AuctionPhaseData) → (d.symbol == default_symbol) ≡ false → Restored (auction_started d)
unfolding parse_event serialize_event
Restored-auction_started d e = rw (e, require_trading_phase-name d.phase)

pub Restored-auction_ended :
    (d : AuctionPhaseData) → (d.symbol == default_symbol) ≡ false → Restored (auction_ended d)
unfolding parse_event serialize_event
Restored-auction_ended d e = rw (e, require_trading_phase-name d.phase)

pub Restored-auction_uncross :
    (d : AuctionUncrossData) → (d.symbol == default_symbol) ≡ false → Restored (auction_uncross d)
unfolding parse_event serialize_event
Restored-auction_uncross d e = rw (e)

pub Restored-indicative_price_updated :
    (d : IndicativePriceUpdatedData)
    → (d.symbol == default_symbol) ≡ false
    → Restored (indicative_price_updated d)
unfolding parse_event serialize_event
Restored-indicative_price_updated d e = rw (e, require_optional_int-written d.price "price")
