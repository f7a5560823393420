-- ===== src/Models/Events.antt =====
-- The events of the engine: the dataclasses of sim/tes_models/events.py. `TesEngineEvent` has one
-- constructor for each event class, on the class of its `data`; the class's `type` is `event_type`.
pub mod OrderParsing
pub mod MarketParsing
pub mod Parsing
use tirrad_exchange_system.Prelude.{String, Option}
use tirrad_exchange_system.Prelude.Int.{ℤ}

-- "DEFAULT"
abbrev pub default_symbol : String
default_symbol = "DEFAULT"

pub data Side : Type 0 where
  buy sell : Side

pub data TradingPhase : Type 0 where
  continuous opening_auction closing_auction halted : TradingPhase

pub data RejectReason : Type 0 where
  invalid_price invalid_quantity unknown_order_id no_liquidity insufficient_cash : RejectReason
  insufficient_position wrong_account insufficient_buying_power short_selling_disabled :
      RejectReason
  margin_requirement_failed maintenance_margin_breached halted_symbol price_band_violation :
      RejectReason
  circuit_breaker_violation auction_price_out_of_band : RejectReason

pub record OrderAcceptedData : Type 0 where
  pub order_id : ℤ
  pub side : Side
  pub price : ℤ
  pub qty : ℤ
  pub symbol : String

pub record HiddenOrderAcceptedData : Type 0 where
  pub order_id : ℤ
  pub side : Side
  pub price : ℤ
  pub total_qty : ℤ
  pub symbol : String

pub record IcebergOrderAcceptedData : Type 0 where
  pub order_id : ℤ
  pub side : Side
  pub price : ℤ
  pub total_qty : ℤ
  pub display_qty : ℤ
  pub reserve_qty : ℤ
  pub hidden_remaining : ℤ
  pub current_visible_qty : ℤ
  pub symbol : String

pub record IcebergReplenishedData : Type 0 where
  pub order_id : ℤ
  pub side : Side
  pub price : ℤ
  pub replenished_qty : ℤ
  pub reserve_qty : ℤ
  pub hidden_remaining : ℤ
  pub total_remaining_qty : ℤ
  pub symbol : String

pub record OrderRejectedData : Type 0 where
  pub side : Side
  pub price : ℤ
  pub qty : ℤ
  pub reason : RejectReason
  pub symbol : String

pub record OrderCanceledData : Type 0 where
  pub order_id : ℤ
  pub symbol : String

pub record CancelRejectedData : Type 0 where
  pub order_id : ℤ
  pub reason : RejectReason
  pub symbol : String

pub record TradeExecutedData : Type 0 where
  pub price : ℤ
  pub qty : ℤ
  pub maker_order_id : ℤ
  pub taker_order_id : ℤ
  pub symbol : String

pub record StopOrderAcceptedData : Type 0 where
  pub order_id : ℤ
  pub side : Side
  pub stop_price : ℤ
  pub qty : ℤ
  pub limit_price : Option ℤ
  pub symbol : String

pub record StopOrderTriggeredData : Type 0 where
  pub order_id : ℤ
  pub resulting_order_id : ℤ
  pub side : Side
  pub stop_price : ℤ
  pub qty : ℤ
  pub limit_price : Option ℤ
  pub symbol : String

pub record TopOfBookData : Type 0 where
  pub best_bid : Option ℤ
  pub best_ask : Option ℤ
  pub symbol : String

pub record OrderPartiallyFilledData : Type 0 where
  pub order_id : ℤ
  pub last_fill_qty : ℤ
  pub remaining_qty : ℤ
  pub symbol : String

pub record OrderFilledData : Type 0 where
  pub order_id : ℤ
  pub last_fill_qty : ℤ
  pub symbol : String

pub record OrderExpiredData : Type 0 where
  pub order_id : ℤ
  pub symbol : String

pub record SymbolHaltedData : Type 0 where
  pub symbol : String
  pub reason : String

pub record SymbolResumedData : Type 0 where
  pub symbol : String

pub record PriceBandUpdatedData : Type 0 where
  pub symbol : String
  pub lower_price : Option ℤ
  pub upper_price : Option ℤ

pub record CircuitBreakerTriggeredData : Type 0 where
  pub symbol : String
  pub price : ℤ
  pub reason : String

pub record AuctionPhaseData : Type 0 where
  pub symbol : String
  pub phase : TradingPhase

pub record AuctionUncrossData : Type 0 where
  pub symbol : String
  pub price : ℤ
  pub qty : ℤ
  pub imbalance : ℤ

pub record IndicativePriceUpdatedData : Type 0 where
  pub symbol : String
  pub price : Option ℤ
  pub qty : ℤ
  pub imbalance : ℤ

pub data TesEngineEvent : Type 0 where
  order_accepted : OrderAcceptedData → TesEngineEvent
  hidden_order_accepted : HiddenOrderAcceptedData → TesEngineEvent
  iceberg_order_accepted : IcebergOrderAcceptedData → TesEngineEvent
  iceberg_replenished : IcebergReplenishedData → TesEngineEvent
  order_rejected : OrderRejectedData → TesEngineEvent
  order_canceled : OrderCanceledData → TesEngineEvent
  cancel_rejected : CancelRejectedData → TesEngineEvent
  trade_executed : TradeExecutedData → TesEngineEvent
  stop_order_accepted : StopOrderAcceptedData → TesEngineEvent
  stop_order_triggered : StopOrderTriggeredData → TesEngineEvent
  top_of_book : TopOfBookData → TesEngineEvent
  order_partially_filled : OrderPartiallyFilledData → TesEngineEvent
  order_filled : OrderFilledData → TesEngineEvent
  order_expired : OrderExpiredData → TesEngineEvent
  symbol_halted : SymbolHaltedData → TesEngineEvent
  symbol_resumed : SymbolResumedData → TesEngineEvent
  price_band_updated : PriceBandUpdatedData → TesEngineEvent
  circuit_breaker_triggered : CircuitBreakerTriggeredData → TesEngineEvent
  auction_started : AuctionPhaseData → TesEngineEvent
  auction_ended : AuctionPhaseData → TesEngineEvent
  auction_uncross : AuctionUncrossData → TesEngineEvent
  indicative_price_updated : IndicativePriceUpdatedData → TesEngineEvent

-- event.type
abbrev pub event_type : TesEngineEvent → String
event_type (order_accepted d) = "OrderAccepted"
event_type (hidden_order_accepted d) = "HiddenOrderAccepted"
event_type (iceberg_order_accepted d) = "IcebergOrderAccepted"
event_type (iceberg_replenished d) = "IcebergReplenished"
event_type (order_rejected d) = "OrderRejected"
event_type (order_canceled d) = "OrderCanceled"
event_type (cancel_rejected d) = "CancelRejected"
event_type (trade_executed d) = "TradeExecuted"
event_type (stop_order_accepted d) = "StopOrderAccepted"
event_type (stop_order_triggered d) = "StopOrderTriggered"
event_type (top_of_book d) = "TopOfBook"
event_type (order_partially_filled d) = "OrderPartiallyFilled"
event_type (order_filled d) = "OrderFilled"
event_type (order_expired d) = "OrderExpired"
event_type (symbol_halted d) = "SymbolHalted"
event_type (symbol_resumed d) = "SymbolResumed"
event_type (price_band_updated d) = "PriceBandUpdated"
event_type (circuit_breaker_triggered d) = "CircuitBreakerTriggered"
event_type (auction_started d) = "AuctionStarted"
event_type (auction_ended d) = "AuctionEnded"
event_type (auction_uncross d) = "AuctionUncross"
event_type (indicative_price_updated d) = "IndicativePriceUpdated"
