-- ===== src/Models/Commands.antt =====
-- The commands for the engine: the dataclasses of sim/tes_models/commands.py. `TesCommand` has one
-- constructor for each command class.
pub mod Parsing
pub mod Validity
use tirrad_exchange_system.Prelude.{String}
use tirrad_exchange_system.Prelude.Int.{ℤ}
use tirrad_exchange_system.Models.Events.{Side, TradingPhase}

pub data TimeInForce : Type 0 where
  gtc ioc fok : TimeInForce

pub record LimitOrderCommand : Type 0 where
  pub side : Side
  pub price : ℤ
  pub qty : ℤ
  pub time_in_force : TimeInForce
  pub symbol : String

pub record HiddenOrderCommand : Type 0 where
  pub side : Side
  pub price : ℤ
  pub qty : ℤ
  pub symbol : String

pub record IcebergOrderCommand : Type 0 where
  pub side : Side
  pub price : ℤ
  pub total_qty : ℤ
  pub display_qty : ℤ
  pub symbol : String

pub record MarketOrderCommand : Type 0 where
  pub side : Side
  pub qty : ℤ
  pub symbol : String

pub record StopOrderCommand : Type 0 where
  pub side : Side
  pub stop_price : ℤ
  pub qty : ℤ
  pub symbol : String

pub record StopLimitOrderCommand : Type 0 where
  pub side : Side
  pub stop_price : ℤ
  pub limit_price : ℤ
  pub qty : ℤ
  pub symbol : String

pub record CancelOrderCommand : Type 0 where
  pub order_id : ℤ

pub record ReplaceOrderCommand : Type 0 where
  pub order_id : ℤ
  pub price : ℤ
  pub qty : ℤ

pub record SetTradingPhaseCommand : Type 0 where
  pub symbol : String
  pub phase : TradingPhase

pub record HaltSymbolCommand : Type 0 where
  pub symbol : String
  pub reason : String

pub record ResumeSymbolCommand : Type 0 where
  pub symbol : String

pub record SetPriceBandsCommand : Type 0 where
  pub symbol : String
  pub lower_price : ℤ
  pub upper_price : ℤ

pub record ClearPriceBandsCommand : Type 0 where
  pub symbol : String

pub record UncrossAuctionCommand : Type 0 where
  pub symbol : String

pub data TesCommand : Type 0 where
  limit_order : LimitOrderCommand → TesCommand
  hidden_order : HiddenOrderCommand → TesCommand
  iceberg_order : IcebergOrderCommand → TesCommand
  market_order : MarketOrderCommand → TesCommand
  stop_order : StopOrderCommand → TesCommand
  stop_limit_order : StopLimitOrderCommand → TesCommand
  cancel_order : CancelOrderCommand → TesCommand
  replace_order : ReplaceOrderCommand → TesCommand
  set_trading_phase : SetTradingPhaseCommand → TesCommand
  halt_symbol : HaltSymbolCommand → TesCommand
  resume_symbol : ResumeSymbolCommand → TesCommand
  set_price_bands : SetPriceBandsCommand → TesCommand
  clear_price_bands : ClearPriceBandsCommand → TesCommand
  uncross_auction : UncrossAuctionCommand → TesCommand
