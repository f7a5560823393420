-- ===== src/Models/Require.antt =====
-- The `_require_*` helpers that sim/tes_models/events.py and sim/tes_models/commands.py both define.
-- A `Fault` is the exception: which check raised it, with the name that its message gives.
use tirrad_exchange_system.Prelude.{
  String, ◌||◌, Option, none, some, List, ◌∷◌, ◌==◌, if◌then◌else◌, or_else,
}
use tirrad_exchange_system.Prelude.Int.{ℤ, pos, leb_ℤ}
use tirrad_exchange_system.Prelude.Results.{Result, ok, err, ◌>>=◌}
use tirrad_exchange_system.Json.{Value, Fields, null, int, text, array, object, get, keys_are}
use tirrad_exchange_system.Models.Events.{
  Side, buy, sell, TradingPhase, continuous, opening_auction, closing_auction, halted, RejectReason,
  invalid_price, invalid_quantity, unknown_order_id, no_liquidity, insufficient_cash,
  insufficient_position, wrong_account, insufficient_buying_power, short_selling_disabled,
  margin_requirement_failed, maintenance_margin_breached, halted_symbol, price_band_violation,
  circuit_breaker_violation, auction_price_out_of_band, default_symbol,
}

-- All are a ValueError but the last two: a TypeError, of `in` on a set with an unhashable value, and
-- a KeyError.
pub data Fault : Type 0 where
  not_a_dict wrong_keys not_an_int not_positive not_a_string unknown_type : String → Fault
  bad_side bad_phase bad_time_in_force bad_reason not_a_list display_above_total : Fault
  unhashable : Fault
  missing_key : String → Fault

-- d[key]
abbrev or_missing : String → Option Value → Result Fault Value
or_missing k none = err (missing_key k)
or_missing k (some v) = ok v

unfoldable pub item : String → Fields → Result Fault Value
item k d = or_missing k (get k d)

unfoldable pub require_dict : Value → String → Result Fault Fields
require_dict (object d) name = ok d
require_dict _ name = err (not_a_dict name)

unfoldable pub require_exact_keys : Fields → List String → String → Result Fault Unit
require_exact_keys d expected name = if keys_are expected d then ok tt else err (wrong_keys name)

unfoldable pub require_event_keys : Fields → List String → String → Result Fault Unit
require_event_keys d expected name =
    if keys_are expected d || keys_are ("symbol" ∷ expected) d then ok tt else err (wrong_keys name)

unfoldable pub require_int : Value → String → Result Fault ℤ
require_int (int n) name = ok n
require_int _ name = err (not_an_int name)

unfoldable pub require_positive_int : Value → String → Result Fault ℤ
unfolding require_int
require_positive_int v name = do
  parsed ← require_int v name
  if leb_ℤ parsed (pos 0) then err (not_positive name) else ok parsed

unfoldable pub require_optional_int : Value → String → Result Fault (Option ℤ)
unfolding require_int
require_optional_int null name = ok none
require_optional_int v name = do n ← require_int v name; ok (some n)

-- `if not isinstance(value, str): raise ValueError(...)`
unfoldable pub require_text : Value → String → Result Fault String
require_text (text s) name = ok s
require_text _ name = err (not_a_string name)

unfoldable pub require_symbol : Value → Result Fault String
unfolding require_text
require_symbol v = require_text v "symbol"

unfoldable pub optional_symbol : Fields → Result Fault String
unfolding require_symbol
optional_symbol d = require_symbol (or_else (get "symbol" d) (text default_symbol))

-- `value not in {...}`: a list or a dict cannot be hashed.
unfoldable pub require_side : Value → Result Fault Side
require_side (text s) = if s == "BUY" then ok buy else if s == "SELL" then ok sell else err bad_side
require_side (array vs) = err unhashable
require_side (object d) = err unhashable
require_side _ = err bad_side

unfoldable pub phase_of : String → Result Fault TradingPhase
phase_of s =
    if s == "Continuous"
    then ok continuous
    else if s == "OpeningAuction"
    then ok opening_auction
    else if s == "ClosingAuction"
    then ok closing_auction
    else if s == "Halted"
    then ok halted
    else err bad_phase

unfoldable pub require_trading_phase : Value → Result Fault TradingPhase
unfolding phase_of
require_trading_phase (text s) = phase_of s
require_trading_phase (array vs) = err unhashable
require_trading_phase (object d) = err unhashable
require_trading_phase _ = err bad_phase

unfoldable pub reason_of : String → Result Fault RejectReason
reason_of s =
    if s == "InvalidPrice"
    then ok invalid_price
    else if s == "InvalidQuantity"
    then ok invalid_quantity
    else if s == "UnknownOrderId"
    then ok unknown_order_id
    else if s == "NoLiquidity"
    then ok no_liquidity
    else if s == "InsufficientCash"
    then ok insufficient_cash
    else if s == "InsufficientPosition"
    then ok insufficient_position
    else if s == "WrongAccount"
    then ok wrong_account
    else if s == "InsufficientBuyingPower"
    then ok insufficient_buying_power
    else if s == "ShortSellingDisabled"
    then ok short_selling_disabled
    else if s == "MarginRequirementFailed"
    then ok margin_requirement_failed
    else if s == "MaintenanceMarginBreached"
    then ok maintenance_margin_breached
    else if s == "SymbolHalted"
    then ok halted_symbol
    else if s == "PriceBandViolation"
    then ok price_band_violation
    else if s == "CircuitBreakerViolation"
    then ok circuit_breaker_violation
    else if s == "AuctionPriceOutOfBand"
    then ok auction_price_out_of_band
    else err bad_reason

unfoldable pub require_reject_reason : Value → Result Fault RejectReason
unfolding reason_of
require_reject_reason (text s) = reason_of s
require_reject_reason (array vs) = err unhashable
require_reject_reason (object d) = err unhashable
require_reject_reason _ = err bad_reason

-- The texts of the literals.
abbrev pub side_name : Side → String
side_name buy = "BUY"
side_name sell = "SELL"

abbrev pub phase_name : TradingPhase → String
phase_name continuous = "Continuous"
phase_name opening_auction = "OpeningAuction"
phase_name closing_auction = "ClosingAuction"
phase_name halted = "Halted"

abbrev pub reason_name : RejectReason → String
reason_name invalid_price = "InvalidPrice"
reason_name invalid_quantity = "InvalidQuantity"
reason_name unknown_order_id = "UnknownOrderId"
reason_name no_liquidity = "NoLiquidity"
reason_name insufficient_cash = "InsufficientCash"
reason_name insufficient_position = "InsufficientPosition"
reason_name wrong_account = "WrongAccount"
reason_name insufficient_buying_power = "InsufficientBuyingPower"
reason_name short_selling_disabled = "ShortSellingDisabled"
reason_name margin_requirement_failed = "MarginRequirementFailed"
reason_name maintenance_margin_breached = "MaintenanceMarginBreached"
reason_name halted_symbol = "SymbolHalted"
reason_name price_band_violation = "PriceBandViolation"
reason_name circuit_breaker_violation = "CircuitBreakerViolation"
reason_name auction_price_out_of_band = "AuctionPriceOutOfBand"

-- One field of a `data` dict, looked up and checked.
unfoldable pub int_field : String → Fields → Result Fault ℤ
unfolding item require_int
int_field k d = do v ← item k d; require_int v k

unfoldable pub positive_field : String → Fields → Result Fault ℤ
unfolding item require_positive_int
positive_field k d = do v ← item k d; require_positive_int v k

unfoldable pub optional_int_field : String → Fields → Result Fault (Option ℤ)
unfolding item
optional_int_field k d = do v ← item k d; require_optional_int v k

unfoldable pub side_field : Fields → Result Fault Side
unfolding item
side_field d = do v ← item "side" d; require_side v

unfoldable pub phase_field : Fields → Result Fault TradingPhase
unfolding item
phase_field d = do v ← item "phase" d; require_trading_phase v

unfoldable pub reason_field : Fields → Result Fault RejectReason
unfolding item
reason_field d = do v ← item "reason" d; require_reject_reason v

-- A reason that may be any text.
unfoldable pub reason_text : Fields → Result Fault String
unfolding item require_text
reason_text d = do v ← item "reason" d; require_text v "reason"

unfoldable pub symbol_field : Fields → Result Fault String
unfolding item require_symbol
symbol_field d = do v ← item "symbol" d; require_symbol v
