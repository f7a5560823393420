-- ===== src/Models/RoundTrip/Fields.antt =====
-- The texts of the literals, and the default symbol, are read back.
use tirrad_exchange_system.Prelude.{
  ◌≡◌, refl, String, false, Bool-cases, ◌==◌, eq_iff, inl, inr, subst, sym, Option, none, some,
}
use tirrad_exchange_system.Prelude.Int.{ℤ}
use tirrad_exchange_system.Prelude.Results.{ok}
use tirrad_exchange_system.Json.{text}
use tirrad_exchange_system.Models.Require.{
  require_side, require_trading_phase, require_reject_reason, require_optional_int, side_name,
  phase_name, reason_name,
}
use tirrad_exchange_system.Models.Events.{
  default_symbol, TesEngineEvent, Side, buy, sell, TradingPhase, continuous, RejectReason,
  invalid_price,
}
use tirrad_exchange_system.Models.Events.Parsing.{parse_event}
use tirrad_exchange_system.Models.Serialization.{serialize_event, optional_int}

pub require_side-name : (s : Side) → require_side (text (side_name s)) ≡ ok s
unfolding require_side
require_side-name buy = refl
require_side-name sell = refl

pub require_trading_phase-name :
    (p : TradingPhase) → require_trading_phase (text (phase_name p)) ≡ ok p
unfolding require_trading_phase
require_trading_phase-name continuous = refl
require_trading_phase-name _ = refl

pub require_reject_reason-name :
    (r : RejectReason) → require_reject_reason (text (reason_name r)) ≡ ok r
unfolding require_reject_reason
require_reject_reason-name invalid_price = refl
require_reject_reason-name _ = refl

pub require_optional_int-written :
    (n : Option ℤ) (k : String) → require_optional_int (optional_int n) k ≡ ok n
unfolding require_optional_int
require_optional_int-written none k = refl
require_optional_int-written (some n) k = refl

-- To prove a statement of a symbol: for the default one, and for one that is not.
pub by_symbol :
    (P : String → Type 0) (s : String)
    → P default_symbol
    → ((s == default_symbol) ≡ false → P s)
    → P s
by_symbol P s d other = elim (Bool-cases (s == default_symbol)) [
  | inl e ↦ subst P (sym ((eq_iff s default_symbol).0 e)) d
  | inr e ↦ other e
]

abbrev pub Restored : TesEngineEvent → Type 0
Restored e = parse_event (serialize_event e) ≡ ok e
