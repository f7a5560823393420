-- ===== src/Models/Commands/Validity.antt =====
-- What `parse_command` of sim/tes_models/commands.py lets through.
use tirrad_exchange_system.Prelude.{
  ◌≡◌, String, Bool, true, false, [], ◌∷◌, ◌==◌, if◌then◌else◌, arith, Bool-cases, inl, inr, subst,
}
use tirrad_exchange_system.Prelude.Int.{ℤ, pos, ltb_ℤ, leb_ℤ, ◌<ℤ◌, ◌≤ℤ◌}
use tirrad_exchange_system.Prelude.Results.{Result, ok, err, ◌>>=◌}
use tirrad_exchange_system.Json.{Value, Fields}
use tirrad_exchange_system.Models.Require.{
  Fault, display_above_total, require_dict, require_exact_keys, item, require_text, require_int,
  require_positive_int, positive_field, side_field, phase_field, reason_text, symbol_field,
  optional_symbol,
}
use tirrad_exchange_system.Models.Commands.{
  TesCommand, limit_order, hidden_order, iceberg_order, market_order, stop_order, stop_limit_order,
  cancel_order, replace_order, set_trading_phase, halt_symbol, resume_symbol, set_price_bands,
  clear_price_bands, uncross_auction,
}
use tirrad_exchange_system.Models.Commands.Parsing.{
  parse_command, parse_command_data, require_command_keys, time_in_force_field, parse_limit_order,
  parse_hidden_order, parse_iceberg_order, parse_market_order, parse_stop_order,
  parse_stop_limit_order, parse_cancel_order, parse_replace_order, parse_set_trading_phase,
  parse_halt_symbol, parse_resume_symbol, parse_set_price_bands, parse_clear_price_bands,
  parse_uncross_auction,
}

abbrev pub IsPositive : ℤ → Type 0
IsPositive n = pos 0 <ℤ n

-- Every id, price and quantity is positive, and an iceberg order shows no more than it holds.
abbrev pub IsValid : TesCommand → Type 0
IsValid (limit_order c) = IsPositive c.price × IsPositive c.qty
IsValid (hidden_order c) = IsPositive c.price × IsPositive c.qty
IsValid (iceberg_order c) =
    IsPositive c.price
    × IsPositive c.total_qty
    × IsPositive c.display_qty
    × (c.display_qty ≤ℤ c.total_qty)
IsValid (market_order c) = IsPositive c.qty
IsValid (stop_order c) = IsPositive c.stop_price × IsPositive c.qty
IsValid (stop_limit_order c) = IsPositive c.stop_price × IsPositive c.limit_price × IsPositive c.qty
IsValid (cancel_order c) = IsPositive c.order_id
IsValid (replace_order c) = IsPositive c.order_id × IsPositive c.price × IsPositive c.qty
IsValid (set_trading_phase c) = Unit
IsValid (halt_symbol c) = Unit
IsValid (resume_symbol c) = Unit
IsValid (set_price_bands c) = IsPositive c.lower_price × IsPositive c.upper_price
IsValid (clear_price_bands c) = Unit
IsValid (uncross_auction c) = Unit

-- If there is a result, it satisfies `P`.
abbrev pub Ensures : {A : Type 0} → (A → Type 0) → Result Fault A → Type 0
Ensures P (ok a) = P a
Ensures P (err e) = Unit

Ensures-bind :
    {A B : Type 0} (P : A → Type 0) (Q : B → Type 0) (m : Result Fault A) (f : A → Result Fault B)
    → Ensures P m
    → ((a : A) → P a → Ensures Q (f a))
    → Ensures Q (m >>= f)
Ensures-bind P Q (ok a) f h k = k a h
Ensures-bind P Q (err e) f h k = tt

Ensures-skip :
    {A B : Type 0} (Q : B → Type 0) (m : Result Fault A) (f : A → Result Fault B)
    → ((a : A) → Ensures Q (f a))
    → Ensures Q (m >>= f)
Ensures-skip Q (ok a) f k = k a
Ensures-skip Q (err e) f k = tt

Ensures-if :
    {A : Type 0} (Q : A → Type 0) (b : Bool) (m n : Result Fault A)
    → Ensures Q m
    → Ensures Q n
    → Ensures Q (if b then m else n)
Ensures-if Q true m n h k = h
Ensures-if Q false m n h k = k

require_positive_int-IsPositive :
    (v : Value) (k : String) → Ensures IsPositive (require_positive_int v k)
unfolding require_positive_int
require_positive_int-IsPositive v k = Ensures-skip IsPositive (require_int v k) _ (λ n. checked n)
  where
    checked :
        (n : ℤ) → Ensures IsPositive (if leb_ℤ n (pos 0) then err (Fault.not_positive k) else ok n)
    checked n = elim (Bool-cases (leb_ℤ n (pos 0))) [
      | inl e ↦ rw e tt
      | inr e ↦ rw e (ground arith)
    ]

positive_field-IsPositive : (k : String) (d : Fields) → Ensures IsPositive (positive_field k d)
unfolding positive_field
positive_field-IsPositive k d =
    Ensures-skip IsPositive (item k d) _ (λ v. require_positive_int-IsPositive v k)

shows_at_most :
    (total shown : ℤ)
    → Ensures (λ t. shown ≤ℤ total) (if ltb_ℤ total shown then err display_above_total else ok tt)
shows_at_most total shown = elim (Bool-cases (ltb_ℤ total shown)) [
  | inl e ↦ rw e tt
  | inr e ↦ rw e (ground arith)
]

limit_order-IsValid : (d : Fields) → Ensures IsValid (parse_limit_order d)
unfolding parse_limit_order
limit_order-IsValid d =
    Ensures-skip IsValid
      (require_command_keys d ("side" ∷ "price" ∷ "qty" ∷ "time_in_force" ∷ []) "LimitOrder.data") _
      λ u. Ensures-skip IsValid (side_field d) _ λ side.
        Ensures-bind IsPositive IsValid (positive_field "price" d) _
          (positive_field-IsPositive "price" d)
          λ price price_positive.
            Ensures-bind IsPositive IsValid (positive_field "qty" d) _
              (positive_field-IsPositive "qty" d)
              λ qty qty_positive. Ensures-skip IsValid (time_in_force_field d) _ λ time_in_force.
                Ensures-skip IsValid (optional_symbol d) _ λ symbol. (price_positive, qty_positive)

hidden_order-IsValid : (d : Fields) → Ensures IsValid (parse_hidden_order d)
unfolding parse_hidden_order
hidden_order-IsValid d =
    Ensures-skip IsValid (require_command_keys d ("side" ∷ "price" ∷ "qty" ∷ []) "HiddenOrder.data")
      _
      λ u. Ensures-skip IsValid (side_field d) _ λ side.
        Ensures-bind IsPositive IsValid (positive_field "price" d) _
          (positive_field-IsPositive "price" d)
          λ price price_positive.
            Ensures-bind IsPositive IsValid (positive_field "qty" d) _
              (positive_field-IsPositive "qty" d)
              λ qty qty_positive.
                Ensures-skip IsValid (optional_symbol d) _ λ symbol. (price_positive, qty_positive)

iceberg_order-IsValid : (d : Fields) → Ensures IsValid (parse_iceberg_order d)
unfolding parse_iceberg_order
iceberg_order-IsValid d =
    Ensures-skip IsValid
      (require_command_keys d ("side" ∷ "price" ∷ "total_qty" ∷ "display_qty" ∷ [])
        "IcebergOrder.data")
      _
      λ u.
        Ensures-bind IsPositive IsValid (positive_field "total_qty" d) _
          (positive_field-IsPositive "total_qty" d)
          λ total_qty total_qty_positive.
            Ensures-bind IsPositive IsValid (positive_field "display_qty" d) _
              (positive_field-IsPositive "display_qty" d)
              λ display_qty display_qty_positive.
                Ensures-bind _ IsValid
                  (if ltb_ℤ total_qty display_qty then err display_above_total else ok tt) _
                  (shows_at_most total_qty display_qty)
                  λ u' shown. Ensures-skip IsValid (side_field d) _ λ side.
                    Ensures-bind IsPositive IsValid (positive_field "price" d) _
                      (positive_field-IsPositive "price" d)
                      λ price price_positive.
                        Ensures-skip IsValid (optional_symbol d) _ λ symbol.
                          (price_positive, total_qty_positive, display_qty_positive, shown)

market_order-IsValid : (d : Fields) → Ensures IsValid (parse_market_order d)
unfolding parse_market_order
market_order-IsValid d =
    Ensures-skip IsValid (require_command_keys d ("side" ∷ "qty" ∷ []) "MarketOrder.data") _ λ u.
      Ensures-skip IsValid (side_field d) _ λ side.
        Ensures-bind IsPositive IsValid (positive_field "qty" d) _
          (positive_field-IsPositive "qty" d)
          λ qty qty_positive. Ensures-skip IsValid (optional_symbol d) _ λ symbol. qty_positive

stop_order-IsValid : (d : Fields) → Ensures IsValid (parse_stop_order d)
unfolding parse_stop_order
stop_order-IsValid d =
    Ensures-skip IsValid
      (require_command_keys d ("side" ∷ "stop_price" ∷ "qty" ∷ []) "StopMarketOrder.data") _
      λ u. Ensures-skip IsValid (side_field d) _ λ side.
        Ensures-bind IsPositive IsValid (positive_field "stop_price" d) _
          (positive_field-IsPositive "stop_price" d)
          λ stop_price stop_price_positive.
            Ensures-bind IsPositive IsValid (positive_field "qty" d) _
              (positive_field-IsPositive "qty" d)
              λ qty qty_positive.
                Ensures-skip IsValid (optional_symbol d) _
                  λ symbol. (stop_price_positive, qty_positive)

stop_limit_order-IsValid : (d : Fields) → Ensures IsValid (parse_stop_limit_order d)
unfolding parse_stop_limit_order
stop_limit_order-IsValid d =
    Ensures-skip IsValid
      (require_command_keys d ("side" ∷ "stop_price" ∷ "limit_price" ∷ "qty" ∷ [])
        "StopLimitOrder.data")
      _
      λ u. Ensures-skip IsValid (side_field d) _ λ side.
        Ensures-bind IsPositive IsValid (positive_field "stop_price" d) _
          (positive_field-IsPositive "stop_price" d)
          λ stop_price stop_price_positive.
            Ensures-bind IsPositive IsValid (positive_field "limit_price" d) _
              (positive_field-IsPositive "limit_price" d)
              λ limit_price limit_price_positive.
                Ensures-bind IsPositive IsValid (positive_field "qty" d) _
                  (positive_field-IsPositive "qty" d)
                  λ qty qty_positive.
                    Ensures-skip IsValid (optional_symbol d) _
                      λ symbol. (stop_price_positive, limit_price_positive, qty_positive)

cancel_order-IsValid : (d : Fields) → Ensures IsValid (parse_cancel_order d)
unfolding parse_cancel_order
cancel_order-IsValid d =
    Ensures-skip IsValid (require_exact_keys d ("order_id" ∷ []) "CancelOrder.data") _ λ u.
      Ensures-bind IsPositive IsValid (positive_field "order_id" d) _
        (positive_field-IsPositive "order_id" d) λ order_id order_id_positive. order_id_positive

replace_order-IsValid : (d : Fields) → Ensures IsValid (parse_replace_order d)
unfolding parse_replace_order
replace_order-IsValid d =
    Ensures-skip IsValid
      (require_exact_keys d ("order_id" ∷ "price" ∷ "qty" ∷ []) "ReplaceOrder.data") _
      λ u.
        Ensures-bind IsPositive IsValid (positive_field "order_id" d) _
          (positive_field-IsPositive "order_id" d)
          λ order_id order_id_positive.
            Ensures-bind IsPositive IsValid (positive_field "price" d) _
              (positive_field-IsPositive "price" d)
              λ price price_positive.
                Ensures-bind IsPositive IsValid (positive_field "qty" d) _
                  (positive_field-IsPositive "qty" d)
                  λ qty qty_positive. (order_id_positive, price_positive, qty_positive)

set_trading_phase-IsValid : (d : Fields) → Ensures IsValid (parse_set_trading_phase d)
unfolding parse_set_trading_phase
set_trading_phase-IsValid d =
    Ensures-skip IsValid (require_exact_keys d ("symbol" ∷ "phase" ∷ []) "SetTradingPhase.data") _
      λ u.
        Ensures-skip IsValid (symbol_field d) _
          λ symbol. Ensures-skip IsValid (phase_field d) _ λ phase. tt

halt_symbol-IsValid : (d : Fields) → Ensures IsValid (parse_halt_symbol d)
unfolding parse_halt_symbol
halt_symbol-IsValid d =
    Ensures-skip IsValid (require_exact_keys d ("symbol" ∷ "reason" ∷ []) "HaltSymbol.data") _ λ u.
      Ensures-skip IsValid (reason_text d) _
        λ reason. Ensures-skip IsValid (symbol_field d) _ λ symbol. tt

resume_symbol-IsValid : (d : Fields) → Ensures IsValid (parse_resume_symbol d)
unfolding parse_resume_symbol
resume_symbol-IsValid d =
    Ensures-skip IsValid (require_exact_keys d ("symbol" ∷ []) "ResumeSymbol.data") _
      λ u. Ensures-skip IsValid (symbol_field d) _ λ symbol. tt

set_price_bands-IsValid : (d : Fields) → Ensures IsValid (parse_set_price_bands d)
unfolding parse_set_price_bands
set_price_bands-IsValid d =
    Ensures-skip IsValid
      (require_exact_keys d ("symbol" ∷ "lower_price" ∷ "upper_price" ∷ []) "SetPriceBands.data") _
      λ u. Ensures-skip IsValid (symbol_field d) _ λ symbol.
        Ensures-bind IsPositive IsValid (positive_field "lower_price" d) _
          (positive_field-IsPositive "lower_price" d)
          λ lower_price lower_price_positive.
            Ensures-bind IsPositive IsValid (positive_field "upper_price" d) _
              (positive_field-IsPositive "upper_price" d)
              λ upper_price upper_price_positive. (lower_price_positive, upper_price_positive)

clear_price_bands-IsValid : (d : Fields) → Ensures IsValid (parse_clear_price_bands d)
unfolding parse_clear_price_bands
clear_price_bands-IsValid d =
    Ensures-skip IsValid (require_exact_keys d ("symbol" ∷ []) "ClearPriceBands.data") _
      λ u. Ensures-skip IsValid (symbol_field d) _ λ symbol. tt

uncross_auction-IsValid : (d : Fields) → Ensures IsValid (parse_uncross_auction d)
unfolding parse_uncross_auction
uncross_auction-IsValid d =
    Ensures-skip IsValid (require_command_keys d [] "UncrossAuction.data") _
      λ u. Ensures-skip IsValid (optional_symbol d) _ λ symbol. tt

parse_command_data-IsValid : (t : String) (d : Fields) → Ensures IsValid (parse_command_data t d)
unfolding parse_command_data
parse_command_data-IsValid t d =
    Ensures-if IsValid (t == "LimitOrder") _ _ (limit_order-IsValid d) (
      Ensures-if IsValid (t == "HiddenOrder") _ _ (hidden_order-IsValid d) (
        Ensures-if IsValid (t == "IcebergOrder") _ _ (iceberg_order-IsValid d) (
          Ensures-if IsValid (t == "MarketOrder") _ _ (market_order-IsValid d) (
            Ensures-if IsValid (t == "StopMarketOrder") _ _ (stop_order-IsValid d) (
              Ensures-if IsValid (t == "StopLimitOrder") _ _ (stop_limit_order-IsValid d) (
                Ensures-if IsValid (t == "CancelOrder") _ _ (cancel_order-IsValid d) (
                  Ensures-if IsValid (t == "ReplaceOrder") _ _ (replace_order-IsValid d) (
                    Ensures-if IsValid (t == "SetTradingPhase") _ _ (set_trading_phase-IsValid d) (
                      Ensures-if IsValid (t == "HaltSymbol") _ _ (halt_symbol-IsValid d) (
                        Ensures-if IsValid (t == "ResumeSymbol") _ _ (resume_symbol-IsValid d) (
                          Ensures-if IsValid (t == "SetPriceBands") _ _ (set_price_bands-IsValid d)
                            (Ensures-if IsValid (t == "ClearPriceBands") _ _
                              (clear_price_bands-IsValid d)
                              (Ensures-if IsValid (t == "UncrossAuction") _ _
                                (uncross_auction-IsValid d) (tt))))))))))))))

parse_command-Ensures : (raw : Value) → Ensures IsValid (parse_command raw)
unfolding parse_command
parse_command-Ensures raw = Ensures-skip IsValid (require_dict raw "command") _ λ command.
    Ensures-skip IsValid (require_exact_keys command ("type" ∷ "data" ∷ []) "command") _ λ u.
      Ensures-skip IsValid (item "type" command) _ λ type_value.
        Ensures-skip IsValid (require_text type_value "type") _ λ command_type.
          Ensures-skip IsValid (item "data" command) _ λ data_value.
            Ensures-skip IsValid (require_dict data_value "command.data") _
              λ d. parse_command_data-IsValid command_type d

-- A command that `parse_command` returns has positive ids, prices and quantities, and an iceberg
-- order among them shows no more than its total.
pub parse_command-IsValid : (raw : Value) (c : TesCommand) → parse_command raw ≡ ok c → IsValid c
parse_command-IsValid raw c e = subst (Ensures IsValid) e (parse_command-Ensures raw)
