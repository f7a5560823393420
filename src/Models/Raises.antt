-- ===== src/Models/Raises.antt =====
-- What the parsers of sim/tes_models may raise.
pub mod Orders
pub mod Market
pub mod Events
use tirrad_exchange_system.Prelude.{
  ◌≡◌, refl, String, Bool, true, false, ◌&&◌, Option, none, some, List, [], ◌∷◌, arith,
  if◌then◌else◌, eq_iff, Bool-cases, inl, inr, ◌||◌, is_some,
}
use tirrad_exchange_system.Prelude.Results.{Result, ok, err, ◌>>=◌, ◌>>◌}
use tirrad_exchange_system.Json.{
  Value, text, Fields, end, field, get, has_key, one_of, keys_within, keys_cover, keys_are,
}
use tirrad_exchange_system.Models.Require.{
  Fault, missing_key, item, int_field, optional_int_field, side_field, reason_field, phase_field,
  reason_text, symbol_field, optional_symbol, reason_of, require_dict, require_int,
  require_optional_int, require_side, require_trading_phase, require_reject_reason, require_text,
  require_symbol, require_event_keys, require_exact_keys, positive_field, require_positive_int,
}
use tirrad_exchange_system.Models.Events.{TesEngineEvent}
use tirrad_exchange_system.Models.Events.OrderParsing.{parse_iceberg_order_accepted}

-- The result is a value, or an exception that is no KeyError.
abbrev pub no_key_error : {A : Type 0} → Result Fault A → Bool
no_key_error (ok a) = true
no_key_error (err (missing_key k)) = false
no_key_error (err f) = true

pub >>=-no_key_error :
    {A B : Type 0} (m : Result Fault A) (f : A → Result Fault B)
    → no_key_error m ≡ true
    → ((a : A) → no_key_error (f a) ≡ true)
    → no_key_error (m >>= f) ≡ true
>>=-no_key_error (ok a) f h k = k a
>>=-no_key_error (err (missing_key s)) f h k = cc
>>=-no_key_error (err f') f h k = h

get-has_key : (k : String) (d : Fields) → is_some (get k d) ≡ has_key k d
get-has_key k end = refl
get-has_key k (field j v d) = ground (arith, get-has_key k d)

keys_cover-one_of :
    (ks : List String) (k : String) (d : Fields)
    → keys_cover ks d ≡ true
    → one_of k ks ≡ true
    → has_key k d ≡ true
keys_cover-one_of [] k d h m = cc
keys_cover-one_of (j ∷ ks) k d h m = ground (arith, keys_cover-one_of ks k d, eq_iff k j)

module _ (ks : List String) (k : String) (d : Fields) (h : keys_cover ks d ≡ true)
    (m : one_of k ks ≡ true) where
  pub item-no_key_error : no_key_error (item k d) ≡ true
  unfolding item
  item-no_key_error = ground (arith, get-has_key k d, keys_cover-one_of ks k d h m)

require_int-no_key_error : (v : Value) (s : String) → no_key_error (require_int v s) ≡ true
unfolding require_int
require_int-no_key_error v s = ground arith

pub require_dict-no_key_error : (v : Value) (s : String) → no_key_error (require_dict v s) ≡ true
unfolding require_dict
require_dict-no_key_error v s = ground arith

pub require_text-no_key_error : (v : Value) (s : String) → no_key_error (require_text v s) ≡ true
unfolding require_text
require_text-no_key_error v s = ground arith

require_side-no_key_error : (v : Value) → no_key_error (require_side v) ≡ true
unfolding require_side
require_side-no_key_error v = ground arith

require_trading_phase-no_key_error : (v : Value) → no_key_error (require_trading_phase v) ≡ true
unfolding require_trading_phase
require_trading_phase-no_key_error v = ground arith

pub if-no_key_error :
    {A : Type 0} (b : Bool) (m n : Result Fault A)
    → no_key_error m ≡ true
    → no_key_error n ≡ true
    → no_key_error (if b then m else n) ≡ true
if-no_key_error true m n h k = h
if-no_key_error false m n h k = k

reason_of-no_key_error : (s : String) → no_key_error (reason_of s) ≡ true
unfolding reason_of
reason_of-no_key_error s = search (if-no_key_error) depth 40

require_reject_reason-no_key_error : (v : Value) → no_key_error (require_reject_reason v) ≡ true
unfolding require_reject_reason
require_reject_reason-no_key_error (text s) = reason_of-no_key_error s
require_reject_reason-no_key_error v = refl

require_optional_int-no_key_error :
    (v : Value) (s : String) → no_key_error (require_optional_int v s) ≡ true
unfolding require_optional_int
require_optional_int-no_key_error v s = ground arith

module _ (ks : List String) (d : Fields) (h : keys_cover ks d ≡ true) where
  pub int_field-no_key_error :
      (k : String) → one_of k ks ≡ true → no_key_error (int_field k d) ≡ true
  unfolding int_field
  int_field-no_key_error k m =
      >>=-no_key_error (item k d) _ (item-no_key_error ks k d h m)
        (λ v. require_int-no_key_error v k)

  pub side_field-no_key_error : one_of "side" ks ≡ true → no_key_error (side_field d) ≡ true
  unfolding side_field
  side_field-no_key_error m =
      >>=-no_key_error (item "side" d) _ (item-no_key_error ks "side" d h m)
        (λ v. require_side-no_key_error v)

  pub optional_int_field-no_key_error :
      (k : String) → one_of k ks ≡ true → no_key_error (optional_int_field k d) ≡ true
  unfolding optional_int_field
  optional_int_field-no_key_error k m =
      >>=-no_key_error (item k d) _ (item-no_key_error ks k d h m)
        (λ v. require_optional_int-no_key_error v k)

  pub phase_field-no_key_error : one_of "phase" ks ≡ true → no_key_error (phase_field d) ≡ true
  unfolding phase_field
  phase_field-no_key_error m =
      >>=-no_key_error (item "phase" d) _ (item-no_key_error ks "phase" d h m)
        (λ v. require_trading_phase-no_key_error v)

  pub reason_field-no_key_error : one_of "reason" ks ≡ true → no_key_error (reason_field d) ≡ true
  unfolding reason_field
  reason_field-no_key_error m =
      >>=-no_key_error (item "reason" d) _ (item-no_key_error ks "reason" d h m)
        (λ v. require_reject_reason-no_key_error v)

  pub reason_text-no_key_error : one_of "reason" ks ≡ true → no_key_error (reason_text d) ≡ true
  unfolding reason_text
  reason_text-no_key_error m =
      >>=-no_key_error (item "reason" d) _ (item-no_key_error ks "reason" d h m)
        (λ v. require_text-no_key_error v "reason")

  pub symbol_field-no_key_error : one_of "symbol" ks ≡ true → no_key_error (symbol_field d) ≡ true
  unfolding symbol_field require_symbol
  symbol_field-no_key_error m =
      >>=-no_key_error (item "symbol" d) _ (item-no_key_error ks "symbol" d h m)
        (λ v. require_text-no_key_error v "symbol")

pub optional_symbol-no_key_error : (d : Fields) → no_key_error (optional_symbol d) ≡ true
unfolding optional_symbol require_symbol
optional_symbol-no_key_error d = require_text-no_key_error _ "symbol"

module _ {A : Type 0} (d : Fields) (ks : List String) (name : String) (k : Result Fault A) where
  pub event_keys-no_key_error :
      (keys_cover ks d ≡ true → no_key_error k ≡ true)
      → no_key_error (require_event_keys d ks name >> k) ≡ true
  unfolding require_event_keys
  event_keys-no_key_error h = elim (Bool-cases (keys_are ks d || keys_are ("symbol" ∷ ks) d)) [
    | inl e ↦ rw e (h (ground arith))
    | inr e ↦ rw e refl
  ]

  pub exact_keys-no_key_error :
      (keys_cover ks d ≡ true → no_key_error k ≡ true)
      → no_key_error (require_exact_keys d ks name >> k) ≡ true
  unfolding require_exact_keys
  exact_keys-no_key_error h = elim (Bool-cases (keys_are ks d)) [
    | inl e ↦ rw e (h (ground (arith)))
    | inr e ↦ rw e refl
  ]
