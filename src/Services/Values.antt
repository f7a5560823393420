-- ===== src/Services/Values.antt =====
-- Python's truth of a JSON value, and its `or`, as sim/api/services use them.
use tirrad_exchange_system.Prelude.{
  Bool, true, false, not, ◌||◌, Option, none, some, ◌==◌, if◌then◌else◌,
}
use tirrad_exchange_system.Prelude.Int.{pos, eqb_ℤ}
use tirrad_exchange_system.Json.{
  Value, null, bool, int, float, text, array, object, nil, cons, end, field,
}

-- bool(value); a float is its repr.
abbrev pub truthy : Value → Bool
truthy null = false
truthy (bool b) = b
truthy (int n) = not (eqb_ℤ n (pos 0))
truthy (float r) = not (r == "0.0" || r == "-0.0")
truthy (text s) = not (s == "")
truthy (array nil) = false
truthy (array (cons v vs)) = true
truthy (object end) = false
truthy (object (field k v fs)) = true

abbrev pub flag : Option Value → Bool
flag none = false
flag (some v) = truthy v

abbrev pub or_value : Option Value → Option Value → Option Value
or_value none v = v
or_value (some u) v = if truthy u then some u else v
