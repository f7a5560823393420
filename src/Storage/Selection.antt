-- ===== src/Storage/Selection.antt =====
-- The filters and the paging of sim/api/storage/in_memory.py.
use tirrad_exchange_system.Prelude.{
  String, Bool, true, false, ◌&&◌, ◌||◌, Option, none, some, List, ◌==◌, take, drop,
}
use tirrad_exchange_system.Prelude.Int.{ℤ, pos_part}
use tirrad_exchange_system.Json.{Value, Fields, text, object, get, has_key}

-- items[start:] or items[start : start + max(0, limit)], with start = max(0, offset).
unfoldable pub page : List Fields → Option ℤ → ℤ → List Fields
page items none offset = drop (pos_part offset) items
page items (some limit) offset = take (pos_part limit) (drop (pos_part offset) items)

-- value if isinstance(value, str) else None
abbrev pub string_of : Option Value → Option String
string_of (some (text s)) = some s
string_of _ = none

unfoldable pub event_symbol : Fields → Option String
event_symbol event = elim (get "data" event) [
  | some (object fields) ↦ string_of (get "symbol" fields)
  | _ ↦ string_of (get "symbol" event)
]

-- value == s, for a string s.
abbrev pub equals_text : Option Value → String → Bool
equals_text (some (text v)) s = v == s
equals_text _ s = false

abbrev pub equals_some : Option String → String → Bool
equals_some none s = false
equals_some (some v) s = v == s

unfoldable pub matches_event : Option String → Option String → Fields → Bool
unfolding event_symbol
matches_event symbol event_type event = of_type event_type && of_symbol symbol
  where
    of_type : Option String → Bool
    of_type none = true
    of_type (some t) = equals_text (get "type" event) t

    of_symbol : Option String → Bool
    of_symbol none = true
    of_symbol (some s) = equals_some (event_symbol event) s

-- isinstance(value, dict) and symbol in value
abbrev pub holds_key : Option Value → String → Bool
holds_key (some (object fs)) s = has_key s fs
holds_key _ s = false

unfoldable pub matches_symbol : Option String → Fields → Bool
matches_symbol none payload = true
matches_symbol (some symbol) payload =
    equals_text (get "symbol" payload) symbol || holds_key (get "symbols" payload) symbol

-- `str_of` is Python's str on a value, None for a missing key.
unfoldable pub matches_account :
    (Option Value → String) → Option String → Option String → Fields → Bool
matches_account str_of account_id symbol payload = of_account account_id && of_symbol symbol
  where
    of_account : Option String → Bool
    of_account none = true
    of_account (some a) = str_of (get "account_id" payload) == a

    of_symbol : Option String → Bool
    of_symbol none = true
    of_symbol (some s) =
        holds_key (get "positions" payload) s || holds_key (get "mark_to_market" payload) s
