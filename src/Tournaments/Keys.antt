-- ===== src/Tournaments/Keys.antt =====
-- The keys of child runs, `_key` of sim/api/tournaments.py.
use Prim.Native.String.{◌++◌}
use tirrad_exchange_system.Prelude.{String, Bool, List, [], ◌∷◌, map, ◌==◌, if◌then◌else◌}
use tirrad_exchange_system.Prelude.Text.{text_leb}
use tirrad_exchange_system.Prelude.Sorting.{order_by}
use tirrad_exchange_system.Json.{Value, array, object, Fields, end, field, Float, items_of}

-- str.strip, str of a value, and x < 0.0.
pub record Builtins : Type 0 where
  pub strip : String → String
  pub str_of : Value → String
  pub is_negative : Float → Bool

-- separator.join(texts)
unfoldable pub joined : String → List String → String
joined separator [] = ""
joined separator (s ∷ []) = s
joined separator (s ∷ t ∷ ts) = s ++ (separator ++ joined separator (t ∷ ts))

abbrev pub entries_of : Fields → List (String × Value)
entries_of end = []
entries_of (field k v fs) = (k, v) ∷ entries_of fs

-- The entries in the order of their keys.
abbrev sorted_entries : Fields → List (String × Value)
sorted_entries fs = order_by (λ a b. text_leb a.0 b.0) (entries_of fs)

-- text or "none"
abbrev or_none : String → String
or_none s = if s == "" then "none" else s

-- The branches of the loop.
unfoldable pub rendered : Builtins → Value → String
unfolding joined
rendered b (object fs) =
    or_none (joined "," (map (λ e. e.0 ++ ("=" ++ b.str_of e.1)) (sorted_entries fs)))
rendered b (array vs) = joined "+" (map b.str_of (items_of vs))
rendered b v = b.str_of v

unfoldable pub key : Builtins → Fields → String
unfolding joined rendered
key b parts = joined "|" (map (λ e. e.0 ++ ("=" ++ rendered b e.1)) (sorted_entries parts))
