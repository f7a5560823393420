-- ===== src/Verification/Normal.antt =====
-- `_normalize` of sim/tes_replay/verification.py, and Python's == on the values that it compares.
-- The keys of a dict are texts. The == on numbers, which counts 1, 1.0 and True as equal, is Python's.
pub mod Stable
use tirrad_exchange_system.Prelude.{
  String, Bool, true, false, ◌&&◌, List, [], ◌∷◌, Option, none, some, ◌==◌, if◌then◌else◌, ℕ, ◌+◌,
  eqb,
}
use tirrad_exchange_system.Prelude.Text.{text_leb}
use tirrad_exchange_system.Json.{
  Value, null, bool, int, float, text, array, object, Items, nil, cons, Fields, end, field, get,
  one_of,
}

abbrev pub timestamp_keys : List String
timestamp_keys =
    "timestamp" ∷ "created_at" ∷ "started_at" ∷ "completed_at" ∷ "generated_at" ∷ "updated_at" ∷ []

-- sorted(value.items(), key=...), one entry at a time.
unfoldable pub insert_field : String → Value → Fields → Fields
insert_field k v end = field k v end
insert_field k v (field j w fs) =
    let rest = field j w (insert_field k v fs) in
    if text_leb k j then field k v (field j w fs) else rest

unfoldable mutual
  unfolding insert_field

  pub normalize : Value → Value
  normalize (array xs) = array (normalize_items xs)
  normalize (object fs) = object (normalize_fields fs)
  normalize v = v

  pub normalize_items : Items → Items
  normalize_items nil = nil
  normalize_items (cons v vs) = cons (normalize v) (normalize_items vs)

  pub normalize_fields : Fields → Fields
  normalize_fields end = end
  normalize_fields (field k v fs) =
      let rest = normalize_fields fs in
      if one_of k timestamp_keys then rest else insert_field k (normalize v) rest

-- len(d)
abbrev pub size_of : Fields → ℕ
size_of end = 0
size_of (field k v fs) = 1 + size_of fs

-- a == b. `scalar_eq` is == where neither is a list or a dict; dicts are equal whatever their order.
unfoldable mutual
  pub value_eq : (Value → Value → Bool) → Value → Value → Bool
  value_eq scalar_eq (array xs) (array ys) = items_eq scalar_eq xs ys
  value_eq scalar_eq (object fs) (object gs) =
      eqb (size_of fs) (size_of gs) && fields_in scalar_eq fs gs
  value_eq scalar_eq (array xs) w = false
  value_eq scalar_eq (object fs) w = false
  value_eq scalar_eq v (array ys) = false
  value_eq scalar_eq v (object gs) = false
  value_eq scalar_eq v w = scalar_eq v w

  pub items_eq : (Value → Value → Bool) → Items → Items → Bool
  items_eq scalar_eq nil nil = true
  items_eq scalar_eq (cons v vs) (cons w ws) = value_eq scalar_eq v w && items_eq scalar_eq vs ws
  items_eq scalar_eq _ _ = false

  pub fields_in : (Value → Value → Bool) → Fields → Fields → Bool
  fields_in scalar_eq end gs = true
  fields_in scalar_eq (field k v fs) gs = elim (get k gs) [
    | none ↦ false
    | some w ↦ value_eq scalar_eq v w && fields_in scalar_eq fs gs
  ]
