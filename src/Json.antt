-- ===== src/Json.antt =====
-- The values of Python that JSON documents hold, as `json.loads` and the engine's bindings give them:
-- the `Any` and `dict[str, Any]` of sim/tes_models, sim/tes_serialization, sim/tes_replay and sim/api.
-- A dict is its list of entries in insertion order. A float is its `repr`; what computes with it is a
-- parameter of the code that does.
use tirrad_exchange_system.Prelude.{
  String, Bool, true, false, ◌&&◌, Option, none, some, List, [], ◌∷◌, ◌==◌, if◌then◌else◌,
}
use tirrad_exchange_system.Prelude.Int.{ℤ}

abbrev pub Float : Type 0
Float = String

mutual
  pub data Value : Type 0 where
    null : Value
    bool : Bool → Value
    int : ℤ → Value
    float : Float → Value
    text : String → Value
    array : Items → Value
    object : Fields → Value

  pub data Items : Type 0 where
    nil : Items
    cons : Value → Items → Items

  pub data Fields : Type 0 where
    end : Fields
    field : String → Value → Fields → Fields

-- d.get(key)
abbrev pub get : String → Fields → Option Value
get k end = none
get k (field j v fs) = if j == k then some v else get k fs

-- key in d
abbrev pub has_key : String → Fields → Bool
has_key k end = false
has_key k (field j v fs) = if j == k then true else has_key k fs

-- d.pop(key)
abbrev pub remove : String → Fields → Fields
remove k end = end
remove k (field j v fs) = if j == k then fs else field j v (remove k fs)

abbrev pub one_of : String → List String → Bool
one_of s [] = false
one_of s (x ∷ xs) = if s == x then true else one_of s xs

abbrev pub keys_within : Fields → List String → Bool
keys_within end ks = true
keys_within (field k v fs) ks = one_of k ks && keys_within fs ks

abbrev pub keys_cover : List String → Fields → Bool
keys_cover [] fs = true
keys_cover (k ∷ ks) fs = has_key k fs && keys_cover ks fs

-- set(d.keys()) == expected
abbrev pub keys_are : List String → Fields → Bool
keys_are ks fs = keys_within fs ks && keys_cover ks fs

abbrev pub items_of : Items → List Value
items_of nil = []
items_of (cons v vs) = v ∷ items_of vs

abbrev pub array_of : List Value → Items
array_of [] = nil
array_of (v ∷ vs) = cons v (array_of vs)
