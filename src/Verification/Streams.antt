-- ===== src/Verification/Streams.antt =====
-- The search for the first divergence of two runs in sim/tes_replay/verification.py.
pub mod Agreement
use tirrad_exchange_system.Prelude.{
  ℕ, zero, suc, ◌+◌, String, Bool, true, false, List, [], ◌∷◌, Option, none, some, if◌then◌else◌,
}
use tirrad_exchange_system.Prelude.Int.{ℤ, pos, eqb_ℤ}
use tirrad_exchange_system.Json.{Value, int, array, object, Items, nil, cons, Fields, end, get}
use tirrad_exchange_system.Verification.Normal.{normalize, value_eq}

-- isinstance(value, int) and not isinstance(value, bool)
abbrev pub int_of : Option Value → Option ℤ
int_of (some (int n)) = some n
int_of _ = none

unfoldable pub step_of : Fields → Option ℤ
step_of item = elim (int_of (get "step" item)) [
  | some n ↦ some n
  | none ↦ elim (get "data" item) [ some (object fs) ↦ int_of (get "step" fs) | _ ↦ none ]
]

-- step or other: None and 0 are passed over.
abbrev pub or_step : Option ℤ → ℤ → ℤ
or_step none other = other
or_step (some n) other = if eqb_ℤ n (pos 0) then other else n

-- value if isinstance(value, dict) else {}
unfoldable pub dict_of : Option Value → Fields
dict_of (some (object fs)) = fs
dict_of _ = end

-- [item for item in value if isinstance(item, dict)]
abbrev pub dicts_in : Items → List Fields
dicts_in nil = []
dicts_in (cons (object fs) vs) = fs ∷ dicts_in vs
dicts_in (cons _ vs) = dicts_in vs

unfoldable pub list_of : Option Value → List Fields
list_of (some (array xs)) = dicts_in xs
list_of _ = []

-- _normalize(lval) == _normalize(rval)
unfoldable pub same_item : (Value → Value → Bool) → Fields → Fields → Bool
unfolding normalize value_eq
same_item scalar_eq l r = value_eq scalar_eq (normalize (object l)) (normalize (object r))

-- The loop, from `index` on, over the rests of both streams.
unfoldable pub divergence_from : (Value → Value → Bool) → ℕ → List Fields → List Fields → Option ℤ
unfolding step_of same_item
divergence_from scalar_eq index [] [] = none
divergence_from scalar_eq index [] (r ∷ rs) = some (or_step (step_of r) (pos (index + 1)))
divergence_from scalar_eq index (l ∷ ls) [] = some (or_step (step_of l) (pos (index + 1)))
divergence_from scalar_eq index (l ∷ ls) (r ∷ rs) =
    let rest = divergence_from scalar_eq (index + 1) ls rs in
    if same_item scalar_eq l r
    then rest
    else some (or_step (step_of l) (or_step (step_of r) (pos (index + 1))))

unfoldable pub stream_divergence_step :
    (Value → Value → Bool) → List Fields → List Fields → Option ℤ
unfolding divergence_from
stream_divergence_step scalar_eq left right = divergence_from scalar_eq 0 left right

abbrev pub stream_names : List String
stream_names = "events" ∷ "snapshots" ∷ "accounts" ∷ []

-- The loop over the streams.
unfoldable pub first_of_streams : (Value → Value → Bool) → List String → Fields → Fields → Option ℤ
unfolding list_of stream_divergence_step
first_of_streams scalar_eq [] left right = none
first_of_streams scalar_eq (name ∷ names) left right =
    elim (stream_divergence_step scalar_eq (list_of (get name left)) (list_of (get name right))) [
      | some step ↦ some step
      | none ↦ first_of_streams scalar_eq names left right
    ]

-- Both branches on the report's hash return None.
unfoldable pub first_divergence_step : (Value → Value → Bool) → Fields → Fields → Option ℤ
unfolding first_of_streams
first_divergence_step scalar_eq left right = first_of_streams scalar_eq stream_names left right
