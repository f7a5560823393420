-- ===== src/Tournaments/Requests.antt =====
-- The configurations of child runs that sim/api/tournaments.py builds, and `_require`: SessionRunRequest
-- and BacktestRunRequest of sim/api/models.py with their validation.
use tirrad_exchange_system.Prelude.{
  String, Bool, false, ◌||◌, List, [], ◌∷◌, length, map, any, eqb, not, ◌==◌, if◌then◌else◌,
}
use tirrad_exchange_system.Prelude.Int.{ℤ, pos, ltb_ℤ, leb_ℤ}
use tirrad_exchange_system.Prelude.Results.{Result, ok, err}
use tirrad_exchange_system.Json.{
  Value, int, float, bool, text, array, Fields, end, field, Float, array_of,
}
use tirrad_exchange_system.Tournaments.Keys.{Builtins}

-- ValueError of _require and of the last branch, and the validation error of a request.
pub data ExpandError : Type 0 where
  must_contain : String → ExpandError
  unsupported : String → ExpandError
  invalid_request : ExpandError

abbrev pub texts : List String → Value
texts ss = array (array_of (map text ss))

unfoldable pub require : List String → String → Result ExpandError (List String)
require [] label = err (must_contain label)
require (x ∷ xs) label = ok (x ∷ xs)

-- BacktestRunRequest(...).model_dump(exclude={"mode"})
unfoldable pub backtest_config : Builtins → String → List String → ℤ → Result ExpandError Fields
backtest_config b strategy symbols initial_cash =
    let name = b.strip strategy in
    let names = map b.strip symbols in
    if name == "" || eqb (length names) 0 || any (λ s. s == "") names || ltb_ℤ initial_cash (pos 0)
    then err invalid_request
    else ok (
        field "priority" (int (pos 0)) (
          field "strategy" (text name) (
            field "symbols" (texts names) (
              field "initial_cash" (int initial_cash) (
                field "depth_levels" (int (pos 5)) (
                  field "progress_interval" (int (pos 10)) (
                    field "stream_events" (bool false)
                      (field "stream_snapshots" (bool false) end))))))))

-- The arguments of SessionRunRequest.
pub record SessionArguments : Type 0 where
  pub scenario : String
  pub steps : ℤ
  pub symbols : List String
  pub seed : ℤ
  pub volatility : Float
  pub participants : ℤ
  pub initial_cash : ℤ

abbrev pub session_is_valid : Builtins → SessionArguments → List String → Bool
session_is_valid b a names = not (
    leb_ℤ a.steps (pos 0)
    || eqb (length names) 0
    || any (λ s. s == "") names
    || b.is_negative a.volatility
    || leb_ℤ a.participants (pos 0)
    || ltb_ℤ a.initial_cash (pos 0))

-- SessionRunRequest(...).model_dump(exclude={"mode"})
unfoldable pub session_config : Builtins → SessionArguments → Result ExpandError Fields
session_config b a =
    let names = map b.strip a.symbols in
    if session_is_valid b a names
    then ok (
        field "priority" (int (pos 0)) (
          field "scenario" (text a.scenario) (
            field "steps" (int a.steps) (
              field "symbols" (texts names) (
                field "seed" (int a.seed) (
                  field "initial_price" (int (pos 100)) (
                    field "volatility" (float a.volatility) (
                      field "participants" (int a.participants) (
                        field "depth_levels" (int (pos 5)) (
                          field "initial_cash" (int a.initial_cash) (
                            field "progress_interval" (int (pos 10)) (
                              field "stream_events" (bool false)
                                (field "stream_snapshots" (bool false) end)))))))))))))
    else err invalid_request
