-- ===== src/Tournaments/Metrics.antt =====
-- The metrics of a child run, `_metrics` of sim/api/tournaments.py. The arithmetic of floats is a parameter.
use tirrad_exchange_system.Prelude.{Option, some, List, [], ◌∷◌, length, map, if◌then◌else◌}
use tirrad_exchange_system.Prelude.Int.{pos}
use tirrad_exchange_system.Json.{
  Value, int, float, array, object, cons, Fields, end, field, get, Float, items_of,
}
use tirrad_exchange_system.Services.Values.{or_value}
use tirrad_exchange_system.Floats.{Floats}

module _ (f : Floats) where
  unfoldable pub number : Option Value → Float → Float
  number (some (int n)) fallback = f.of_int n
  number (some (float r)) fallback = r
  number _ fallback = fallback

  -- The same, where the fallback is a sum, which is the integer 0 for an empty dict.
  unfoldable pub number_or_sum : Option Value → Value → Value
  number_or_sum (some (int n)) fallback = float (f.of_int n)
  number_or_sum (some (float r)) fallback = float r
  number_or_sum _ fallback = fallback

  abbrev pub values_of : Fields → List Value
  values_of end = []
  values_of (field k v fs) = v ∷ values_of fs

  abbrev sum_value : List Float → Value
  sum_value [] = int (pos 0)
  sum_value (x ∷ xs) = float (f.sum_of (x ∷ xs))

  unfoldable pub sum_mapping : Option Value → Value
  unfolding number
  sum_mapping (some (object fs)) = sum_value (map (λ v. number (some v) "0.0") (values_of fs))
  sum_mapping _ = float "0.0"

  unfoldable pub sum_abs_mapping : Option Value → Value
  unfolding number
  sum_abs_mapping (some (object fs)) =
      sum_value (map (λ v. f.absolute (number (some v) "0.0")) (values_of fs))
  sum_abs_mapping _ = float "0.0"

  -- max(x, y)
  unfoldable pub larger : Float → Float → Float
  larger x y = if f.below x y then y else x

  -- The loop of _max_drawdown.
  unfoldable pub drawdown_of : Float → Float → List Value → Float
  unfolding number larger
  drawdown_of peak drawdown [] = drawdown
  drawdown_of peak drawdown (item ∷ items) =
      let value = number (some item) peak in
      let peak' = larger peak value in
      drawdown_of peak' (larger drawdown (f.minus peak' value)) items

  unfoldable pub max_drawdown : Option Value → Float
  unfolding number drawdown_of
  max_drawdown (some (array (cons v vs))) =
      drawdown_of (number (some v) "0.0") "0.0" (v ∷ items_of vs)
  max_drawdown _ = "0.0"

  -- The loop of _stability over the neighbours.
  unfoldable pub returns_of : List Value → List Float
  unfolding number
  returns_of [] = []
  returns_of (before ∷ []) = []
  returns_of (before ∷ after ∷ rest) =
      let base = number (some before) "0.0" in
      let later = returns_of (after ∷ rest) in
      if f.same base "0.0"
      then later
      else f.over (f.minus (number (some after) base) base) (f.absolute base) ∷ later

  abbrev mean_of : List Float → Float
  mean_of xs = f.over (f.sum_of xs) (f.of_int (pos (length xs)))

  unfoldable pub stability_of : List Float → Float
  stability_of [] = "0.0"
  stability_of (x ∷ xs) =
      let average = mean_of (x ∷ xs) in
      let variance = mean_of (map (λ item. f.squared (f.minus item average)) (x ∷ xs)) in
      if f.below "0.0" variance then f.over average (f.root variance) else average

  unfoldable pub stability : Option Value → Float
  unfolding returns_of stability_of
  stability (some (array vs)) = stability_of (returns_of (items_of vs))
  stability _ = "0.0"

  pub record Metrics : Type 0 where
    pub ending_equity : Float
    pub total_pnl : Float
    pub return_stability : Float
    pub max_drawdown : Float
    pub total_volume : Value
    pub fill_ratio : Float
    pub rejection_rate : Float
    pub final_position_exposure : Value
    pub score : Float

  unfoldable pub metrics : Fields → Fields → Metrics
  unfolding number number_or_sum sum_mapping sum_abs_mapping max_drawdown stability
  metrics report config =
      let starting =
        number (get "starting_equity" report) (number (get "initial_cash" config) "0.0") in
      let ending =
        number (get "ending_equity" report) (number (get "final_equity" report) starting) in
      let total_pnl = number (get "total_pnl" report) (f.minus ending starting) in
      let total_orders = number (get "total_orders" report) "0.0" in
      let rejected =
        number (get "rejected_orders" report) (number (get "total_rejections" report) "0.0") in
      let rejection_rate =
        if f.below "0.0" total_orders then f.over rejected total_orders else "0.0" in
      let drawdown = max_drawdown (get "equity_curve" report) in
      let steadiness = stability (get "equity_curve" report) in
      record {
        ending_equity = ending;
        total_pnl = total_pnl;
        return_stability = steadiness;
        max_drawdown = drawdown;
        total_volume =
            number_or_sum (get "total_volume" report)
              (sum_mapping (get "per_symbol_volume" report));
        fill_ratio = number (get "fill_ratio" report) "0.0";
        rejection_rate = rejection_rate;
        final_position_exposure =
            sum_abs_mapping
              (or_value (get "per_symbol_position" report) (get "final_positions" report));
        score =
            f.minus
              (f.minus (f.plus (f.plus ending total_pnl) (f.times steadiness "1000.0")) drawdown)
              (f.times rejection_rate "100.0");
      }
