-- ===== src/Benchmarks.antt =====
-- Benchmark results and their comparison, sim/tes_benchmarks/models.py.
pub mod Dicts
pub mod Regressions
pub mod RoundTrip
pub mod Tests
use tirrad_exchange_system.Prelude.{
  ℕ, String, Bool, true, false, Option, none, some, List, [], ◌∷◌, ◌++◌, any, map, coalesce, ◌==◌,
  if◌then◌else◌,
}
use tirrad_exchange_system.Prelude.Int.{ℤ}
use tirrad_exchange_system.Json.{Value, Fields, Float}
use tirrad_exchange_system.Verification.Reports.{sorted_names}
use tirrad_exchange_system.Floats.{Floats}

pub record BenchmarkScenario : Type 0 where
  pub name : String
  pub operation_count : ℤ
  pub elapsed_ms : Float
  pub ops_per_sec : Float
  pub notes : Option String
  pub config : Fields

pub record BenchmarkRun : Type 0 where
  pub benchmark_id : String
  pub created_at : ℕ
  pub git_sha : Option String
  pub machine : Fields
  pub scenarios : List BenchmarkScenario
  pub notes : Option String
  pub config : Fields

pub record ScenarioComparison : Type 0 where
  pub name : String
  pub baseline_ops_per_sec : Option Float
  pub candidate_ops_per_sec : Option Float
  pub percent_delta : Option Float
  pub regression : Bool
  pub improvement : Bool
  pub threshold_percent : Float

pub record BenchmarkComparison : Type 0 where
  pub baseline_id : String
  pub candidate_id : String
  pub threshold_percent : Float
  pub has_regression : Bool
  pub scenarios : List ScenarioComparison

-- by_name.get(name) of {scenario.name: scenario for scenario in scenarios}: the last one of a name.
unfoldable pub scenario_of : String → List BenchmarkScenario → Option BenchmarkScenario
scenario_of name [] = none
scenario_of name (s ∷ ss) = coalesce (scenario_of name ss) (if s.name == name then some s else none)

abbrev pub ops_of : Option BenchmarkScenario → Option Float
ops_of none = none
ops_of (some s) = some s.ops_per_sec

-- The operators of floats, and -x.
module _ (f : Floats) (negated : Float → Float) where
  unfoldable pub delta_of : Float → Float → Float
  delta_of baseline candidate = f.times (f.over (f.minus candidate baseline) baseline) "100.0"

  unfoldable pub percent_delta : Option Float → Option Float → Option Float
  unfolding delta_of
  percent_delta (some baseline) (some candidate) =
      if f.below "0.0" baseline then some (delta_of baseline candidate) else none
  percent_delta _ _ = none

  abbrev pub falls_below : Float → Option Float → Bool
  falls_below threshold none = false
  falls_below threshold (some delta) = f.below delta (negated (f.absolute threshold))

  abbrev pub rises_above : Float → Option Float → Bool
  rises_above threshold none = false
  rises_above threshold (some delta) = f.below (f.absolute threshold) delta

  -- One turn of the loop.
  unfoldable pub compare_scenario :
      BenchmarkRun → BenchmarkRun → Float → String → ScenarioComparison
  unfolding scenario_of percent_delta
  compare_scenario baseline candidate threshold name =
      let baseline_ops = ops_of (scenario_of name baseline.scenarios) in
      let candidate_ops = ops_of (scenario_of name candidate.scenarios) in
      let delta = percent_delta baseline_ops candidate_ops in
      record {
        name = name;
        baseline_ops_per_sec = baseline_ops;
        candidate_ops_per_sec = candidate_ops;
        percent_delta = delta;
        regression = falls_below threshold delta;
        improvement = rises_above threshold delta;
        threshold_percent = threshold;
      }

  abbrev pub name_of : BenchmarkScenario → String
  name_of s = s.name

  -- sorted(baseline_by_name.keys() | candidate_by_name.keys())
  unfoldable pub scenario_names : BenchmarkRun → BenchmarkRun → List String
  unfolding sorted_names
  scenario_names baseline candidate =
      sorted_names (map name_of baseline.scenarios ++ map name_of candidate.scenarios)

  unfoldable pub compare_benchmark_runs : BenchmarkRun → BenchmarkRun → Float → BenchmarkComparison
  unfolding compare_scenario scenario_names
  compare_benchmark_runs baseline candidate threshold =
      let comparisons =
        map (compare_scenario baseline candidate threshold) (scenario_names baseline candidate) in
      record {
        baseline_id = baseline.benchmark_id;
        candidate_id = candidate.benchmark_id;
        threshold_percent = threshold;
        has_regression = any (λ c. c.regression) comparisons;
        scenarios = comparisons;
      }
