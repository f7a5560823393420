-- ===== src/Tournaments/Expand.antt =====
-- `expand_tournament` of sim/api/tournaments.py: the child runs of a tournament.
pub mod Choices
pub mod Sizes
use tirrad_exchange_system.Prelude.{
  ℕ, String, Bool, true, false, ◌||◌, ◌&&◌, Option, none, some, List, [], ◌∷◌, length, map, any,
  eqb, ltb, not, ◌++◌, ◌==◌, if◌then◌else◌,
}
use tirrad_exchange_system.Prelude.Int.{ℤ, pos, ltb_ℤ, leb_ℤ}
use tirrad_exchange_system.Prelude.Text.{text_leb}
use tirrad_exchange_system.Prelude.Sorting.{order_by}
use tirrad_exchange_system.Prelude.Results.{Result, ok, err, ◌>>=◌, map_result}
use tirrad_exchange_system.Json.{
  Value, int, float, bool, text, array, object, Items, nil, cons, Fields, end, field, Float,
  items_of, array_of, get,
}
use tirrad_exchange_system.Prelude.Products.{flat_map, product}
use tirrad_exchange_system.Tournaments.Requests.{
  ExpandError, must_contain, unsupported, texts, require, backtest_config, session_config,
  SessionArguments,
}
use tirrad_exchange_system.Tournaments.Keys.{Builtins, key}
use tirrad_exchange_system.Storage.Records.{RunType, session, backtest}

-- A dict of lists, with its keys in insertion order.
abbrev pub Parameters : Type 0
Parameters = List (String × List Value)

-- The fields of ParameterSweepConfig and TournamentConfig that are read here.
pub record ParameterSweepConfig : Type 0 where
  pub strategy : String
  pub parameters : Parameters

pub record TournamentConfig : Type 0 where
  pub priority : ℤ
  pub tournament_type : String
  pub strategies : List String
  pub scenarios : List String
  pub symbols : List String
  pub seeds : List ℤ
  pub steps : ℤ
  pub initial_cash : ℤ
  pub participant_counts : List ℤ
  pub volatility_ranges : List Float
  pub strategy_parameters : Parameters
  pub parameter_sweep : Option ParameterSweepConfig

pub record ChildRunSpec : Type 0 where
  pub child_key : String
  pub run_type : RunType
  pub config : Fields
  pub dimensions : Fields

-- A child that runs a backtest; the config has the strategy, the symbols and the cash alone.
unfoldable pub backtest_spec :
    Builtins
    → TournamentConfig
    → String
    → List String
    → Fields
    → Fields
    → Result ExpandError ChildRunSpec
unfolding backtest_config key
backtest_spec b config strategy symbols parts dimensions = do
  run_config ← backtest_config b strategy symbols config.initial_cash
  ok (record {
    child_key = key b parts;
    run_type = backtest;
    config = run_config;
    dimensions = dimensions;
  })

-- The parts of the key and the dimensions of a strategy with parameters are the same four.
abbrev pub four_parts : String → ℤ → List String → Fields → Fields
four_parts strategy seed symbols params = field "strategy" (text strategy) (
    field "seed" (int seed)
      (field "symbols" (texts symbols) (field "parameters" (object params) end)))

abbrev pub three_parts : String → List String → ℤ → Fields
three_parts strategy symbols seed =
    field "strategy" (text strategy) (field "seed" (int seed) (field "symbols" (texts symbols) end))

-- Called with include_parameters=False only, so the parameters are an empty dict.
unfoldable pub strategy_backtests :
    Builtins → TournamentConfig → Result ExpandError (List ChildRunSpec)
unfolding require backtest_spec
strategy_backtests b config = do
  strategies ← require config.strategies "strategies"
  symbols ← require config.symbols "symbols"
  map_result
      (λ p.
        backtest_spec b config p.0 symbols (four_parts p.0 p.1 symbols end)
          (four_parts p.0 p.1 symbols end))
      (product strategies config.seeds)

abbrev or_participants : List String → List String
or_participants [] = "session_participants" ∷ []
or_participants (s ∷ ss) = s ∷ ss

-- One iteration of the loop over the product of the five lists.
unfoldable pub scenario_spec :
    Builtins
    → TournamentConfig
    → List String
    → String × (String × (ℤ × (ℤ × Float)))
    → Result ExpandError ChildRunSpec
unfolding session_config key
scenario_spec b config symbols (strategy, (scenario, (seed, (participants, volatility)))) = do
  run_config ← session_config b (record {
    scenario = scenario;
    steps = config.steps;
    symbols = symbols;
    seed = seed;
    volatility = volatility;
    participants = participants;
    initial_cash = config.initial_cash;
  })
  ok (record {
    child_key = key b (
        field "strategy" (text strategy) (
          field "scenario" (text scenario) (
            field "seed" (int seed) (
              field "participants" (int participants)
                (field "volatility" (float volatility) end)))));
    run_type = session;
    config = run_config;
    dimensions = field "strategy" (text strategy) (
        field "scenario" (text scenario) (
          field "seed" (int seed) (
            field "symbols" (texts symbols) (
              field "participants" (int participants)
                (field "volatility" (float volatility) end)))));
  })

unfoldable pub scenario_sessions :
    Builtins → TournamentConfig → Result ExpandError (List ChildRunSpec)
unfolding require scenario_spec product
scenario_sessions b config = do
  scenarios ← require config.scenarios "scenarios"
  symbols ← require config.symbols "symbols"
  map_result (scenario_spec b config symbols) (
      product (or_participants config.strategies) (
        product scenarios
          (product config.seeds (product config.participant_counts config.volatility_ranges))))

-- dict(zip(keys, values)) for values in product(...), over the sorted keys.
unfoldable pub combinations_of : Parameters → List Fields
combinations_of [] = end ∷ []
combinations_of ((k, vs) ∷ rest) =
    let others = combinations_of rest in flat_map (λ v. map (λ fs. field k v fs) others) vs

unfoldable pub parameter_combinations : Parameters → List Fields
unfolding combinations_of
parameter_combinations parameters = combinations_of (order_by (λ a b. text_leb a.0 b.0) parameters)

-- The strategy of the sweep, or the first one of the list.
unfoldable pub sweep_strategy : TournamentConfig → Result ExpandError String
unfolding require
sweep_strategy config = elim config.parameter_sweep [
  | some sweep ↦ ok sweep.strategy
  | none ↦ first (require config.strategies "strategies")
]
  where
    first : Result ExpandError (List String) → Result ExpandError String
    first (err e) = err e
    first (ok []) = err (must_contain "strategies")
    first (ok (s ∷ ss)) = ok s

abbrev pub sweep_parameters : TournamentConfig → Parameters
sweep_parameters config = elim config.parameter_sweep [
  | some sweep ↦ sweep.parameters
  | none ↦ config.strategy_parameters
]

-- The loop over the product of the seeds and the choices.
unfoldable pub sweep_specs :
    Builtins → TournamentConfig → String → List String → Result ExpandError (List ChildRunSpec)
unfolding parameter_combinations backtest_spec product
sweep_specs b config strategy symbols =
    map_result
      (λ p.
        backtest_spec b config strategy symbols (four_parts strategy p.0 symbols p.1)
          (four_parts strategy p.0 symbols p.1))
      (product config.seeds (parameter_combinations (sweep_parameters config)))

unfoldable pub parameter_sweep :
    Builtins → TournamentConfig → Result ExpandError (List ChildRunSpec)
unfolding require sweep_strategy sweep_specs
parameter_sweep b config = do
  strategy ← sweep_strategy config
  symbols ← require config.symbols "symbols"
  sweep_specs b config strategy symbols

-- Each symbol alone, and all of them if there are several.
unfoldable pub symbol_sets : List String → List (List String)
symbol_sets symbols =
    map (λ s. s ∷ []) symbols ++ (if ltb 1 (length symbols) then symbols ∷ [] else [])

unfoldable pub multi_symbol_sweep :
    Builtins → TournamentConfig → Result ExpandError (List ChildRunSpec)
unfolding require symbol_sets backtest_spec product
multi_symbol_sweep b config = do
  strategies ← require config.strategies "strategies"
  symbols ← require config.symbols "symbols"
  map_result
      (λ p.
        backtest_spec b config p.0 p.1.0 (three_parts p.0 p.1.0 p.1.1)
          (three_parts p.0 p.1.0 p.1.1))
      (product strategies (product (symbol_sets symbols) config.seeds))

unfoldable pub specs_of : Builtins → TournamentConfig → Result ExpandError (List ChildRunSpec)
unfolding strategy_backtests scenario_sessions parameter_sweep multi_symbol_sweep
specs_of b config =
    if config.tournament_type == "strategy_vs_strategy"
    then strategy_backtests b config
    else if config.tournament_type == "strategy_vs_scenario"
    then scenario_sessions b config
    else if config.tournament_type == "parameter_sweep"
    then parameter_sweep b config
    else if config.tournament_type == "multi_symbol_sweep"
    then multi_symbol_sweep b config
    else err (unsupported config.tournament_type)

abbrev pub by_child_key : ChildRunSpec → ChildRunSpec → Bool
by_child_key x y = text_leb x.child_key y.child_key

unfoldable pub expand_tournament :
    Builtins → TournamentConfig → Result ExpandError (List ChildRunSpec)
unfolding specs_of
expand_tournament b config = do specs ← specs_of b config; ok (order_by by_child_key specs)
