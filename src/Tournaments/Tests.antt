-- ===== src/Tournaments/Tests.antt =====
-- The theorems on tournaments at concrete ones.
use tirrad_exchange_system.Prelude.{
  In, ◌↔◌, ℕ, ◌≡◌, ◌↔◌, ◌+◌, ◌*◌, ◌<◌, refl, String, true, false, some, List, [], ◌∷◌, map, length,
  count, All, eqb, if◌then◌else◌,
}
use tirrad_exchange_system.Prelude.Int.{pos}
use tirrad_exchange_system.Prelude.Text.{text_leb}
use tirrad_exchange_system.Prelude.Sorting.{IsSorted, order_by}
use tirrad_exchange_system.Prelude.Results.{ok, map_result}
use tirrad_exchange_system.Prelude.Products.{product}
use tirrad_exchange_system.Json.{Value, int, text, bool, Fields, end, field}
use tirrad_exchange_system.Storage.Records.{
  RunRecord, TournamentChild, session, backtest, completed, failed, canceled,
}
use tirrad_exchange_system.Storage.InMemory.{new_record}
use tirrad_exchange_system.Floats.{Floats}
use tirrad_exchange_system.Tournaments.Report.{build_report}
use tirrad_exchange_system.Tournaments.Report.Counts.{
  numbers_from, has_status, child_status, is_terminal, build_report-counts,
}
use tirrad_exchange_system.Tournaments.Keys.{Builtins, key, rendered, joined}
use tirrad_exchange_system.Tournaments.Requests.{texts, backtest_config, require}
use tirrad_exchange_system.Tournaments.Expand.{
  TournamentConfig, ChildRunSpec, by_child_key, sweep_strategy, sweep_parameters, expand_tournament,
  specs_of, parameter_sweep, sweep_specs, parameter_combinations, combinations_of, backtest_spec,
  four_parts,
}
use tirrad_exchange_system.Tournaments.Expand.Choices.{by_name, Chooses, IsChild, Child}
use tirrad_exchange_system.Tournaments.Expand.Sizes.{combination_count, expand_tournament-sweep}

-- Floats whose arithmetic gives its first operand.
abbrev first_operand : Floats
first_operand = record {
  of_int = λ n. "1.0";
  plus = λ x y. x;
  minus = λ x y. x;
  times = λ x y. x;
  over = λ x y. x;
  absolute = λ x. x;
  squared = λ x. x;
  root = λ x. x;
  sum_of = λ xs. "1.0";
  below = λ x y. false;
  same = λ x y. true;
}

abbrev link : String → TournamentChild
link i = record {
  tournament_id = "t";
  child_run_id = i;
  child_key = i;
  run_type = session;
  dimensions = end;
}

-- One run has completed, one is pending, and one is missing.
abbrev some_runs : List RunRecord
some_runs =
    record (new_record "a" 10 session end) { status = completed }
    ∷ new_record "b" 11 session end
    ∷ []

abbrev some_links : List TournamentChild
some_links = link "c" ∷ link "b" ∷ link "a" ∷ []

build_report-counts_example :
    let r = build_report first_operand "t" "now" some_links some_runs in
    (r.completed_child_count ≡ count (has_status first_operand some_runs completed) some_links)
    × (r.failed_child_count ≡ count (has_status first_operand some_runs failed) some_links)
    × (length r.results ≡ r.completed_child_count)
    × (length r.failures
        ≡ r.failed_child_count + count (has_status first_operand some_runs canceled) some_links)
    × (map (λ x. x.rank) r.results ≡ numbers_from 1 (length r.results))
    × (map (λ x. x.rank) r.failures ≡ numbers_from (length r.results + 1) (length r.failures))
    × ((r.status ≡ failed) ↔ (length some_links ≡ 0))
    × ((r.status ≡ completed) ↔ (
        (0 < length some_links)
        × All (λ l. is_terminal (child_status first_operand some_runs l) ≡ true) some_links))
build_report-counts_example = build_report-counts first_operand "t" "now" some_links some_runs

abbrev small_texts : Value → String
small_texts (text s) = s
small_texts (int (pos n)) =
    if eqb n 1 then "1" else if eqb n 2 then "2" else if eqb n 3 then "3" else "5"
small_texts _ = "other"

abbrev plain : Builtins
plain = record { strip = λ s. s; str_of = small_texts; is_negative = λ x. false }

-- Two seeds and two values of one parameter.
abbrev two_by_two : TournamentConfig
two_by_two = record {
  priority = pos 5;
  tournament_type = "parameter_sweep";
  strategies = [];
  scenarios = "calm_market" ∷ [];
  symbols = "DEFAULT" ∷ [];
  seeds = pos 1 ∷ pos 2 ∷ [];
  steps = pos 25;
  initial_cash = pos 100;
  participant_counts = pos 20 ∷ [];
  volatility_ranges = "0.02" ∷ [];
  strategy_parameters = [];
  parameter_sweep = some (record {
    strategy = "momentum";
    parameters = ("window", int (pos 3) ∷ int (pos 5) ∷ []) ∷ [];
  });
}

abbrev one_config : Fields
one_config = field "priority" (int (pos 0)) (
    field "strategy" (text "momentum") (
      field "symbols" (texts ("DEFAULT" ∷ [])) (
        field "initial_cash" (int (pos 100)) (
          field "depth_levels" (int (pos 5)) (
            field "progress_interval" (int (pos 10))
              (field "stream_events" (bool false) (field "stream_snapshots" (bool false) end)))))))

abbrev swept : String → ℕ → ℕ → ChildRunSpec
swept key seed window = record {
  child_key = key;
  run_type = backtest;
  config = one_config;
  dimensions =
      four_parts "momentum" (pos seed) ("DEFAULT" ∷ []) (field "window" (int (pos window)) end);
}

abbrev swept_specs : List ChildRunSpec
swept_specs =
    swept "parameters=window=3|seed=1|strategy=momentum|symbols=DEFAULT" 1 3
    ∷ swept "parameters=window=3|seed=2|strategy=momentum|symbols=DEFAULT" 2 3
    ∷ swept "parameters=window=5|seed=1|strategy=momentum|symbols=DEFAULT" 1 5
    ∷ swept "parameters=window=5|seed=2|strategy=momentum|symbols=DEFAULT" 2 5
    ∷ []

sweep_test : expand_tournament plain two_by_two ≡ ok swept_specs
unfolding expand_tournament specs_of parameter_sweep sweep_strategy require sweep_specs
    parameter_combinations combinations_of product backtest_spec map_result backtest_config key
    rendered joined order_by text_leb
sweep_test = refl

abbrev window_five : Fields
window_five = field "window" (int (pos 5)) end

expand_tournament-sweep_example :
    (((s : ChildRunSpec) × In s swept_specs
        × IsChild plain two_by_two "momentum" two_by_two.symbols (pos 2) window_five s)
      ↔ (In (pos 2) two_by_two.seeds
          × Chooses (order_by by_name (sweep_parameters two_by_two)) window_five))
    × All (λ s. Child plain two_by_two "momentum" two_by_two.symbols s) swept_specs
    × (length swept_specs
        ≡ length two_by_two.seeds * combination_count (sweep_parameters two_by_two))
    × IsSorted by_child_key swept_specs
expand_tournament-sweep_example =
    expand_tournament-sweep plain two_by_two "momentum" swept_specs (pos 2) window_five refl
      (unfold sweep_strategy in refl) sweep_test
