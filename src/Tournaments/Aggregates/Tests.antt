-- ===== src/Tournaments/Aggregates/Tests.antt =====
-- The theorem on aggregation at a canceled tournament.
use tirrad_exchange_system.Prelude.{◌≡◌, refl, true, false, some, List, [], ◌∷◌, find}
use tirrad_exchange_system.Prelude.Results.{ok}
use tirrad_exchange_system.Json.{end}
use tirrad_exchange_system.Storage.Records.{
  backtest, completed, canceled, eq_status, TournamentRecord, TournamentChild, InMemoryRunStore,
}
use tirrad_exchange_system.Storage.InMemory.{new_record}
use tirrad_exchange_system.Storage.Tournaments.{
  get_tournament, list_tournament_children, new_tournament,
}
use tirrad_exchange_system.Floats.{Floats}
use tirrad_exchange_system.Tournaments.Report.{build_report}
use tirrad_exchange_system.Tournaments.Aggregates.{aggregate, child_records}
use tirrad_exchange_system.Tournaments.Aggregates.Status.{aggregate-status}

-- Floats whose arithmetic gives its first operand.
abbrev zeros : Floats
zeros = record {
  of_int = λ n. "0.0";
  plus = λ x y. x;
  minus = λ x y. x;
  times = λ x y. x;
  over = λ x y. x;
  absolute = λ x. x;
  squared = λ x. x;
  root = λ x. x;
  sum_of = λ xs. "0.0";
  below = λ x y. false;
  same = λ x y. true;
}

abbrev only_child : TournamentChild
only_child = record {
  tournament_id = "t";
  child_run_id = "a";
  child_key = "k";
  run_type = backtest;
  dimensions = end;
}

-- A canceled tournament, whose child has completed.
abbrev canceled_one : TournamentRecord
canceled_one = record (new_tournament "t" 10 "parameter_sweep" end) { status = canceled }

abbrev small_store : InMemoryRunStore
small_store = record {
  records = record (new_record "a" 11 backtest end) { status = completed } ∷ [];
  tournaments = canceled_one ∷ [];
  tournament_children = record { tournament_id = "t"; children = only_child ∷ [] } ∷ [];
}

aggregate-status_example :
    (children : List TournamentChild) × (t' : TournamentRecord) × (list_tournament_children
        small_store "t"
      ≡ some children)
    × ((aggregate zeros small_store 20 "now" "t").1
        ≡ ok (build_report zeros "t" "now" children (child_records zeros small_store children)))
    × (get_tournament (aggregate zeros small_store 20 "now" "t").0 "t" ≡ some t')
    × (t'.status
        ≡ (build_report zeros "t" "now" children (child_records zeros small_store children)).status)
    × (eq_status t'.status canceled ≡ false)
aggregate-status_example =
    aggregate-status zeros small_store 20 "now" "t" canceled_one
      (unfold get_tournament find in refl)
