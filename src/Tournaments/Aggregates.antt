-- ===== src/Tournaments/Aggregates.antt =====
-- The reports of `TournamentService` (sim/api/services/tournament_service.py).
pub mod Status
pub mod Tests
use tirrad_exchange_system.Prelude.{
  ℕ, suc, String, Bool, true, false, ◌||◌, Option, none, some, List, [], ◌∷◌, map, any, ◌==◌,
  if◌then◌else◌,
}
use tirrad_exchange_system.Prelude.Int.{pos}
use tirrad_exchange_system.Prelude.Results.{Result, ok, err, ◌>>=◌}
use tirrad_exchange_system.Json.{
  Value, null, int, float, text, array, object, Fields, end, field, array_of,
}
use tirrad_exchange_system.Queue.Types.{SqliteRunQueue}
use tirrad_exchange_system.Queue.Runs.{cancel_pending}
use tirrad_exchange_system.Storage.Records.{
  RunRecord, RunStatus, pending, running, completed, failed, canceled, eq_status, TournamentRecord,
  TournamentChild, InMemoryRunStore,
}
use tirrad_exchange_system.Storage.InMemory.{get_run}
use tirrad_exchange_system.Storage.Tournaments.{
  get_tournament, update_tournament, TournamentUpdate, list_tournaments, list_tournament_children,
}
use tirrad_exchange_system.Services.Stream.{RunService}
use tirrad_exchange_system.Services.Runs.{status_name, cancel_run}
use tirrad_exchange_system.Floats.{Floats}
use tirrad_exchange_system.Tournaments.Metrics.{Metrics}
use tirrad_exchange_system.Tournaments.Report.{TournamentResult, TournamentReport, build_report}
use tirrad_exchange_system.Tournaments.Service.{
  TournamentService, TournamentError, completed_tournament, tournament_not_found, TournamentRun,
  to_run, children_or_none, with_runs,
}

-- The dicts of a report, in the order of their keys.
module _ (f : Floats) where
  unfoldable pub metrics_fields : Option (Metrics f) → Fields
  metrics_fields none = end
  metrics_fields (some m) = field "ending_equity" (float m.ending_equity) (
      field "total_pnl" (float m.total_pnl) (
        field "return_stability" (float m.return_stability) (
          field "max_drawdown" (float m.max_drawdown) (
            field "total_volume" m.total_volume (
              field "fill_ratio" (float m.fill_ratio) (
                field "rejection_rate" (float m.rejection_rate) (
                  field "final_position_exposure" m.final_position_exposure
                    (field "score" (float m.score) end))))))))

  abbrev text_or_none : Option String → Value
  text_or_none none = null
  text_or_none (some s) = text s

  unfoldable pub result_fields : TournamentResult f → Value
  unfolding metrics_fields
  result_fields x = object (
      field "rank" (int (pos x.rank)) (
        field "child_run_id" (text x.child_run_id) (
          field "child_key" (text x.child_key) (
            field "status" (text (status_name x.status)) (
              field "dimensions" (object x.dimensions) (
                field "metrics" (object (metrics_fields x.metrics))
                  (field "score" (float x.score) (field "error" (text_or_none x.error) end))))))))

  unfoldable pub report_fields : TournamentReport f → Fields
  unfolding result_fields
  report_fields r = field "tournament_id" (text r.tournament_id) (
      field "status" (text (status_name r.status)) (
        field "generated_at" (text r.generated_at) (
          field "child_count" (int (pos r.child_count)) (
            field "completed_child_count" (int (pos r.completed_child_count)) (
              field "failed_child_count" (int (pos r.failed_child_count)) (
                field "results" (array (array_of (map result_fields r.results)))
                  (field "failures" (array (array_of (map result_fields r.failures))) end)))))))

  -- The runs of the children, without the missing ones.
  unfoldable pub child_records : InMemoryRunStore → List TournamentChild → List RunRecord
  unfolding get_run
  child_records s [] = []
  child_records s (child ∷ children) =
      let rest = child_records s children in
      elim (get_run s child.child_run_id) [ none ↦ rest | some r ↦ r ∷ rest ]

  abbrev pub has_ended : RunStatus → Bool
  has_ended s = eq_status s completed || eq_status s failed || eq_status s canceled

  abbrev pub aggregated_update : ℕ → TournamentReport f → TournamentUpdate
  aggregated_update now report = record {
    status = some report.status;
    started_at = none;
    completed_at = if has_ended report.status then some now else none;
    report = some (report_fields report);
    error = none;
  }

  -- The result of update_tournament is None where the tournament is gone.
  abbrev pub or_not_found :
      {A : Type 0}
      → String
      → A
      → InMemoryRunStore × Option TournamentRecord
      → InMemoryRunStore × Result TournamentError A
  or_not_found tournament_id a (s, none) = (s, err (tournament_not_found tournament_id))
  or_not_found tournament_id a (s, some t) = (s, ok a)

  abbrev pub aggregate_children :
      InMemoryRunStore
      → ℕ
      → String
      → String
      → Option (List TournamentChild)
      → InMemoryRunStore × Result TournamentError (TournamentReport f)
  aggregate_children s now generated_at tournament_id none =
      (s, err (tournament_not_found tournament_id))
  aggregate_children s now generated_at tournament_id (some children) =
      let report = build_report f tournament_id generated_at children (child_records s children) in
      or_not_found tournament_id report
        (update_tournament s tournament_id (aggregated_update now report))

  -- `generated_at` and `now` are the two readings of the clock, the first as text.
  unfoldable pub aggregate :
      InMemoryRunStore
      → ℕ
      → String
      → String
      → InMemoryRunStore × Result TournamentError (TournamentReport f)
  unfolding get_tournament list_tournament_children update_tournament child_records build_report
      report_fields
  aggregate s now generated_at tournament_id = elim (get_tournament s tournament_id) [
    | none ↦ (s, err (tournament_not_found tournament_id))
    | some t ↦
        aggregate_children s now generated_at tournament_id
          (list_tournament_children s tournament_id)
  ]

  abbrev pub followed_by :
      InMemoryRunStore × Result TournamentError (TournamentReport f)
      → (InMemoryRunStore → InMemoryRunStore × Result TournamentError (Unit {0}))
      → InMemoryRunStore × Result TournamentError (Unit {0})
  followed_by (s, err e) next = (s, err e)
  followed_by (s, ok r) next = next s

  -- The loop over the tournaments; each aggregation takes its own readings of the clock.
  unfoldable pub aggregate_each :
      (ℕ → ℕ)
      → (ℕ → String)
      → String
      → ℕ
      → List TournamentRecord
      → InMemoryRunStore
      → InMemoryRunStore × Result TournamentError (Unit {0})
  unfolding aggregate
  aggregate_each clock isoformat child_run_id n [] s = (s, ok tt)
  aggregate_each clock isoformat child_run_id n (t ∷ ts) s =
      if any (λ child. child.child_run_id == child_run_id) (children_or_none s t.tournament_id)
      then followed_by (aggregate s (clock (suc n)) (isoformat (clock n)) t.tournament_id)
          (aggregate_each clock isoformat child_run_id (suc (suc n)) ts)
      else aggregate_each clock isoformat child_run_id n ts s

  unfoldable pub aggregate_for_child :
      (ℕ → ℕ)
      → (ℕ → String)
      → InMemoryRunStore
      → String
      → InMemoryRunStore × Result TournamentError (Unit {0})
  unfolding aggregate_each list_tournaments
  aggregate_for_child clock isoformat s child_run_id =
      aggregate_each clock isoformat child_run_id 0 (list_tournaments s) s
