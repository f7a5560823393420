-- ===== src/Tournaments/Report.antt =====
-- `build_report` of sim/api/tournaments.py: the children of a tournament, counted and ranked.
pub mod Counts
use tirrad_exchange_system.Prelude.{
  ℕ, suc, ◌+◌, String, Bool, true, false, not, Option, none, some, List, [], ◌∷◌, ◌++◌, length,
  count, coalesce, eqb, ◌==◌, if◌then◌else◌,
}
use tirrad_exchange_system.Prelude.Text.{text_leb}
use tirrad_exchange_system.Prelude.Sorting.{order_by}
use tirrad_exchange_system.Json.{Fields, Float}
use tirrad_exchange_system.Storage.Records.{
  RunRecord, TournamentChild, RunStatus, pending, running, completed, failed, canceled, eq_status,
}
use tirrad_exchange_system.Floats.{Floats}
use tirrad_exchange_system.Tournaments.Metrics.{Metrics, metrics}

module _ (f : Floats) where
  -- An entry of `results` or of `failures`, which have no metrics.
  pub record TournamentResult : Type 0 where
    pub rank : ℕ
    pub child_run_id : String
    pub child_key : String
    pub status : RunStatus
    pub dimensions : Fields
    pub metrics : Option (Metrics f)
    pub score : Float
    pub error : Option String

  pub record TournamentReport : Type 0 where
    pub tournament_id : String
    pub status : RunStatus
    pub generated_at : String
    pub child_count : ℕ
    pub completed_child_count : ℕ
    pub failed_child_count : ℕ
    pub results : List TournamentResult
    pub failures : List TournamentResult

  -- records.get(run_id) of the dict made of `runs`, where a later run replaces an earlier one.
  unfoldable pub record_of : String → List RunRecord → Option RunRecord
  record_of run_id [] = none
  record_of run_id (r ∷ rs) =
      coalesce (record_of run_id rs) (if r.run_id == run_id then some r else none)

  unfoldable pub failure_result : TournamentChild → RunStatus → Option String → TournamentResult
  failure_result link status error = record {
    rank = 0;
    child_run_id = link.child_run_id;
    child_key = link.child_key;
    status = status;
    dimensions = link.dimensions;
    metrics = none;
    score = "0.0";
    error = error;
  }

  abbrev completed_result : TournamentChild → RunRecord → Metrics f → TournamentResult
  completed_result link r m = record {
    rank = 0;
    child_run_id = r.run_id;
    child_key = link.child_key;
    status = completed;
    dimensions = link.dimensions;
    metrics = some m;
    score = m.score;
    error = none;
  }

  -- error or "canceled"
  abbrev error_or_canceled : Option String → String
  error_or_canceled none = "canceled"
  error_or_canceled (some e) = if e == "" then "canceled" else e

  -- The variables of the loop.
  pub record Tally : Type 0 where
    pub results : List TournamentResult
    pub failures : List TournamentResult
    pub completed : ℕ
    pub failed : ℕ

  -- A child whose run has the status.
  unfoldable pub tally_run : TournamentChild → RunRecord → RunStatus → Tally → Tally
  unfolding failure_result
  tally_run link r completed t = record t {
    completed = t.completed + 1;
    results = t.results ++ completed_result link r (metrics f r.report r.config) ∷ [];
  }
  tally_run link r failed t = record t {
    failed = t.failed + 1;
    failures = t.failures ++ failure_result link failed r.error ∷ [];
  }
  tally_run link r canceled t = record t {
    failures = t.failures ++ failure_result link canceled (some (error_or_canceled r.error)) ∷ [];
  }
  tally_run link r running t = t
  tally_run link r pending t = t

  abbrev pub tally_found : TournamentChild → Option RunRecord → Tally → Tally
  tally_found link none t = record t {
    failed = t.failed + 1;
    failures = t.failures ++ failure_result link failed (some "missing child run") ∷ [];
  }
  tally_found link (some r) t = tally_run link r r.status t

  -- The loop.
  unfoldable pub tally_all : List RunRecord → List TournamentChild → Tally → Tally
  unfolding record_of tally_run failure_result
  tally_all runs [] t = t
  tally_all runs (link ∷ links) t =
      tally_all runs links (tally_found link (record_of link.child_run_id runs) t)

  abbrev pub by_key : TournamentChild → TournamentChild → Bool
  by_key a b = text_leb a.child_key b.child_key

  -- The loop over the children in the order of their keys.
  unfoldable pub tallied : List TournamentChild → List RunRecord → Tally
  unfolding tally_all
  tallied child_links runs =
      tally_all runs (order_by by_key child_links)
        (record { results = []; failures = []; completed = 0; failed = 0 })

  abbrev pub equity_of : TournamentResult → Float
  equity_of x = elim x.metrics [ none ↦ "0.0" | some m ↦ m.ending_equity ]

  -- The order of the sort keys, tuples of the score, the ending equity and the child key.
  unfoldable pub ranks_below : TournamentResult → TournamentResult → Bool
  ranks_below x y =
      if f.same x.score y.score
      then (if f.same (equity_of x) (equity_of y)
          then not (text_leb y.child_key x.child_key)
          else f.below (equity_of x) (equity_of y))
      else f.below x.score y.score

  -- sorted(..., reverse=True)
  abbrev pub ranks_first : TournamentResult → TournamentResult → Bool
  ranks_first x y = not (ranks_below x y)

  -- enumerate(..., start=n)
  unfoldable pub with_ranks : ℕ → List TournamentResult → List TournamentResult
  with_ranks n [] = []
  with_ranks n (x ∷ xs) = record x { rank = n } ∷ with_ranks (n + 1) xs

  unfoldable pub report_status : ℕ → ℕ → RunStatus
  report_status total terminal =
      if eqb total 0 then failed else if eqb terminal total then completed else running

  abbrev pub is_canceled : TournamentResult → Bool
  is_canceled x = eq_status x.status canceled

  -- `generated_at` is the clock's reading as text.
  unfoldable pub build_report :
      String → String → List TournamentChild → List RunRecord → TournamentReport
  unfolding tallied ranks_below with_ranks report_status
  build_report tournament_id generated_at child_links runs =
      let t = tallied child_links runs in
      let ranked = with_ranks 1 (order_by ranks_first t.results) in
      let failures = with_ranks (length ranked + 1) t.failures in
      let total = length child_links in
      let terminal = t.completed + t.failed + count is_canceled failures in
      record {
        tournament_id = tournament_id;
        status = report_status total terminal;
        generated_at = generated_at;
        child_count = total;
        completed_child_count = t.completed;
        failed_child_count = t.failed;
        results = ranked;
        failures = failures;
      }
