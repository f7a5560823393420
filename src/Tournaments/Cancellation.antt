-- ===== src/Tournaments/Cancellation.antt =====
-- `cancel_tournament` of `TournamentService` (sim/api/services/tournament_service.py).
use tirrad_exchange_system.Prelude.{
  ℕ, suc, String, Bool, ◌||◌, Option, none, some, List, [], ◌∷◌, if◌then◌else◌,
}
use tirrad_exchange_system.Prelude.Results.{Result, ok, err}
use tirrad_exchange_system.Queue.Types.{SqliteRunQueue}
use tirrad_exchange_system.Queue.Runs.{cancel_pending}
use tirrad_exchange_system.Storage.Records.{
  RunStatus, pending, running, completed, canceled, eq_status, TournamentRecord, TournamentChild,
  InMemoryRunStore,
}
use tirrad_exchange_system.Storage.InMemory.{get_run}
use tirrad_exchange_system.Storage.Tournaments.{
  get_tournament, update_tournament, TournamentUpdate, list_tournament_children,
}
use tirrad_exchange_system.Services.Stream.{RunService}
use tirrad_exchange_system.Services.Runs.{cancel_run}
use tirrad_exchange_system.Tournaments.Service.{
  TournamentService, TournamentError, completed_tournament, tournament_not_found, TournamentRun,
  to_run, children_or_none, with_runs,
}

abbrev is_open : RunStatus → Bool
is_open s = eq_status s pending || eq_status s running

abbrev canceled_in : Option SqliteRunQueue → ℕ → String → Option SqliteRunQueue
canceled_in none now run_id = none
canceled_in (some q) now run_id = some (cancel_pending q now run_id).0

-- The try statement: an exception of cancel_run is dropped.
abbrev canceled_run : (ℕ → String) → RunService → ℕ → String → RunService
canceled_run isoformat s now run_id = elim (get_run s.store run_id) [
  | none ↦ s
  | some r ↦ if is_open r.status then (cancel_run isoformat s now run_id).0 else s
]

-- The loop of cancel_tournament; child `n` takes two readings of the clock.
unfoldable pub cancel_children :
    (ℕ → ℕ) → (ℕ → String) → ℕ → List TournamentChild → TournamentService → TournamentService
unfolding get_run cancel_run cancel_pending
cancel_children clock isoformat n [] s = s
cancel_children clock isoformat n (child ∷ children) s =
    cancel_children clock isoformat (suc (suc n)) children (record {
      queue = canceled_in s.queue (clock n) child.child_run_id;
      runs = canceled_run isoformat s.runs (clock (suc n)) child.child_run_id;
    })

abbrev canceled_update : ℕ → TournamentUpdate
canceled_update now = record {
  status = some canceled;
  started_at = none;
  completed_at = some now;
  report = none;
  error = some "canceled";
}

abbrev with_updated :
    TournamentService
    → String
    → InMemoryRunStore × Option TournamentRecord
    → TournamentService × Result TournamentError TournamentRun
with_updated s tournament_id (store, none) =
    (with_runs s store, err (tournament_not_found tournament_id))
with_updated s tournament_id (store, some t) = (with_runs s store, ok (to_run store t))

-- `now` is the reading after the loop.
unfoldable pub cancel_tournament :
    (ℕ → ℕ)
    → (ℕ → String)
    → ℕ
    → TournamentService
    → String
    → TournamentService × Result TournamentError TournamentRun
unfolding get_tournament list_tournament_children cancel_children update_tournament to_run
cancel_tournament clock isoformat now s tournament_id =
    elim (get_tournament s.runs.store tournament_id) [
      | none ↦ (s, err (tournament_not_found tournament_id))
      | some t ↦
          let children = children_or_none s.runs.store tournament_id in
          let s' = cancel_children clock isoformat 0 children s in
          if eq_status t.status completed
          then (s, err (completed_tournament tournament_id))
          else with_updated s' tournament_id
              (update_tournament s'.runs.store tournament_id (canceled_update now))
    ]
