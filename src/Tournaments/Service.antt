-- ===== src/Tournaments/Service.antt =====
-- `TournamentService` of sim/api/services/tournament_service.py, over the in-memory run store, the run
-- service and, where there is one, the run queue.
use tirrad_exchange_system.Prelude.{
  ℕ, ◌+◌, String, Bool, false, Option, none, some, List, [], ◌∷◌, length, count, map,
}
use tirrad_exchange_system.Prelude.Int.{ℤ}
use tirrad_exchange_system.Prelude.Results.{Result, ok, err}
use tirrad_exchange_system.Json.{
  Value, null, int, float, text, array, object, Fields, end, field, array_of,
}
use tirrad_exchange_system.Queue.Types.{SqliteRunQueue}
use tirrad_exchange_system.Queue.Runs.{QueueError, enqueue}
use tirrad_exchange_system.Storage.Records.{
  RunStatus, running, completed, failed, eq_status, TournamentRecord, TournamentChild,
  InMemoryRunStore,
}
use tirrad_exchange_system.Storage.InMemory.{create_run, get_run}
use tirrad_exchange_system.Storage.Tournaments.{
  create_tournament, get_tournament, update_tournament, TournamentUpdate, list_tournaments,
  link_tournament_child, list_tournament_children,
}
use tirrad_exchange_system.Services.Stream.{RunService}
use tirrad_exchange_system.Services.Runs.{with_store}
use tirrad_exchange_system.Tournaments.Keys.{Builtins}
use tirrad_exchange_system.Tournaments.Requests.{ExpandError, texts}
use tirrad_exchange_system.Tournaments.Expand.{
  Parameters, ParameterSweepConfig, TournamentConfig, ChildRunSpec, expand_tournament,
}

pub record TournamentService : Type 0 where
  pub runs : RunService
  pub queue : Option SqliteRunQueue

-- InvalidRequestError by the place that raises it, RunNotFoundError, and what the queue raises.
pub data TournamentError : Type 0 where
  not_expanded : ExpandError → TournamentError
  completed_tournament tournament_not_found : String → TournamentError
  not_queued : QueueError → TournamentError

pub record TournamentRun : Type 0 where
  pub tournament : TournamentRecord
  pub child_count : ℕ
  pub completed_child_count : ℕ
  pub failed_child_count : ℕ

abbrev parameter_fields : Parameters → Fields
parameter_fields [] = end
parameter_fields ((k, vs) ∷ rest) = field k (array (array_of vs)) (parameter_fields rest)

abbrev sweep_value : Option ParameterSweepConfig → Value
sweep_value none = null
sweep_value (some sweep) = object (
    field "strategy" (text sweep.strategy)
      (field "parameters" (object (parameter_fields sweep.parameters)) end))

-- request.model_dump(exclude={"mode"})
unfoldable pub config_dump : TournamentConfig → Fields
config_dump c = field "priority" (int c.priority) (
    field "tournament_type" (text c.tournament_type) (
      field "strategies" (texts c.strategies) (
        field "scenarios" (texts c.scenarios) (
          field "symbols" (texts c.symbols) (
            field "seeds" (array (array_of (map int c.seeds))) (
              field "steps" (int c.steps) (
                field "initial_cash" (int c.initial_cash) (
                  field "participant_counts" (array (array_of (map int c.participant_counts))) (
                    field "volatility_ranges" (array (array_of (map float c.volatility_ranges))) (
                      field "strategy_parameters" (object (parameter_fields c.strategy_parameters))
                        (field "parameter_sweep" (sweep_value c.parameter_sweep) end)))))))))))

abbrev pub children_or_none : InMemoryRunStore → String → List TournamentChild
children_or_none s tournament_id = elim (list_tournament_children s tournament_id) [
  | none ↦ []
  | some children ↦ children
]

abbrev run_has : InMemoryRunStore → RunStatus → TournamentChild → Bool
run_has s status child = elim (get_run s child.child_run_id) [
  | none ↦ false
  | some r ↦ eq_status r.status status
]

unfoldable pub to_run : InMemoryRunStore → TournamentRecord → TournamentRun
unfolding list_tournament_children get_run
to_run s t =
    let children = children_or_none s t.tournament_id in
    record {
      tournament = t;
      child_count = length children;
      completed_child_count = count (run_has s completed) children;
      failed_child_count = count (run_has s failed) children;
    }

unfoldable pub get_tournament_run : InMemoryRunStore → String → Result TournamentError TournamentRun
unfolding get_tournament to_run
get_tournament_run s tournament_id = elim (get_tournament s tournament_id) [
  | none ↦ err (tournament_not_found tournament_id)
  | some t ↦ ok (to_run s t)
]

unfoldable pub list_tournament_runs : InMemoryRunStore → List TournamentRun
unfolding list_tournaments to_run
list_tournament_runs s = map (to_run s) (list_tournaments s)

abbrev pub with_runs : TournamentService → InMemoryRunStore → TournamentService
with_runs s store = record s { runs = with_store s.runs store }

-- if self._queue is not None: self._queue.enqueue(run_id, priority=priority); with what that raises.
abbrev enqueued : Option SqliteRunQueue → ℕ → String → ℤ → Option SqliteRunQueue × Option QueueError
enqueued none now run_id priority = (none, none)
enqueued (some q) now run_id priority =
    let (q', result) = enqueue q now run_id priority none in
    (some q', elim result [ ok item ↦ none | err e ↦ some e ])

-- The loop over the children, which ends where the queue raises. `ids` and `clock` give the new ids and
-- the readings of the clock: child `n` takes the id `n` and two readings.
unfoldable pub link_children :
    (ℕ → String)
    → (ℕ → ℕ)
    → ℤ
    → String
    → ℕ
    → List ChildRunSpec
    → TournamentService
    → TournamentService × Option QueueError
unfolding create_run link_tournament_child enqueue
link_children ids clock priority tournament_id n [] s = (s, none)
link_children ids clock priority tournament_id n (spec ∷ specs) s =
    let (store, child) =
      create_run s.runs.store (ids n) (clock (n + n)) spec.run_type spec.config in
    let linked =
      link_tournament_child store tournament_id child.run_id spec.child_key spec.run_type
        spec.dimensions in
    let (queue, raised) = enqueued s.queue (clock (n + n + 1)) child.run_id priority in
    let s' : TournamentService = record { runs = with_store s.runs linked; queue = queue } in
    let rest = link_children ids clock priority tournament_id (n + 1) specs s' in
    elim raised [ none ↦ rest | some e ↦ (s', some e) ]

abbrev started_update : ℕ → TournamentUpdate
started_update now = record {
  status = some running;
  started_at = some now;
  completed_at = none;
  report = none;
  error = none;
}

unfoldable pub run_tournament :
    Builtins
    → (ℕ → String)
    → (ℕ → ℕ)
    → TournamentConfig
    → TournamentService
    → TournamentService × Result TournamentError TournamentRun
unfolding expand_tournament config_dump create_tournament update_tournament link_children
    get_tournament_run
run_tournament b ids clock request s = elim (expand_tournament b request) [
  | err e ↦ (s, err (not_expanded e))
  | ok specs ↦
      let (created, t) =
        create_tournament s.runs.store (ids 0) (clock 0) request.tournament_type
          (config_dump request) in
      let store = (update_tournament created t.tournament_id (started_update (clock 1))).0 in
      let (s', raised) =
        link_children ids clock request.priority t.tournament_id 1 specs (with_runs s store) in
      elim raised [
        | none ↦ (s', get_tournament_run s'.runs.store t.tournament_id)
        | some e ↦ (s', err (not_queued e))
      ]
]
