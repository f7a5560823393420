-- ===== src/Worker/Executor.antt =====
-- `RunExecutor` of sim/api/execution/executor.py, over the run service and the in-memory store.
use tirrad_exchange_system.Prelude.{ℕ, String, Option, none, some}
use tirrad_exchange_system.Prelude.Results.{Result, ok, err}
use tirrad_exchange_system.Storage.Records.{benchmark, RunRecord}
use tirrad_exchange_system.Storage.InMemory.{get_run}
use tirrad_exchange_system.Services.Stream.{RunService}
use tirrad_exchange_system.Services.Runs.{ServiceError, Outside, execute_pending_run}

-- RuntimeError, and the errors of the services.
pub data ExecutorError : Type 0 where
  benchmark_service_missing : ExecutorError
  service_error : ServiceError → ExecutorError

-- The benchmark service's execute_pending_run, which starts a program.
abbrev pub BenchmarkExecutor : Type 0
BenchmarkExecutor = RunService → String → RunService × Result ServiceError RunRecord

abbrev of_service :
    RunService × Result ServiceError RunRecord → RunService × Result ExecutorError RunRecord
of_service (s, ok r) = (s, ok r)
of_service (s, err e) = (s, err (service_error e))

abbrev pub run_benchmark_with :
    Option BenchmarkExecutor → RunService → String → RunService × Result ExecutorError RunRecord
run_benchmark_with none s run_id = (s, err benchmark_service_missing)
run_benchmark_with (some b) s run_id = of_service (b s run_id)

-- `now` and `later` are the readings of the clock that the run service takes.
unfoldable pub execute :
    Outside
    → Option BenchmarkExecutor
    → RunService
    → ℕ
    → ℕ
    → String
    → RunService × Result ExecutorError RunRecord
unfolding get_run execute_pending_run
execute o benchmarks s now later run_id = elim (get_run s.store run_id) [
  | none ↦ of_service (execute_pending_run o s now later run_id)
  | some r ↦ elim r.run_type [
    | benchmark ↦ run_benchmark_with benchmarks s run_id
    | _ ↦ of_service (execute_pending_run o s now later run_id)
  ]
]
