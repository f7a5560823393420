-- ===== src/Worker/Tests.antt =====
-- The theorems on the worker at a queue of one run.
use tirrad_exchange_system.Prelude.{
  ℕ, ◌+◌, ◌≡◌, refl, true, none, some, [], ◌∷◌, arith, select, find,
}
use tirrad_exchange_system.Prelude.Int.{pos}
use tirrad_exchange_system.Queue.Types.{pending, QueueItem, SqliteRunQueue}
use tirrad_exchange_system.Queue.Runs.{
  claim_next, claimed, next_claimable, is_claimable, claim_order, enqueue, get,
}
use tirrad_exchange_system.Prelude.Sorting.{order_by}
use tirrad_exchange_system.Queue.Calls.{enqueues, apply, run}
use tirrad_exchange_system.Queue.Lifecycle.{IsQueue}
use tirrad_exchange_system.Worker.{
  Worker, Surroundings, arrived, executed, taken, claimed_turn, fresh, run_worker, aggregated,
  called, beat, logged,
}
use tirrad_exchange_system.Worker.Bounds.{Bounded, progress_of, run_worker-Bounded}
use tirrad_exchange_system.Worker.Once.{Finished, run_worker-once}
use tirrad_exchange_system.Worker.Completion.{IsComplete, after_claim, claimed_turn-IsComplete}

abbrev one_run : QueueItem
one_run = record {
  run_id = "a";
  status = pending;
  priority = pos 0;
  created_at = 10;
  available_at = 10;
  started_at = none;
  completed_at = none;
  attempts = 0;
  last_error = none;
  locked_by = none;
  locked_at = none;
}

abbrev one_waiting : SqliteRunQueue
one_waiting = record {
  stale_after_seconds = 900;
  run_queue = one_run ∷ [];
  workers = [];
  worker_heartbeats = [];
  run_leases = [];
  scheduler_metrics = [];
}

one_waiting-IsQueue : IsQueue one_waiting
one_waiting-IsQueue = record { keyed = (tt, tt); rows = (ground arith, tt) }

-- A store that counts the executions and the logs; another process enqueues a run at every turn.
abbrev counting : Surroundings ℕ
counting = record {
  hostname = "host";
  process_id = pos 7;
  clock = λ n. 100 + n;
  others = λ n. enqueues 90 "b" (pos 0) none ∷ [];
  append_log = λ s i log. s + 1;
  execute = λ s i. (s + 1, none);
  aggregate_for_child = λ s i. (s, none);
}

abbrev once_worker : Worker
once_worker = record { worker_id = "w"; max_jobs = some (pos 3); once = true }

run_worker-Bounded_example :
    Bounded ℕ counting once_worker 3 (run_worker ℕ counting once_worker 2 one_waiting 0)
run_worker-Bounded_example = run_worker-Bounded ℕ counting once_worker 3 2 one_waiting 0 refl

run_worker-once_example :
    Finished ℕ counting once_worker refl (run_worker ℕ counting once_worker 1 one_waiting 0)
run_worker-once_example = run_worker-once ℕ counting once_worker refl 0 one_waiting 0

claim_test :
    (claim_next
      (arrived ℕ counting once_worker (fresh ℕ counting once_worker one_waiting 0))
      100
      "w").1
    ≡ some (claimed 100 "w" one_run)
unfolding arrived run apply enqueue get find claim_next claimed next_claimable order_by select
    is_claimable claim_order
claim_test = refl

executed_test :
    (executed ℕ counting once_worker "a" (
      taken ℕ counting once_worker
        (claimed 100 "w" one_run)
        (after_claim ℕ counting once_worker (fresh ℕ counting once_worker one_waiting 0)))).1
    ≡ none
unfolding executed taken aggregated logged beat called
executed_test = refl

claimed_turn-IsComplete_example :
    IsComplete
      (run
        (progress_of ℕ
          (claimed_turn ℕ counting once_worker (fresh ℕ counting once_worker one_waiting 0))).queue
        (enqueues 200 "a" (pos 0) none ∷ []))
      "a"
unfolding claimed
claimed_turn-IsComplete_example =
    claimed_turn-IsComplete ℕ counting once_worker (fresh ℕ counting once_worker one_waiting 0)
      (claimed 100 "w" one_run) (enqueues 200 "a" (pos 0) none ∷ []) one_waiting-IsQueue claim_test
      executed_test
