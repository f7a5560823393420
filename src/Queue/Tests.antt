-- ===== src/Queue/Tests.antt =====
-- Runs of the queue model on small tables, and the theorems of the queue at them.
use tirrad_exchange_system.Prelude.{
  ◌⊎◌, ℕ, ◌≡◌, ◌↔◌, refl, true, false, none, some, List, [], ◌∷◌, arith, In, All, select, find,
  update_where, ◌+◌, ◌≤◌, ◌==◌,
}
use tirrad_exchange_system.Prelude.Int.{pos}
use tirrad_exchange_system.Prelude.Results.{ok, err}
use tirrad_exchange_system.Prelude.Sorting.{order_by}
use tirrad_exchange_system.Prelude.Tables.{NewKey}
use tirrad_exchange_system.Queue.Types.{
  pending, running, completed, eq_status, QueueItem, SqliteRunQueue, seconds,
}
use tirrad_exchange_system.Queue.Runs.{
  claim_row, get, enqueue, fits_integer, integer_overflow, claim_next, claimed, claim_order,
  next_claimable, is_claimable, is_stale,
}
use tirrad_exchange_system.Queue.Workers.{timeout_of}
use tirrad_exchange_system.Queue.Scheduler.{requeue_stale}
use tirrad_exchange_system.Queue.Calls.{Call, enqueues, claims, completes, fails, apply, run}
use tirrad_exchange_system.Queue.Edits.Attempts.{claims_in}
use tirrad_exchange_system.Queue.Lifecycle.{IsQueue, Follows, apply-IsQueue, run-Follows}
use tirrad_exchange_system.Queue.Claims.{
  ComesFirst, claim_next-first, claim_next-none, claimable_at,
}
use tirrad_exchange_system.Queue.Claims.Exclusive.{claim_next-held, claim_next-exclusive}
use tirrad_exchange_system.Queue.Recovery.{
  IsEnqueued, IsNew, IsAgain, enqueue-ok, enqueue-strands, enqueue-completed,
}
use tirrad_exchange_system.Queue.Recovery.Stale.{requeue_stale-recovers}

-- A pending run.
abbrev early : QueueItem
early = record {
  run_id = "a";
  status = pending;
  priority = pos 0;
  created_at = 10;
  available_at = 10;
  started_at = none;
  completed_at = none;
  attempts = 0;
  last_error = none;
  locked_by = none;
  locked_at = none;
}

-- A later one of a higher priority.
abbrev urgent : QueueItem
urgent = record early { run_id = "b"; priority = pos 5; created_at = 20; available_at = 20 }

abbrev waiting : SqliteRunQueue
waiting = record {
  stale_after_seconds = 900;
  run_queue = early ∷ urgent ∷ [];
  workers = [];
  worker_heartbeats = [];
  run_leases = [];
  scheduler_metrics = [];
}

-- A run that worker "w" holds since 50, and a completed one.
abbrev held_run : QueueItem
held_run = record early {
  status = running;
  started_at = some 50;
  attempts = 1;
  locked_by = some "w";
  locked_at = some 50;
}

abbrev done : QueueItem
done = record urgent { status = completed; started_at = some 30; completed_at = some 40 }

abbrev busy : SqliteRunQueue
busy = record waiting { run_queue = held_run ∷ done ∷ [] }

waiting-IsQueue : IsQueue waiting
waiting-IsQueue = record {
  keyed = ((refl, tt), (tt, tt));
  rows = (ground arith, (ground arith, tt));
}

claim_next_test : (claim_next waiting 100 "w").1 ≡ some (claimed 100 "w" urgent)
unfolding claim_next next_claimable is_claimable claim_order select order_by
claim_next_test = refl

busy-IsQueue : IsQueue busy
busy-IsQueue = record { keyed = ((refl, tt), (tt, tt)); rows = (ground arith, (ground arith, tt)) }

apply-IsQueue_example : IsQueue (apply waiting (enqueues 60 "c" (pos 1) none))
apply-IsQueue_example = apply-IsQueue waiting (enqueues 60 "c" (pos 1) none) waiting-IsQueue

abbrev a_history : List Call
a_history = claims 100 "w" ∷ completes 200 "b" ∷ enqueues 300 "b" (pos 9) none ∷ []

run-Follows_example :
    (y : QueueItem) × (get (run waiting a_history) "b" ≡ some y)
    × Follows urgent y
    × (y.attempts ≡ 0 + claims_in "b" waiting a_history)
run-Follows_example =
    run-Follows a_history waiting "b" urgent waiting-IsQueue (unfold get find in refl)

-- It is handed out once.
claims_in_test : claims_in "b" waiting a_history ≡ 1
unfolding claims_in apply claim_next next_claimable is_claimable claim_order order_by select claimed
claims_in_test = refl

claim_next-first_example :
    (row : QueueItem) × In row waiting.run_queue
    × (claimable_at waiting 100 row ≡ true)
    × (claimed 100 "w" urgent ≡ claimed 100 "w" row)
    × All (λ x. ComesFirst row x) (select (claimable_at waiting 100) waiting.run_queue)
claim_next-first_example = claim_next-first waiting 100 "w" (claimed 100 "w" urgent) claim_next_test

claim_next-none_example :
    (claim_next busy 100 "v" ≡ (busy, none))
    ↔ All (λ x. claimable_at busy 100 x ≡ false) busy.run_queue
claim_next-none_example = claim_next-none busy 100 "v"

-- Another worker's calls after the claim of "b".
abbrev others : List Call
others = claims 150 "v" ∷ fails 160 "a" "boom" ∷ []

within : 150 ≤ 100 + seconds (claim_next waiting 100 "w").0.stale_after_seconds
unfolding claim_next claim_row next_claimable is_claimable claim_order select order_by
within = omega arith

in_time : 150 ≤ 100 + seconds (run (claim_next waiting 100 "w").0 []).stale_after_seconds
unfolding run
in_time = within

later_claim :
    (claim_next (run (claim_next waiting 100 "w").0 []) 150 "v").1 ≡ some (claimed 150 "v" early)
unfolding run claim_next claim_row claimed update_where next_claimable is_claimable claim_order
    select order_by
later_claim = refl

claim_next-held_example :
    (get (run (claim_next waiting 100 "w").0 others) "b" ≡ some (claimed 100 "w" urgent))
    × ((claimed 100 "w" urgent).locked_by ≡ some "w")
unfolding claimed
claim_next-held_example =
    claim_next-held waiting 100 "w" (claimed 100 "w" urgent) others waiting-IsQueue claim_next_test
      (within, (refl, tt))

claim_next-exclusive_example : ◌==◌ "b" "a" ≡ false
unfolding claimed
claim_next-exclusive_example =
    claim_next-exclusive waiting 100 "w" (claimed 100 "w" urgent) [] 150 "v" (claimed 150 "v" early)
      waiting-IsQueue claim_next_test tt in_time later_claim

enqueue-ok_example :
    ((fits_integer (pos 1) ≡ false)
      × (enqueue busy 60 "b" (pos 1) none ≡ (busy, err (integer_overflow (pos 1)))))
    ⊎ ((fits_integer (pos 1) ≡ true)
        × (y : QueueItem) × ((enqueue busy 60 "b" (pos 1) none).1 ≡ ok y)
        × (get (enqueue busy 60 "b" (pos 1) none).0 "b" ≡ some y)
        × IsEnqueued "b" (pos 1) 60 y
        × (((get busy "b" ≡ none) × IsNew 60 y)
            ⊎ ((x : QueueItem) × (get busy "b" ≡ some x) × IsAgain x y)))
enqueue-ok_example = enqueue-ok busy 60 "b" (pos 1) none

enqueue-strands_example :
    (y : QueueItem) × (get (enqueue busy 60 "a" (pos 1) none).0 "a" ≡ some y)
    × (eq_status y.status running ≡ true)
    × (is_claimable 9000000000 8000000000 y ≡ false)
    × (is_stale 8000000000 y ≡ false)
enqueue-strands_example =
    enqueue-strands busy 60 "a" (pos 1) none held_run 9000000000 8000000000 refl
      (unfold get find in refl) refl

enqueue-completed_example :
    (y : QueueItem) × (get (enqueue busy 60 "b" (pos 1) none).0 "b" ≡ some y)
    × (y.status ≡ completed)
    × (y.completed_at ≡ none)
enqueue-completed_example =
    enqueue-completed busy 60 "b" (pos 1) none done refl (unfold get find in refl) refl

-- Long after the lock of "a".
abbrev clock : ℕ → ℕ
clock i = 2000000000

requeue_stale-recovers_example :
    In "a" (requeue_stale busy clock none).1.requeued_runs
    × NewKey (λ l. l.run_id) "a" (requeue_stale busy clock none).0.run_leases
    × (y : QueueItem) × (get (requeue_stale busy clock none).0 "a" ≡ some y)
    × (y.status ≡ pending)
    × (y.locked_by ≡ none)
    × (is_claimable 2000000001 0 y ≡ true)
requeue_stale-recovers_example =
    requeue_stale-recovers busy clock none "a" held_run 2000000001 0 (unfold get find in refl)
      (unfold timeout_of in refl) (omega arith)
