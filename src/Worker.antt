-- ===== src/Worker.antt =====
-- The polling loop of a worker, class Worker of sim/api/execution/worker.py, over the run queue.
-- Between two calls of the worker on the queue other processes make calls of their own. The run store,
-- the executor and the tournament service are the surroundings of the loop and are arguments.
pub mod Bounds
pub mod Completion
pub mod Executor
pub mod Once
pub mod Tests
use tirrad_exchange_system.Prelude.{
  ℕ, zero, suc, ◌+◌, String, Bool, true, false, Option, none, some, List, [], ◌∷◌, ◌++◌,
  if◌then◌else◌,
}
use tirrad_exchange_system.Prelude.Int.{ℤ, pos, ltb_ℤ}
use tirrad_exchange_system.Json.{Value, text, array, object, cons, nil, Fields, end, field}
use tirrad_exchange_system.Queue.Types.{QueueItem, SqliteRunQueue, WorkerRecord}
use tirrad_exchange_system.Queue.Runs.{claim_next}
use tirrad_exchange_system.Queue.Workers.{get_worker, Beat}
use tirrad_exchange_system.Queue.Calls.{
  Call, claims, completes, fails, registers, beats, apply, run,
}

-- The fields of Worker that the loop reads.
pub record Worker : Type 0 where
  pub worker_id : String
  pub max_jobs : Option ℤ
  pub once : Bool

pub record WorkerResult : Type 0 where
  pub worker_id : String
  pub jobs_completed : ℕ
  pub jobs_failed : ℕ
  pub polls : ℕ

module _ (Store : Type 0) where
  pub record Surroundings : Type 0 where
    pub hostname : String
    pub process_id : ℤ
    -- The clock's readings. The worker's calls on the queue and its readings share one numbering.
    pub clock : ℕ → ℕ
    -- What the other processes call before the worker's call of the given number.
    pub others : ℕ → List Call
    pub append_log : Store → String → Fields → Store
    -- The executor, and the tournament service's aggregate_for_child, which does nothing if there is
    -- no such service: the store after it, and the text of an exception.
    pub execute : Store → String → Store × Option String
    pub aggregate_for_child : Store → String → Store × Option String

  -- The queue, the store, the number of the worker's next call, and the local variables of `run`.
  pub record Progress : Type 0 where
    pub queue : SqliteRunQueue
    pub store : Store
    pub ticks : ℕ
    pub jobs_completed : ℕ
    pub jobs_failed : ℕ
    pub polls : ℕ

  -- Where a turn of the loop ends: at `continue` or its end, at `break`, or with an exception.
  pub data Turn : Type 0 where
    again stopped : Progress → Turn
    crashed : String → Progress → Turn

  module _ (e : Surroundings) (w : Worker) where
    -- The queue as the worker's next call finds it.
    unfoldable pub arrived : Progress → SqliteRunQueue
    arrived p = run p.queue (e.others p.ticks)

    -- A call of the worker: a heartbeat may read the clock twice, the others read it once.
    unfoldable pub called : Call → ℕ → Progress → Progress
    unfolding arrived
    called c ticks p = record p { queue = apply (arrived p) c; ticks = p.ticks + ticks }

    abbrev pub beat_of : String → Option String → Fields → Beat
    beat_of status current_run_id progress = record {
      status = status;
      current_run_id = current_run_id;
      progress_summary = progress;
      cpu_percent = none;
      memory_bytes = none;
    }

    unfoldable pub beat : String → Option String → Fields → Progress → Progress
    unfolding called
    beat status current_run_id progress p =
        called
          (beats (e.clock p.ticks) (e.clock (p.ticks + 1)) w.worker_id
            (beat_of status current_run_id progress))
          2 p

    unfoldable pub logged : String → Fields → Progress → Progress
    logged run_id log p = record p { store = e.append_log p.store run_id log }

    -- `if self._once: break`, and the next turn otherwise.
    unfoldable pub or_once : Progress → Turn
    or_once p = if w.once then stopped p else again p

    -- The try statement: the executor, then the tournament service.
    unfoldable pub aggregated : String → Progress → Store × Option String → Progress × Option String
    aggregated run_id p (store, some message) = (record p { store = store }, some message)
    aggregated run_id p (store, none) =
        let (after, exception) = e.aggregate_for_child store run_id in
        (record p { store = after }, exception)

    unfoldable pub executed : String → Progress → Progress × Option String
    unfolding aggregated
    executed run_id p = aggregated run_id p (e.execute p.store run_id)

    -- The else clause, and the finally clause after it.
    unfoldable pub succeeded : String → Progress → Turn
    unfolding beat called or_once
    succeeded run_id p =
        let p₁ = beat "busy" (some run_id) (field "phase" (text "completed") end) p in
        let p₂ = called (completes (e.clock p₁.ticks) run_id) 1 p₁ in
        let p₃ = record p₂ { jobs_completed = p₂.jobs_completed + 1 } in
        or_once (beat "idle" none end p₃)

    -- After a failure: an exception of the tournament service leaves the loop, before the failure is
    -- counted. The finally clause runs in both cases.
    unfoldable pub counted_failure : Progress → Option String → Turn
    unfolding beat or_once
    counted_failure p (some exc) = crashed exc (beat "idle" none end p)
    counted_failure p none =
        or_once (beat "idle" none end (record p { jobs_failed = p.jobs_failed + 1 }))

    -- The except clause.
    unfoldable pub failed_with : String → String → Progress → Turn
    unfolding beat called logged counted_failure
    failed_with run_id message p =
        let progress = field "phase" (text "failed") (field "error" (text message) end) in
        let p₁ = beat "busy" (some run_id) progress p in
        let p₂ = called (fails (e.clock p₁.ticks) run_id message) 1 p₁ in
        let log =
          field "level" (text "error")
            (field "message" (text "worker execution failed") (field "error" (text message) end)) in
        let p₃ = logged run_id log p₂ in
        let (store, exception) = e.aggregate_for_child p₃.store run_id in
        counted_failure (record p₃ { store = store }) exception

    unfoldable pub settled : String → Progress × Option String → Turn
    unfolding succeeded failed_with
    settled run_id (p, none) = succeeded run_id p
    settled run_id (p, some message) = failed_with run_id message p

    -- The heartbeat and the log of a claim.
    unfoldable pub taken : QueueItem → Progress → Progress
    unfolding beat logged
    taken item p =
        let log = field "level" (text "info") (
          field "message" (text "worker claimed run") (field "worker_id" (text w.worker_id) end)) in
        logged item.run_id log
          (beat "busy" (some item.run_id) (field "phase" (text "claimed") end) p)

    -- A turn that claimed a run.
    unfoldable pub worked : QueueItem → Progress → Turn
    unfolding taken executed settled
    worked item p = settled item.run_id (executed item.run_id (taken item p))

    -- A turn that waits: `item is None`, or the worker is drained.
    unfoldable pub waited : Progress → Turn
    unfolding beat or_once
    waited p = or_once (beat "idle" none end p)

    abbrev pub claimed_or_waited : Option QueueItem → Progress → Turn
    claimed_or_waited none p = waited p
    claimed_or_waited (some item) p = worked item p

    unfoldable pub claimed_turn : Progress → Turn
    unfolding arrived called worked waited
    claimed_turn p =
        let found = (claim_next (arrived p) (e.clock p.ticks) w.worker_id).1 in
        claimed_or_waited found (called (claims (e.clock p.ticks) w.worker_id) 1 p)

    abbrev pub shutdown_requested : Option WorkerRecord → Bool
    shutdown_requested none = false
    shutdown_requested (some r) = r.shutdown_requested

    abbrev pub drain_requested : Option WorkerRecord → Bool
    drain_requested none = false
    drain_requested (some r) = r.drain_requested

    -- The worker is shut down, drained, or claims.
    unfoldable pub obeyed : Bool → Bool → Progress → Turn
    unfolding beat waited claimed_turn
    obeyed true drain p = stopped (beat "offline" none end p)
    obeyed false true p = waited p
    obeyed false false p = claimed_turn p

    unfoldable pub polled : Progress → Progress
    unfolding arrived
    polled p = record p { queue = arrived p; ticks = p.ticks + 1; polls = p.polls + 1 }

    -- The body of the loop.
    unfoldable pub turn : Progress → Turn
    unfolding polled obeyed
    turn p =
        let found = get_worker (polled p).queue w.worker_id in
        obeyed (shutdown_requested found) (drain_requested found) (polled p)

    -- The test of the loop.
    unfoldable pub has_room : Progress → Bool
    has_room p = elim w.max_jobs [
      | none ↦ true
      | some m ↦ ltb_ℤ (pos (p.jobs_completed + p.jobs_failed)) m
    ]

    abbrev pub result_of : Progress → WorkerResult
    result_of p = record {
      worker_id = w.worker_id;
      jobs_completed = p.jobs_completed;
      jobs_failed = p.jobs_failed;
      polls = p.polls;
    }

    -- How the loop ends: with its result, with an exception, or not within the turns given.
    pub data Ended : Type 0 where
      returned : WorkerResult → Progress → Ended
      raised : String → Progress → Ended
      unfinished : Progress → Ended

    -- After a turn: the next one, or the end.
    abbrev pub followed : (Progress → Ended) → Turn → Ended
    followed next (again p) = next p
    followed next (stopped p) = returned (result_of p) p
    followed next (crashed exc p) = raised exc p

    unfoldable pub loop : ℕ → Progress → Ended
    unfolding turn has_room
    loop zero p = if has_room p then unfinished p else returned (result_of p) p
    loop (suc turns) p = elim (has_room p) [
      | false ↦ returned (result_of p) p
      | true ↦ followed (loop turns) (turn p)
    ]

    abbrev pub capabilities : Fields
    capabilities =
        field "run_types"
          (array (cons (text "session") (cons (text "backtest") (cons (text "benchmark") nil)))) end

    abbrev pub fresh : SqliteRunQueue → Store → Progress
    fresh queue store = record {
      queue = queue;
      store = store;
      ticks = 0;
      jobs_completed = 0;
      jobs_failed = 0;
      polls = 0;
    }

    -- Before the loop: the registration.
    unfoldable pub registered : SqliteRunQueue → Store → Progress
    unfolding called
    registered queue store =
        called
          (registers (e.clock 0) w.worker_id (record {
            hostname = e.hostname;
            process_id = some e.process_id;
            started_at = none;
            capabilities = capabilities;
            status = "idle";
          }))
          1 (fresh queue store)

    unfoldable pub run_worker : ℕ → SqliteRunQueue → Store → Ended
    unfolding registered loop
    run_worker turns queue store = loop turns (registered queue store)
