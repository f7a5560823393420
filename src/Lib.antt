-- ===== src/Lib.antt =====
-- Tirrad Exchange System: a model of the simulation's Python code (sim/), with proofs.
--
-- The system runs simulated exchange sessions. An API request becomes a run in a store and an item of
-- a queue; worker processes claim items, execute the run on the C++ engine and record its events; the
-- events are parsed into models, serialized, and replayed. Modelled are the parts in which this logic
-- is written in Python:
--
-- - Queue: the durable run queue, class SQLiteRunQueue of sim/api/execution/queue.py. The state
--   SqliteRunQueue (Queue/Types.antt) has one list of rows for each table: run_queue, run_leases,
--   workers, worker_heartbeats, scheduler_metrics. Queue/Runs.antt has enqueue, claim_next (dequeue),
--   mark_running, mark_completed, mark_failed, mark_canceled, cancel_pending and the look-ups;
--   Queue/Workers.antt the worker records and heartbeats; Queue/Scheduler.antt requeue_stale, the
--   status and the metrics. An SQL statement is its effect on the rows: UPDATE is update_where, SELECT
--   is select, ORDER BY ... LIMIT 1 is head_of (order_by ...). A method that
--   changes the tables does it in one transaction, but for requeue_stale, whose last one is a call of its
--   own too, so that several workers are a sequence of calls: Queue/Calls.antt has the calls as data and
--   runs them. Queue/Edits.antt and its children describe what each call may do to a row, and
--   Queue/Lifecycle.antt, Queue/Claims.antt and Queue/Recovery.antt, both with children, prove what follows.
-- - Models: the events and commands of sim/tes_models. Json.antt has the values that parsers read.
--   Models/Require.antt has the checks (_require_int and the others), Models/Events.antt and
--   Models/Commands.antt the dataclasses, Models/Events/ and Models/Commands/Parsing.antt the parsers
--   with one function for each branch of parse_event and parse_command, and
--   Models/Serialization.antt is sim/tes_serialization/events.py. Models/RoundTrip.antt,
--   Models/Raises.antt (both with children) and Models/Commands/Validity.antt hold the proofs.
-- - Replay: the timeline, cursor and controller of sim/tes_replay/playback.py, in Replay/Timeline.antt
--   and Replay/Playback.antt, with proofs in their children.
-- - Storage: the in-memory run store, class InMemoryRunStore of sim/api/storage/in_memory.py, with the
--   records of sim/api/storage/base.py. Storage/Records.antt has the state, Storage/InMemory.antt the
--   operations on runs, Storage/Tournaments.antt those on tournaments, Storage/Selection.antt the filters
--   and pages; Storage/Calls.antt has the abstract map, Storage/Laws.antt and Storage/Paging.antt the
--   proofs.
-- - Services: the life of a run in the class RunService of sim/api/services/run_service.py, over the
--   in-memory store, in Services/Runs.antt, its calls of the stream service, which writes their messages
--   to the logs of the run in the same store, in Services/Stream.antt (values of JSON in
--   Services/Values.antt), and its summaries and look-ups in Services/Reads.antt, with proofs in their children.
-- - Analytics: counts of events, in Analytics.antt with a child: sim/tes_analytics/summary.py,
--   sim/tes_simulation/results.py, sim/tes_replay/replay.py and sim/tes_replay/validation.py.
-- - Verification: the comparison of a run with its replay, sim/tes_replay/verification.py. Normal forms are
--   in Verification/Normal.antt, the search for a divergence in Verification/Streams.antt, hashes in
--   Verification/Hashes.antt, the reports in Verification/Reports.antt; the proofs are in
--   Verification/Outcomes.antt and in the children of the first two.
-- - Worker: the polling loop of sim/api/execution/worker.py over the queue, in Worker.antt. Before each call
--   of the worker on the queue the other processes make any calls of theirs. The executor and the tournament
--   service are arguments, and may raise. The loop takes a number of turns and says when they did not
--   suffice; Worker/Once.antt shows when one is enough, Worker/Bounds.antt counts the jobs, and
--   Worker/Completion.antt follows a claimed run. Worker/Executor.antt is
--   sim/api/execution/executor.py.
-- - Tournaments: sim/api/tournaments.py. Tournaments/Requests.antt has the configurations of child runs,
--   Tournaments/Keys.antt their keys, Tournaments/Expand.antt expand_tournament, Tournaments/Metrics.antt
--   the metrics of a run and Tournaments/Report.antt build_report. The service of
--   sim/api/services/tournament_service.py is in Tournaments/Service.antt, Tournaments/Aggregates.antt and
--   Tournaments/Cancellation.antt, over Storage, Services and Queue. The proofs are in
--   Tournaments/Expand/Choices.antt and Sizes.antt, Tournaments/Report/Counts.antt and Tournaments/Aggregates/Status.antt.
-- - Streaming: the messages of runs to their subscribers, sim/api/services/stream_service.py.
--   Streaming/Messages.antt has the messages and their logs, Streaming.antt the service; Streaming/Bounded.antt
--   and Streaming/Recent.antt hold the proofs. Services takes the coercion of its
--   messages and their logs, and records its calls of it as data.
-- - Benchmarks: the results and their comparison, sim/tes_benchmarks/models.py, in Benchmarks.antt, the dicts
--   in Benchmarks/Dicts.antt and the proofs in Benchmarks/Regressions.antt and Benchmarks/RoundTrip.antt.
--
-- Floats.antt has the operators of floats that Tournaments and Benchmarks take as a parameter.
--
-- Prelude.antt and its children have lists over the native numbers, Python's integers, tables with a
-- primary key, sorting, and the result type of code that may raise. A method that changes state takes
-- the state and gives the new one with its value. A method that reads the clock or makes an id takes
-- the reading or the id as an argument. Times are numbers of microseconds, so differences of times stop
-- at 0 where Python would give a time before the epoch. Python's integers have no bound and neither do
-- the model's; sqlite3 takes those of 64 bits, which enqueue tests for its priority. A float is its repr, or a parameter with the test that the code makes of it. An exception
-- is a constructor that says which check raised it; its message is left out, but for the error
-- texts that are stored with a run. Every loop of the modelled code but the worker's runs over a list
-- and is structural recursion on it.
--
-- Not modelled: the connection, pragmas, schema text and migration of SQLite, and its locking, which
-- makes a method one step; processes, sockets and HTTP; the engine, which is C++; the SQLite run
-- store, the benchmark runner and service, sessions, strategies, sums of quantities, the command line and the web client.
--
-- Each Tests module applies the theorems to concrete states.
pub mod Analytics
pub mod Benchmarks
pub mod Floats
pub mod Json
pub mod Models
pub mod Prelude
pub mod Queue
pub mod Replay
pub mod Services
pub mod Storage
pub mod Streaming
pub mod Tournaments
pub mod Verification
pub mod Worker
