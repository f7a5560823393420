-- ===== src/Queue/Runs.antt =====
-- The operations of sim/api/execution/queue.py on the tables `run_queue` and `run_leases`.
-- Each takes the reading of `datetime.now(UTC)` that it makes, and returns the new tables.
use tirrad_exchange_system.Prelude.{
  ℕ, ◌+◌, ◌-◌, String, Bool, true, false, not, ◌&&◌, ◌||◌, Option, none, some, List, [], ◌∷◌, ◌++◌,
  ltb, leb, eqb, if◌then◌else◌, select, find, update_where, any, coalesce, or_else,
}
use tirrad_exchange_system.Prelude.Int.{ℤ, pos, negsuc, ltb_ℤ, leb_ℤ, eqb_ℤ}
use tirrad_exchange_system.Prelude.Text.{text_leb}
use tirrad_exchange_system.Prelude.Sorting.{order_by, head_of}
use tirrad_exchange_system.Prelude.Results.{Result, ok, err}
use tirrad_exchange_system.Queue.Types.{
  QueueStatus, pending, running, completed, failed, canceled, eq_status, QueueItem, RunLease,
  SqliteRunQueue, seconds, is_run, is_lease_of,
}

-- RuntimeError(f"failed to enqueue run: {run_id}") and the like, and OverflowError of sqlite3.
pub data QueueError : Type 0 where
  failed_to_enqueue failed_to_register : String → QueueError
  integer_overflow : ℤ → QueueError

-- `if item is None: raise ...`
abbrev pub or_raise : {A : Type 0} → QueueError → Option A → Result QueueError A
or_raise e none = err e
or_raise e (some a) = ok a

unfoldable pub get : SqliteRunQueue → String → Option QueueItem
get q run_id = find (is_run run_id) q.run_queue

-- The DO UPDATE part of the upsert.
unfoldable pub enqueued_again : ℤ → ℕ → QueueItem → QueueItem
enqueued_again priority available row = record row {
  status =
      if eq_status row.status completed || eq_status row.status running
      then row.status
      else pending;
  priority = priority;
  available_at = available;
  completed_at = none;
  last_error = none;
  locked_by = none;
  locked_at = none;
}

abbrev pub new_item : String → ℤ → ℕ → ℕ → QueueItem
new_item run_id priority now available = record {
  run_id = run_id;
  status = pending;
  priority = priority;
  created_at = now;
  available_at = available;
  started_at = none;
  completed_at = none;
  attempts = 0;
  last_error = none;
  locked_by = none;
  locked_at = none;
}

-- The INSERT and its upsert.
unfoldable pub upsert_item : SqliteRunQueue → ℕ → String → ℤ → ℕ → SqliteRunQueue
unfolding enqueued_again
upsert_item q now run_id priority available = record q {
  run_queue =
      if any (is_run run_id) q.run_queue
      then update_where (is_run run_id) (enqueued_again priority available) q.run_queue
      else q.run_queue ++ new_item run_id priority now available ∷ [];
}

-- sqlite3 binds an int of 64 bits, and raises OverflowError for any other before the statement runs.
abbrev pub fits_integer : ℤ → Bool
fits_integer n = leb_ℤ (negsuc 9223372036854775807) n && ltb_ℤ n (pos 9223372036854775808)

-- The get follows the transaction; no call removes a row, so that it finds the run even if other
-- processes change the row in between, and here none does.
unfoldable pub enqueue :
    SqliteRunQueue → ℕ → String → ℤ → Option ℕ → SqliteRunQueue × Result QueueError QueueItem
unfolding get upsert_item
enqueue q now run_id priority available_at =
    let q' = upsert_item q now run_id priority (or_else available_at now) in
    if fits_integer priority
    then (q', or_raise (failed_to_enqueue run_id) (get q' run_id))
    else (q, err (integer_overflow priority))

-- locked_at IS NOT NULL AND locked_at < before
abbrev pub locked_before : ℕ → Option ℕ → Bool
locked_before before none = false
locked_before before (some t) = ltb t before

-- A running row whose lock is older than the limit.
abbrev pub is_stale : ℕ → QueueItem → Bool
is_stale before row = eq_status row.status running && locked_before before row.locked_at

-- The WHERE clause of the candidates.
unfoldable pub is_claimable : ℕ → ℕ → QueueItem → Bool
is_claimable now stale_before row =
    (eq_status row.status pending || is_stale stale_before row) && leb row.available_at now

-- ORDER BY priority DESC, created_at ASC, run_id ASC
unfoldable pub claim_order : QueueItem → QueueItem → Bool
claim_order a b =
    if ltb_ℤ b.priority a.priority
    then true
    else if eqb_ℤ b.priority a.priority
    then (if ltb a.created_at b.created_at
        then true
        else if eqb a.created_at b.created_at
        then text_leb a.run_id b.run_id
        else false)
    else false

-- The SELECT ... LIMIT 1 inside the UPDATE.
unfoldable pub next_claimable : SqliteRunQueue → ℕ → Option QueueItem
next_claimable q now = head_of (
    order_by claim_order
      (select (is_claimable now (now - seconds q.stale_after_seconds)) q.run_queue))

-- The SET part of the claim.
unfoldable pub claimed : ℕ → String → QueueItem → QueueItem
claimed now worker_id row = record row {
  status = running;
  started_at = coalesce row.started_at (some now);
  attempts = row.attempts + 1;
  locked_by = some worker_id;
  locked_at = some now;
  last_error = none;
}

unfoldable pub new_lease : SqliteRunQueue → ℕ → String → String → RunLease
new_lease q now run_id worker_id = record {
  run_id = run_id;
  worker_id = worker_id;
  acquired_at = now;
  expires_at = now + seconds q.stale_after_seconds;
  heartbeat_at = now;
}

unfoldable pub delete_lease : String → List RunLease → List RunLease
delete_lease run_id leases = select (λ lease. not (is_lease_of run_id lease)) leases

-- The row that the UPDATE returns is the selected one, since `run_id` is the primary key.
unfoldable pub claim_row : SqliteRunQueue → ℕ → String → QueueItem → SqliteRunQueue
claim_row q now worker_id row = record q {
  run_queue = update_where (is_run row.run_id) (claimed now worker_id) q.run_queue;
  run_leases = delete_lease row.run_id q.run_leases ++ new_lease q now row.run_id worker_id ∷ [];
}

-- `if row is None: return None`, and what follows it.
abbrev pub claim_found :
    SqliteRunQueue → ℕ → String → Option QueueItem → SqliteRunQueue × Option QueueItem
claim_found q now worker_id none = (q, none)
claim_found q now worker_id (some row) =
    (claim_row q now worker_id row, some (claimed now worker_id row))

unfoldable pub claim_next : SqliteRunQueue → ℕ → String → SqliteRunQueue × Option QueueItem
claim_next q now worker_id = claim_found q now worker_id (next_claimable q now)

unfoldable pub dequeue : SqliteRunQueue → ℕ → String → SqliteRunQueue × Option QueueItem
dequeue q now worker_id = claim_next q now worker_id

-- The SET of the lock in `_upsert_lease`.
abbrev pub relocked : ℕ → String → QueueItem → QueueItem
relocked now worker_id row = record row { locked_at = some now; locked_by = some worker_id }

abbrev renewed : ℕ → ℕ → String → RunLease → RunLease
renewed now expires worker_id lease = record lease {
  worker_id = worker_id;
  expires_at = expires;
  heartbeat_at = now;
}

unfoldable pub upsert_lease : SqliteRunQueue → ℕ → String → String → SqliteRunQueue
unfolding new_lease
upsert_lease q now run_id worker_id = record q {
  run_leases =
      if any (is_lease_of run_id) q.run_leases
      then update_where (is_lease_of run_id)
          (renewed now (now + seconds q.stale_after_seconds) worker_id) q.run_leases
      else q.run_leases ++ new_lease q now run_id worker_id ∷ [];
  run_queue =
      update_where (λ row. is_run run_id row && eq_status row.status running)
        (relocked now worker_id) q.run_queue;
}

unfoldable pub started : ℕ → Option String → QueueItem → QueueItem
started now worker_id row = record row {
  status = running;
  started_at = coalesce row.started_at (some now);
  locked_by = coalesce worker_id row.locked_by;
  locked_at = some now;
}

-- WHERE run_id = ? AND status != 'completed'
abbrev pub is_open_run : String → QueueItem → Bool
is_open_run run_id row = is_run run_id row && not (eq_status row.status completed)

unfoldable pub mark_running :
    SqliteRunQueue → ℕ → String → Option String → SqliteRunQueue × Option QueueItem
unfolding get upsert_lease started
mark_running q now run_id worker_id =
    let q₁ = record q {
      run_queue = update_where (is_open_run run_id) (started now worker_id) q.run_queue;
    } in
    let q₂ : SqliteRunQueue = elim worker_id [
      | none ↦ q₁
      | some w ↦ upsert_lease q₁ now run_id w
    ] in
    (q₂, get q₂ run_id)

unfoldable pub ended : ℕ → QueueStatus → Option String → QueueItem → QueueItem
ended now status error row = record row {
  status = status;
  completed_at = some now;
  last_error = error;
  locked_by = none;
  locked_at = none;
}

unfoldable pub mark_terminal :
    SqliteRunQueue → ℕ → String → QueueStatus → Option String → SqliteRunQueue × Option QueueItem
unfolding get ended
mark_terminal q now run_id status error =
    let q' = record q {
      run_queue = update_where (is_open_run run_id) (ended now status error) q.run_queue;
      run_leases = delete_lease run_id q.run_leases;
    } in
    (q', get q' run_id)

unfoldable pub mark_completed : SqliteRunQueue → ℕ → String → SqliteRunQueue × Option QueueItem
unfolding mark_terminal
mark_completed q now run_id = mark_terminal q now run_id completed none

unfoldable pub mark_failed :
    SqliteRunQueue → ℕ → String → String → SqliteRunQueue × Option QueueItem
unfolding mark_terminal
mark_failed q now run_id error = mark_terminal q now run_id failed (some error)

unfoldable pub mark_canceled :
    SqliteRunQueue → ℕ → String → Option String → SqliteRunQueue × Option QueueItem
unfolding mark_terminal
mark_canceled q now run_id error = mark_terminal q now run_id canceled error

unfoldable pub canceled_early : ℕ → QueueItem → QueueItem
canceled_early now row = record row {
  status = canceled;
  completed_at = some now;
  locked_by = none;
  locked_at = none;
  last_error = coalesce row.last_error (some "canceled before execution");
}

abbrev pub is_pending_run : String → QueueItem → Bool
is_pending_run run_id row = is_run run_id row && eq_status row.status pending

-- The result is `cursor.rowcount > 0`.
unfoldable pub cancel_pending : SqliteRunQueue → ℕ → String → SqliteRunQueue × Bool
unfolding canceled_early
cancel_pending q now run_id = (
  record q {
    run_queue = update_where (is_pending_run run_id) (canceled_early now) q.run_queue;
    run_leases = delete_lease run_id q.run_leases;
  },
  any (is_pending_run run_id) q.run_queue,
)

-- SELECT * ... WHERE status = ? ORDER BY priority DESC, created_at ASC, run_id ASC
unfoldable pub list_by_status : SqliteRunQueue → QueueStatus → List QueueItem
list_by_status q status =
    order_by claim_order (select (λ row. eq_status row.status status) q.run_queue)

unfoldable pub list_pending : SqliteRunQueue → List QueueItem
unfolding list_by_status
list_pending q = list_by_status q pending

unfoldable pub list_running : SqliteRunQueue → List QueueItem
unfolding list_by_status
list_running q = list_by_status q running

unfoldable pub lease_order : RunLease → RunLease → Bool
lease_order a b =
    if ltb a.expires_at b.expires_at
    then true
    else if eqb a.expires_at b.expires_at
    then text_leb a.run_id b.run_id
    else false

-- SELECT * FROM run_leases ORDER BY expires_at ASC, run_id ASC
unfoldable pub list_leases : SqliteRunQueue → List RunLease
list_leases q = order_by lease_order q.run_leases

unfoldable pub get_lease : SqliteRunQueue → String → Option RunLease
get_lease q run_id = find (is_lease_of run_id) q.run_leases
