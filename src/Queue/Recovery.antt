-- ===== src/Queue/Recovery.antt =====
-- `enqueue` of sim/api/execution/queue.py, on every kind of row.
pub mod Stale
use tirrad_exchange_system.Prelude.{
  ℕ, ◌-◌, ◌≤◌, ◌≡◌, refl, String, true, false, not, Option, none, some, List, [], ◌∷◌, inl, inr,
  arith, select, find, any, In, ◌==◌, eq_refl, find-In, if◌then◌else◌, or_else, All, In-select,
  In-map, ◌⊎◌, Option-cases, Bool-cases, eq_iff, subst, map,
}
use tirrad_exchange_system.Prelude.Int.{ℤ}
use tirrad_exchange_system.Prelude.Results.{ok, err}
use tirrad_exchange_system.Prelude.Sorting.{order_by, order_by-In}
use tirrad_exchange_system.Prelude.Tables.{
  NewKey, NewKey-delete, All-select, find-update_where, find-append, is_some-find,
}
use tirrad_exchange_system.Queue.Types.{
  QueueStatus, pending, running, completed, failed, canceled, eq_status, QueueItem, SqliteRunQueue,
  is_run, seconds, is_lease_of, RunLease,
}
use tirrad_exchange_system.Queue.Runs.{
  integer_overflow, get, upsert_item, fits_integer, enqueue, enqueued_again, new_item, is_claimable,
  is_stale, delete_lease,
}
use tirrad_exchange_system.Queue.Workers.{timeout_of}
use tirrad_exchange_system.Queue.Scheduler.{
  requeue_stale, stale_runs, requeue_rows, requeued, delete_leases, lock_order,
}

-- The row that `upsert_item` leaves, from the one it finds.
abbrev after_enqueue : String → ℤ → ℕ → ℕ → Option QueueItem → QueueItem
after_enqueue r priority now available none = new_item r priority now available
after_enqueue r priority now available (some x) = enqueued_again priority available x

get-upsert_item :
    (q : SqliteRunQueue) (now : ℕ) (r : String) (priority : ℤ) (available : ℕ)
    → get (upsert_item q now r priority available) r
      ≡ some (after_enqueue r priority now available (find (is_run r) q.run_queue))
unfolding upsert_item get
get-upsert_item q now r priority available = elim (Option-cases (find (is_run r) q.run_queue)) [
  | inl e ↦
      let new : any (is_run r) q.run_queue ≡ false =
        ground (arith, is_some-find (is_run r) q.run_queue) in
      rw (new, find-append (is_run r) q.run_queue (new_item r priority now available), e)
        (rw (eq_refl r) refl)
  | inr (x, e) ↦
      let old : any (is_run r) q.run_queue ≡ true =
        ground (arith, is_some-find (is_run r) q.run_queue) in
      rw
        (
          old,
          find-update_where (is_run r) (is_run r) (enqueued_again priority available) q.run_queue
              (λ y. unfold enqueued_again in refl),
          e,
        )
        (rw (find-In (is_run r) q.run_queue e).1 refl)
]

pub get-In :
    (q : SqliteRunQueue) (r : String) (x : QueueItem)
    → get q r ≡ some x
    → In x q.run_queue × (x.run_id ≡ r)
unfolding get
get-In q r x e =
    let (m, named) = find-In (is_run r) q.run_queue e in (m, (eq_iff x.run_id r).0 named)

-- A row that was not there: it is pending, made now, and was never claimed.
abbrev pub IsNew : ℕ → QueueItem → Type 0
IsNew now y = (y.status ≡ pending) × (y.created_at ≡ now) × (y.started_at ≡ none) × (y.attempts ≡ 0)

-- A row that was there as `x`: a completed or running one keeps its status, any other is pending, and
-- its history stays.
abbrev pub IsAgain : QueueItem → QueueItem → Type 0
IsAgain x y =
    ((((x.status ≡ completed) ⊎ (x.status ≡ running)) × (y.status ≡ x.status))
      ⊎ ((eq_status x.status completed ≡ false)
          × (eq_status x.status running ≡ false)
          × (y.status ≡ pending)))
    × (y.created_at ≡ x.created_at)
    × (y.started_at ≡ x.started_at)
    × (y.attempts ≡ x.attempts)

-- A row that was enqueued with a priority and a time.
pub record IsEnqueued (r : String) (priority : ℤ) (available : ℕ) (y : QueueItem) : Type 0 where
  pub named : y.run_id ≡ r
  pub prioritised : y.priority ≡ priority
  pub available_from : y.available_at ≡ available
  pub unfinished : y.completed_at ≡ none
  pub faultless : y.last_error ≡ none
  pub unlocked : y.locked_by ≡ none
  pub no_lock_time : y.locked_at ≡ none

status-cases :
    (s : QueueStatus)
    → ((s ≡ completed) ⊎ (s ≡ running))
      ⊎ ((eq_status s completed ≡ false) × (eq_status s running ≡ false))
status-cases pending = inr (refl, refl)
status-cases running = inl (inr refl)
status-cases completed = inl (inl refl)
status-cases failed = inr (refl, refl)
status-cases canceled = inr (refl, refl)

enqueued_again-IsAgain :
    (priority : ℤ) (available : ℕ) (x : QueueItem) → IsAgain x (enqueued_again priority available x)
unfolding enqueued_again
enqueued_again-IsAgain priority available x = elim (status-cases x.status) [
  | inl (inl e) ↦ (inl (inl e, rw e refl), refl, refl, refl)
  | inl (inr e) ↦ (inl (inr e, rw e refl), refl, refl, refl)
  | inr (c, u) ↦ (inr (c, u, rw (c, u) refl), refl, refl, refl)
]

-- The row of a priority that fits.
pub enqueue-fits :
    (q : SqliteRunQueue) (now : ℕ) (r : String) (priority : ℤ) (available : Option ℕ)
    → fits_integer priority ≡ true
    → let y = after_enqueue r priority now (or_else available now) (get q r) in
      ((enqueue q now r priority available).1 ≡ ok y)
      × (get (enqueue q now r priority available).0 r ≡ some y)
unfolding enqueue
enqueue-fits q now r priority available h =
    let e = get-upsert_item q now r priority (or_else available now) in
    (rw (enqueue, h, e) (unfold get in refl), rw (enqueue, h) (unfold get in e))

-- A priority that no 64-bit integer holds is refused, with the table as it was. With any other the run
-- is in the table afterwards and that row is returned, with the priority, the time, no lock, no error and no
-- end: a run that was not there is pending, made now and never claimed; one that was there keeps
-- when it was made and started and its attempts, and its status if that is completed or running, and
-- is pending otherwise.
pub enqueue-ok :
    (q : SqliteRunQueue) (now : ℕ) (r : String) (priority : ℤ) (available : Option ℕ)
    → ((fits_integer priority ≡ false)
        × (enqueue q now r priority available ≡ (q, err (integer_overflow priority))))
      ⊎ ((fits_integer priority ≡ true)
          × (y : QueueItem) × ((enqueue q now r priority available).1 ≡ ok y)
          × (get (enqueue q now r priority available).0 r ≡ some y)
          × IsEnqueued r priority (or_else available now) y
          × (((get q r ≡ none) × IsNew now y)
              ⊎ ((x : QueueItem) × (get q r ≡ some x) × IsAgain x y)))
enqueue-ok q now r priority available = elim (Bool-cases (fits_integer priority)) [
  | inr large ↦ inl (large, unfold enqueue in rw (enqueue, large) refl)
  | inl h ↦
      let a = or_else available now in
      let (given, stored) = enqueue-fits q now r priority available h in
      elim (Option-cases (get q r)) [
        | inl e ↦ inr (
          h,
          new_item r priority now a,
          rw (given, e) refl,
          rw (stored, e) refl,
          ground arith,
          inl (e, (refl, refl, refl, refl)),
        )
        | inr (x, e) ↦
            let same = (get-In q r x e).1 in
            inr (
              h,
              enqueued_again priority a x,
              rw (given, e) refl,
              rw (stored, e) refl,
              unfold enqueued_again in ground arith,
              inr (x, e, enqueued_again-IsAgain priority a x),
            )
      ]
]

-- Enqueuing a run that is running, with a priority of 64 bits, takes its lock away and leaves it running: whatever the times, no
-- claim and no stale recovery selects the row any more.
pub enqueue-strands :
    (q : SqliteRunQueue) (now : ℕ) (r : String) (priority : ℤ) (available : Option ℕ)
    (x : QueueItem) (later before : ℕ)
    → fits_integer priority ≡ true
    → get q r ≡ some x
    → eq_status x.status running ≡ true
    → (y : QueueItem) × (get (enqueue q now r priority available).0 r ≡ some y)
      × (eq_status y.status running ≡ true)
      × (is_claimable later before y ≡ false)
      × (is_stale before y ≡ false)
enqueue-strands q now r priority available x later before fits e h =
    let a = or_else available now in
    (
      enqueued_again priority a x,
      rw ((enqueue-fits q now r priority available fits).1, e) refl,
      unfold enqueued_again in ground arith,
      unfold enqueued_again is_claimable in ground arith,
      unfold enqueued_again in ground arith,
    )

-- Enqueuing a completed run, with a priority of 64 bits, keeps it completed, and erases the time of its completion.
pub enqueue-completed :
    (q : SqliteRunQueue) (now : ℕ) (r : String) (priority : ℤ) (available : Option ℕ)
    (x : QueueItem)
    → fits_integer priority ≡ true
    → get q r ≡ some x
    → x.status ≡ completed
    → (y : QueueItem) × (get (enqueue q now r priority available).0 r ≡ some y)
      × (y.status ≡ completed)
      × (y.completed_at ≡ none)
enqueue-completed q now r priority available x fits e h =
    let a = or_else available now in
    (
      enqueued_again priority a x,
      rw ((enqueue-fits q now r priority available fits).1, e) refl,
      unfold enqueued_again in ground arith,
      unfold enqueued_again in refl,
    )
