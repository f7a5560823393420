-- ===== src/Queue/Recovery/Stale.antt =====
-- `requeue_stale` of sim/api/execution/queue.py, on a row with a stale lock.
use tirrad_exchange_system.Prelude.{
  ℕ, ◌-◌, ◌≤◌, ◌≡◌, refl, String, true, false, not, Option, none, some, List, [], ◌∷◌, inl, inr,
  arith, select, In, ◌==◌, if◌then◌else◌, All, In-select, In-map, subst, map,
}
use tirrad_exchange_system.Prelude.Sorting.{order_by, order_by-In}
use tirrad_exchange_system.Prelude.Tables.{NewKey, NewKey-delete, All-select, find-update_where}
use tirrad_exchange_system.Queue.Types.{
  pending, QueueItem, SqliteRunQueue, is_run, seconds, is_lease_of, RunLease,
}
use tirrad_exchange_system.Queue.Runs.{get, is_claimable, is_stale, delete_lease}
use tirrad_exchange_system.Queue.Workers.{timeout_of}
use tirrad_exchange_system.Queue.Scheduler.{
  requeue_stale, stale_runs, requeue_rows, requeued, delete_leases, lock_order,
}
use tirrad_exchange_system.Queue.Recovery.{get-In}

-- The time before which `requeue_stale` takes a lock for stale.
abbrev pub cutoff : SqliteRunQueue → (ℕ → ℕ) → Option ℕ → ℕ
cutoff q clock limit = clock 0 - seconds (timeout_of q limit)

-- `requeue_stale` makes a run with a stale lock pending, available from now on, and leaves any other
-- run of the table as it is.
get-requeue_stale :
    (q : SqliteRunQueue) (clock : ℕ → ℕ) (limit : Option ℕ) (r : String) (x : QueueItem)
    → get q r ≡ some x
    → get (requeue_stale q clock limit).0 r
      ≡ some (if is_stale (cutoff q clock limit) x then requeued (clock 0) x else x)
unfolding get requeue_stale requeue_rows
get-requeue_stale q clock limit r x e =
    rw
      (
        find-update_where (is_run r) (is_stale (cutoff q clock limit)) (requeued (clock 0))
            q.run_queue (λ y. unfold requeued in refl),
        e,
      )
      refl

All-delete_leases :
    (P : RunLease → Type 0) (ids : List String) (leases : List RunLease)
    → All P leases
    → All P (delete_leases ids leases)
unfolding delete_leases delete_lease
All-delete_leases P [] leases h = h
All-delete_leases P (r ∷ ids) leases h =
    All-delete_leases P ids _ (All-select P (λ l. not (is_lease_of r l)) leases h)

delete_leases-NewKey :
    (r : String) (ids : List String) (leases : List RunLease)
    → In r ids
    → NewKey (λ l. l.run_id) r (delete_leases ids leases)
unfolding delete_leases delete_lease
delete_leases-NewKey r [] leases m = absurd m
delete_leases-NewKey r (s ∷ ids) leases (inl e) = rw e (
    All-delete_leases (λ l. (l.run_id == s) ≡ false) ids (delete_lease s leases)
      (unfold delete_lease in NewKey-delete (λ l. l.run_id) s leases))
delete_leases-NewKey r (s ∷ ids) leases (inr m) = delete_leases-NewKey r ids _ m

-- With no other process in between, a run whose row has a stale lock is reported by `requeue_stale` and
-- its lease is deleted; its row in the table afterwards is pending and unlocked, and every worker that
-- asks from then on finds it claimable.
pub requeue_stale-recovers :
    (q : SqliteRunQueue) (clock : ℕ → ℕ) (limit : Option ℕ) (r : String) (x : QueueItem)
    (later before : ℕ)
    → get q r ≡ some x
    → is_stale (cutoff q clock limit) x ≡ true
    → clock 0 ≤ later
    → In r (requeue_stale q clock limit).1.requeued_runs
      × NewKey (λ l. l.run_id) r (requeue_stale q clock limit).0.run_leases
      × (y : QueueItem) × (get (requeue_stale q clock limit).0 r ≡ some y)
      × (y.status ≡ pending)
      × (y.locked_by ≡ none)
      × (is_claimable later before y ≡ true)
requeue_stale-recovers q clock limit r x later before e h t =
    let (m, same) = get-In q r x e in
    let stale = select (is_stale (cutoff q clock limit)) q.run_queue in
    let reported : In r (requeue_stale q clock limit).1.requeued_runs =
      unfold requeue_stale stale_runs in
      subst (λ i. In i (map (λ y. y.run_id) (order_by lock_order stale))) same
        (In-map (λ y. y.run_id) x (order_by lock_order stale)
          (order_by-In lock_order stale x
            (In-select (is_stale (cutoff q clock limit)) x q.run_queue m h))) in
    (
      reported,
      unfold requeue_stale requeue_rows in delete_leases-NewKey r _ q.run_leases reported,
      requeued (clock 0) x,
      rw (get-requeue_stale q clock limit r x e, h) refl,
      unfold requeued in refl,
      unfold requeued in refl,
      unfold is_claimable requeued in ground arith,
    )
