-- ===== src/Queue/Edits/Steps.antt =====
-- Each call of sim/api/execution/queue.py changes the table `run_queue` by the edits of a run.
use tirrad_exchange_system.Prelude.{
  ℕ, ◌-◌, ◌≡◌, refl, String, Bool, true, false, Option, none, some, List, inl, inr, arith,
  update_where, any, subst, Option-cases, Bool-cases, or_else,
}
use tirrad_exchange_system.Prelude.Int.{ℤ}
use tirrad_exchange_system.Prelude.Tables.{Keyed, Keyed-unique}
use tirrad_exchange_system.Queue.Types.{
  QueueStatus, running, completed, failed, canceled, eq_status, QueueItem, SqliteRunQueue, is_run,
  seconds, WorkerRecord,
}
use tirrad_exchange_system.Queue.Runs.{
  claimed, started, next_claimable, claim_next, claim_row, enqueue, upsert_item, fits_integer,
  mark_running, mark_terminal, mark_completed, mark_failed, mark_canceled, cancel_pending,
  upsert_lease, is_open_run, is_pending_run,
}
use tirrad_exchange_system.Queue.Workers.{
  ensure_worker, beat_lease, beat_rows, get_worker, timeout_of, Beat, register_worker, heartbeat,
  drain_worker, shutdown_worker, detect_stale_workers,
}
use tirrad_exchange_system.Queue.Scheduler.{requeue_stale, requeue_rows, record_scheduler_metrics}
use tirrad_exchange_system.Queue.Calls.{
  Call, enqueues, claims, starts, completes, fails, cancels, cancels_pending, registers, beats,
  drains, shuts_down, detects, requeues, frees, reports, apply,
}
use tirrad_exchange_system.Queue.Edits.{
  Changes, enqueue_again, claim, start, relock, finish, cancel_early, requeue, same, inserts,
  updates, both, next_claimable-In,
}

upsert_item-Changes :
    (q : SqliteRunQueue) (now : ℕ) (r : String) (priority : ℤ) (available : ℕ)
    → Changes false q.run_queue (upsert_item q now r priority available).run_queue
unfolding upsert_item
upsert_item-Changes q now r priority available = elim (Bool-cases (any (is_run r) q.run_queue)) [
  | inl old ↦
      rw old (updates (is_run r) _ (λ x. refl) (λ x m e. enqueue_again priority available refl))
  | inr new ↦ rw new (inserts r priority now available new)
]

enqueue-Changes :
    (q : SqliteRunQueue) (now : ℕ) (r : String) (priority : ℤ) (available : Option ℕ)
    → Changes false q.run_queue (enqueue q now r priority available).0.run_queue
unfolding enqueue
enqueue-Changes q now r priority available = elim (Bool-cases (fits_integer priority)) [
  | inl fits ↦ rw (enqueue, fits) (upsert_item-Changes q now r priority (or_else available now))
  | inr large ↦ rw (enqueue, large) same
]

claim_row-Changes :
    (q : SqliteRunQueue) (now : ℕ) (w : String) (row : QueueItem)
    → Keyed (λ x. x.run_id) q.run_queue
    → next_claimable q now ≡ some row
    → Changes true q.run_queue (claim_row q now w row).run_queue
unfolding claim_row claimed
claim_row-Changes q now w row keyed e =
    let (m, fits) = next_claimable-In q now e in
    updates (is_run row.run_id) _ (λ x. refl)
      λ x n same_id.
        claim now (now - seconds q.stale_after_seconds) w refl
          (rw (Keyed-unique (λ y. y.run_id) x row q.run_queue keyed n m same_id) fits) refl

pub claim_next-Changes :
    (q : SqliteRunQueue) (now : ℕ) (w : String)
    → Keyed (λ x. x.run_id) q.run_queue
    → Changes true q.run_queue (claim_next q now w).0.run_queue
unfolding claim_next
claim_next-Changes q now w keyed = elim (Option-cases (next_claimable q now)) [
  | inl e ↦ rw (e, claim_next) same
  | inr (row, e) ↦ rw (e, claim_next) (claim_row-Changes q now w row keyed e)
]

upsert_lease-Changes :
    (q : SqliteRunQueue) (now : ℕ) (r w : String)
    → Changes false q.run_queue (upsert_lease q now r w).run_queue
unfolding upsert_lease
upsert_lease-Changes q now r w = updates _ _ (λ x. refl) λ x m e. relock now w (ground arith) refl

mark_running-Changes :
    (q : SqliteRunQueue) (now : ℕ) (r : String) (w : Option String)
    → Changes false q.run_queue (mark_running q now r w).0.run_queue
unfolding mark_running
mark_running-Changes q now r none =
    updates (is_open_run r) _ (λ x. refl) λ x m e. start now none (ground arith) refl
mark_running-Changes q now r (some w) =
    both
      (updates (is_open_run r) (started now (some w)) (λ x. refl)
        λ x m e. start now (some w) (ground arith) refl)
      (upsert_lease-Changes
        (record q { run_queue = update_where (is_open_run r) (started now (some w)) q.run_queue })
        now r w)

mark_terminal-Changes :
    (q : SqliteRunQueue) (now : ℕ) (r : String) (s : QueueStatus) (e : Option String)
    → eq_status s running ≡ false
    → Changes false q.run_queue (mark_terminal q now r s e).0.run_queue
unfolding mark_terminal
mark_terminal-Changes q now r s e t =
    updates (is_open_run r) _ (λ x. refl) λ x m h. finish now s e t (ground arith) refl

cancel_pending-Changes :
    (q : SqliteRunQueue) (now : ℕ) (r : String)
    → Changes false q.run_queue (cancel_pending q now r).0.run_queue
unfolding cancel_pending
cancel_pending-Changes q now r =
    updates (is_pending_run r) _ (λ x. refl) λ x m h. cancel_early now (ground arith) refl

ensure_worker-run_queue :
    (q : SqliteRunQueue) (registered : ℕ) (w status : String) (found : Option WorkerRecord)
    → (ensure_worker q registered w status found).run_queue ≡ q.run_queue
unfolding ensure_worker
ensure_worker-run_queue q registered w status none = refl
ensure_worker-run_queue q registered w status (some worker) = refl

beat_lease-Changes :
    (q : SqliteRunQueue) (now : ℕ) (w : String) (r : Option String)
    → Changes false q.run_queue (beat_lease q now w r).run_queue
unfolding beat_lease
beat_lease-Changes q now w none = same
beat_lease-Changes q now w (some r) = upsert_lease-Changes q now r w

heartbeat-Changes :
    (q : SqliteRunQueue) (now registered : ℕ) (w : String) (b : Beat)
    → Changes false q.run_queue (heartbeat q now registered w b).run_queue
heartbeat-Changes q now registered w b =
    subst (λ rows. Changes false rows (heartbeat q now registered w b).run_queue)
      (ensure_worker-run_queue q registered w b.status (get_worker q w))
      (unfold heartbeat in
        beat_lease-Changes
          (beat_rows (ensure_worker q registered w b.status (get_worker q w)) now w b) now w
          b.current_run_id)

requeue_rows-Changes :
    (q : SqliteRunQueue) (now cutoff : ℕ) (runs : List String) (clock : ℕ → ℕ)
    → Changes false q.run_queue (requeue_rows q now cutoff runs clock).run_queue
unfolding requeue_rows
requeue_rows-Changes q now cutoff runs clock =
    updates _ _ (λ x. refl) λ x m e. requeue now cutoff e refl

requeue_stale-Changes :
    (q : SqliteRunQueue) (clock : ℕ → ℕ) (t : Option ℕ)
    → Changes false q.run_queue (requeue_stale q clock t).0.run_queue
unfolding requeue_stale requeue_rows
requeue_stale-Changes q clock t =
    updates _ _ (λ x. refl) λ x m e. requeue (clock 0) (clock 0 - seconds (timeout_of q t)) e refl

abbrev pub is_claim : Call → Bool
is_claim (claims now w) = true
is_claim _ = false

-- Each call changes the rows of the runs by the edits alone, and loses none.
pub apply-Changes :
    (q : SqliteRunQueue) (c : Call)
    → Keyed (λ x. x.run_id) q.run_queue
    → Changes (is_claim c) q.run_queue (apply q c).run_queue
unfolding apply
apply-Changes q (enqueues now r priority available) k = enqueue-Changes q now r priority available
apply-Changes q (claims now w) k = claim_next-Changes q now w k
apply-Changes q (starts now r w) k = mark_running-Changes q now r w
apply-Changes q (completes now r) k =
    unfold mark_completed in mark_terminal-Changes q now r completed none refl
apply-Changes q (fails now r e) k =
    unfold mark_failed in mark_terminal-Changes q now r failed (some e) refl
apply-Changes q (cancels now r e) k =
    unfold mark_canceled in mark_terminal-Changes q now r canceled e refl
apply-Changes q (cancels_pending now r) k = cancel_pending-Changes q now r
apply-Changes q (registers now w r) k = unfold register_worker in same
apply-Changes q (beats now registered w b) k = heartbeat-Changes q now registered w b
apply-Changes q (drains w) k = unfold drain_worker in same
apply-Changes q (shuts_down w) k = unfold shutdown_worker in same
apply-Changes q (detects now t) k = unfold detect_stale_workers in same
apply-Changes q (requeues clock t) k = requeue_stale-Changes q clock t
apply-Changes q (frees now cutoff runs clock) k = requeue_rows-Changes q now cutoff runs clock
apply-Changes q (reports clock) k = unfold record_scheduler_metrics in same
