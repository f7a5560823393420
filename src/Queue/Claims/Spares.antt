-- ===== src/Queue/Claims/Spares.antt =====
-- The calls of sim/api/execution/queue.py that leave the row of a locked run as it is.
use tirrad_exchange_system.Prelude.{
  or_else, ℕ, ◌+◌, ◌-◌, ◌≤◌, ◌≡◌, refl, String, Bool, true, false, Option, none, some, List, inl,
  inr, arith, find, update_where, any, Option-cases, Bool-cases, ◌==◌, eq_iff, find-In,
}
use tirrad_exchange_system.Prelude.Int.{ℤ}
use tirrad_exchange_system.Prelude.Tables.{Keyed-unique, find-update_where, find-append}
use tirrad_exchange_system.Queue.Types.{
  QueueStatus, running, eq_status, QueueItem, SqliteRunQueue, is_run, seconds, WorkerRecord,
}
use tirrad_exchange_system.Queue.Runs.{
  is_claimable, next_claimable, claimed, claim_row, claim_next, enqueue, upsert_item, fits_integer,
  mark_running, mark_terminal, mark_completed, mark_failed, mark_canceled, cancel_pending,
  upsert_lease, is_stale, is_open_run, started,
}
use tirrad_exchange_system.Queue.Workers.{
  Beat, timeout_of, register_worker, heartbeat, drain_worker, shutdown_worker, detect_stale_workers,
  ensure_worker, beat_lease, beat_rows, get_worker,
}
use tirrad_exchange_system.Queue.Scheduler.{requeue_stale, requeue_rows, record_scheduler_metrics}
use tirrad_exchange_system.Queue.Calls.{
  Call, enqueues, claims, starts, completes, fails, cancels, cancels_pending, registers, beats,
  drains, shuts_down, detects, requeues, frees, reports, apply,
}
use tirrad_exchange_system.Queue.Edits.{next_claimable-In}
use tirrad_exchange_system.Queue.Lifecycle.{IsQueue, run_id_of}

abbrev pub Other : String → Option String → Type 0
Other r none = Unit
Other r (some s) = (s == r) ≡ false

-- A call that is about other runs than `r`, or that looks for stale locks within the limit after
-- the time `t` of the lock of `r`.
abbrev pub Spares : String → ℕ → SqliteRunQueue → Call → Type 0
Spares r t q (enqueues now s priority available) = (s == r) ≡ false
Spares r t q (claims now w) = now ≤ t + seconds q.stale_after_seconds
Spares r t q (starts now s w) = (s == r) ≡ false
Spares r t q (completes now s) = (s == r) ≡ false
Spares r t q (fails now s e) = (s == r) ≡ false
Spares r t q (cancels now s e) = (s == r) ≡ false
Spares r t q (cancels_pending now s) = (s == r) ≡ false
Spares r t q (registers now w registration) = Unit
Spares r t q (beats now registered w b) = Other r b.current_run_id
Spares r t q (drains w) = Unit
Spares r t q (shuts_down w) = Unit
Spares r t q (detects now limit) = Unit
Spares r t q (requeues clock limit) = clock 0 ≤ t + seconds (timeout_of q limit)
Spares r t q (frees now cutoff runs clock) = cutoff ≤ t
Spares r t q (reports clock) = Unit

-- The row of a run that is locked since `t`.
pub record IsLocked (r : String) (t : ℕ) (x : QueueItem) : Type 0 where
  pub runs : eq_status x.status running ≡ true
  pub since : x.locked_at ≡ some t
  pub is_its : x.run_id ≡ r

untouched :
    (r : String) (p : QueueItem → Bool) (f : QueueItem → QueueItem) (rows : List QueueItem)
    (x : QueueItem)
    → ((y : QueueItem) → (f y).run_id ≡ y.run_id)
    → find (is_run r) rows ≡ some x
    → p x ≡ false
    → find (is_run r) (update_where p f rows) ≡ some x
untouched r p f rows x keeps e h =
    rw (find-update_where (is_run r) p f rows (λ y. rw (keeps y) refl), e) (rw h refl)

module _ (r : String) (t : ℕ) (x : QueueItem) (l : IsLocked r t x) where
  other : (s : String) → (s == r) ≡ false → is_run s x ≡ false
  other s h = ground (arith, l.is_its, eq_iff x.run_id s, eq_iff s r)

  upsert_item-Spares :
      (q : SqliteRunQueue) (now : ℕ) (s : String) (priority : ℤ) (available : ℕ)
      → find (is_run r) q.run_queue ≡ some x
      → (s == r) ≡ false
      → find (is_run r) (upsert_item q now s priority available).run_queue ≡ some x
  unfolding upsert_item
  upsert_item-Spares q now s priority available e h =
      elim (Bool-cases (any (is_run s) q.run_queue)) [
        | inl old ↦ rw old (untouched r (is_run s) _ q.run_queue x (λ y. refl) e (other s h))
        | inr new ↦ rw (new, find-append (is_run r) q.run_queue _, e) refl
      ]

  enqueue-Spares :
      (q : SqliteRunQueue) (now : ℕ) (s : String) (priority : ℤ) (available : Option ℕ)
      → find (is_run r) q.run_queue ≡ some x
      → (s == r) ≡ false
      → find (is_run r) (enqueue q now s priority available).0.run_queue ≡ some x
  unfolding enqueue
  enqueue-Spares q now s priority available e h = elim (Bool-cases (fits_integer priority)) [
    | inl fits ↦
        rw (enqueue, fits) (upsert_item-Spares q now s priority (or_else available now) e h)
    | inr large ↦ rw (enqueue, large) e
  ]

  not_claimable :
      (q : SqliteRunQueue) (now : ℕ)
      → now ≤ t + seconds q.stale_after_seconds
      → is_claimable now (now - seconds q.stale_after_seconds) x ≡ false
  unfolding is_claimable
  not_claimable q now h = ground (arith, l.runs, l.since)

  -- The candidate of a claim is another run.
  pub candidate-other :
      (q : SqliteRunQueue) (now : ℕ) (row : QueueItem)
      → IsQueue q
      → find (is_run r) q.run_queue ≡ some x
      → now ≤ t + seconds q.stale_after_seconds
      → next_claimable q now ≡ some row
      → is_run row.run_id x ≡ false
  candidate-other q now row v e h c = elim (Bool-cases (is_run row.run_id x)) [
    | inr miss ↦ miss
    | inl hit ↦
        let (m, fits) = next_claimable-In q now c in
        let same =
          Keyed-unique run_id_of x row q.run_queue v.keyed (find-In (is_run r) q.run_queue e).0 m
            hit in
        absurd (ground (arith, not_claimable q now h, fits, same))
  ]

  claim_next-Spares :
      (q : SqliteRunQueue) (now : ℕ) (w : String)
      → IsQueue q
      → find (is_run r) q.run_queue ≡ some x
      → now ≤ t + seconds q.stale_after_seconds
      → find (is_run r) (claim_next q now w).0.run_queue ≡ some x
  unfolding claim_next claim_row claimed
  claim_next-Spares q now w v e h = elim (Option-cases (next_claimable q now)) [
    | inl c ↦ rw (c, claim_next) e
    | inr (row, c) ↦
        rw (c, claim_next)
          (untouched r (is_run row.run_id) (claimed now w) q.run_queue x (λ y. refl) e
            (candidate-other q now row v e h c))
  ]

  upsert_lease-Spares :
      (q : SqliteRunQueue) (now : ℕ) (s w : String)
      → find (is_run r) q.run_queue ≡ some x
      → (s == r) ≡ false
      → find (is_run r) (upsert_lease q now s w).run_queue ≡ some x
  unfolding upsert_lease
  upsert_lease-Spares q now s w e h =
      untouched r _ _ q.run_queue x (λ y. refl) e (rw (other s h) refl)

  mark_running-Spares :
      (q : SqliteRunQueue) (now : ℕ) (s : String) (w : Option String)
      → find (is_run r) q.run_queue ≡ some x
      → (s == r) ≡ false
      → find (is_run r) (mark_running q now s w).0.run_queue ≡ some x
  unfolding mark_running
  mark_running-Spares q now s none e h =
      untouched r _ _ q.run_queue x (λ y. refl) e (rw (other s h) refl)
  mark_running-Spares q now s (some w) e h =
      upsert_lease-Spares
        (record q { run_queue = update_where (is_open_run s) (started now (some w)) q.run_queue })
        now s w (untouched r _ _ q.run_queue x (λ y. refl) e (rw (other s h) refl)) h

  mark_terminal-Spares :
      (q : SqliteRunQueue) (now : ℕ) (s : String) (status : QueueStatus) (error : Option String)
      → find (is_run r) q.run_queue ≡ some x
      → (s == r) ≡ false
      → find (is_run r) (mark_terminal q now s status error).0.run_queue ≡ some x
  unfolding mark_terminal
  mark_terminal-Spares q now s status error e h =
      untouched r _ _ q.run_queue x (λ y. refl) e (rw (other s h) refl)

  cancel_pending-Spares :
      (q : SqliteRunQueue) (now : ℕ) (s : String)
      → find (is_run r) q.run_queue ≡ some x
      → (s == r) ≡ false
      → find (is_run r) (cancel_pending q now s).0.run_queue ≡ some x
  unfolding cancel_pending
  cancel_pending-Spares q now s e h =
      untouched r _ _ q.run_queue x (λ y. refl) e (rw (other s h) refl)

  beat_lease-Spares :
      (q : SqliteRunQueue) (now : ℕ) (w : String) (s : Option String)
      → find (is_run r) q.run_queue ≡ some x
      → Other r s
      → find (is_run r) (beat_lease q now w s).run_queue ≡ some x
  unfolding beat_lease
  beat_lease-Spares q now w none e h = e
  beat_lease-Spares q now w (some s) e h = upsert_lease-Spares q now s w e h

  ensure_worker-Spares :
      (q : SqliteRunQueue) (registered : ℕ) (w status : String) (found : Option WorkerRecord)
      → find (is_run r) q.run_queue ≡ some x
      → find (is_run r) (ensure_worker q registered w status found).run_queue ≡ some x
  unfolding ensure_worker
  ensure_worker-Spares q registered w status none e = e
  ensure_worker-Spares q registered w status (some worker) e = e

  heartbeat-Spares :
      (q : SqliteRunQueue) (now registered : ℕ) (w : String) (b : Beat)
      → find (is_run r) q.run_queue ≡ some x
      → Other r b.current_run_id
      → find (is_run r) (heartbeat q now registered w b).run_queue ≡ some x
  unfolding heartbeat
  heartbeat-Spares q now registered w b e h =
      beat_lease-Spares (beat_rows (ensure_worker q registered w b.status (get_worker q w)) now w b)
        now w b.current_run_id (ensure_worker-Spares q registered w b.status (get_worker q w) e) h

  requeue_rows-Spares :
      (q : SqliteRunQueue) (now cutoff : ℕ) (runs : List String) (clock : ℕ → ℕ)
      → find (is_run r) q.run_queue ≡ some x
      → cutoff ≤ t
      → find (is_run r) (requeue_rows q now cutoff runs clock).run_queue ≡ some x
  unfolding requeue_rows
  requeue_rows-Spares q now cutoff runs clock e h =
      untouched r (is_stale cutoff) _ q.run_queue x (λ y. refl) e (ground (arith, l.runs, l.since))

  requeue_stale-Spares :
      (q : SqliteRunQueue) (clock : ℕ → ℕ) (limit : Option ℕ)
      → find (is_run r) q.run_queue ≡ some x
      → clock 0 ≤ t + seconds (timeout_of q limit)
      → find (is_run r) (requeue_stale q clock limit).0.run_queue ≡ some x
  unfolding requeue_stale requeue_rows
  requeue_stale-Spares q clock limit e h =
      untouched r (is_stale (clock 0 - seconds (timeout_of q limit))) _ q.run_queue x (λ y. refl) e
        (ground (arith, l.runs, l.since))

  pub apply-Spares :
      (q : SqliteRunQueue) (c : Call)
      → IsQueue q
      → find (is_run r) q.run_queue ≡ some x
      → Spares r t q c
      → find (is_run r) (apply q c).run_queue ≡ some x
  unfolding apply
  apply-Spares q (enqueues now s priority available) v e h =
      enqueue-Spares q now s priority available e h
  apply-Spares q (claims now w) v e h = claim_next-Spares q now w v e h
  apply-Spares q (starts now s w) v e h = mark_running-Spares q now s w e h
  apply-Spares q (completes now s) v e h =
      unfold mark_completed in mark_terminal-Spares q now s _ _ e h
  apply-Spares q (fails now s error) v e h =
      unfold mark_failed in mark_terminal-Spares q now s _ _ e h
  apply-Spares q (cancels now s error) v e h =
      unfold mark_canceled in mark_terminal-Spares q now s _ _ e h
  apply-Spares q (cancels_pending now s) v e h = cancel_pending-Spares q now s e h
  apply-Spares q (registers now w registration) v e h = unfold register_worker in e
  apply-Spares q (beats now registered w b) v e h = heartbeat-Spares q now registered w b e h
  apply-Spares q (drains w) v e h = unfold drain_worker in e
  apply-Spares q (shuts_down w) v e h = unfold shutdown_worker in e
  apply-Spares q (detects now limit) v e h = unfold detect_stale_workers in e
  apply-Spares q (requeues clock limit) v e h = requeue_stale-Spares q clock limit e h
  apply-Spares q (frees now cutoff runs clock) v e h =
      requeue_rows-Spares q now cutoff runs clock e h
  apply-Spares q (reports clock) v e h = unfold record_scheduler_metrics in e
