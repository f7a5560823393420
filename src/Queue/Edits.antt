-- ===== src/Queue/Edits.antt =====
-- What the calls of sim/api/execution/queue.py may do to a row of `run_queue`: the state machine of
-- a run, and the table as a whole.
pub mod Steps
pub mod Attempts
use tirrad_exchange_system.Prelude.{
  ℕ, ◌-◌, ◌≡◌, String, Bool, true, false, Option, some, List, [], ◌∷◌, ◌++◌, update_where, any, In,
  select-In, select,
}
use tirrad_exchange_system.Prelude.Int.{ℤ}
use tirrad_exchange_system.Prelude.Sorting.{order_by, head_In, In-order_by}
use tirrad_exchange_system.Queue.Types.{
  QueueStatus, pending, running, completed, eq_status, QueueItem, SqliteRunQueue, is_run, seconds,
}
use tirrad_exchange_system.Queue.Runs.{
  enqueued_again, new_item, is_claimable, claimed, relocked, started, ended, canceled_early,
  is_stale, claim_order, next_claimable,
}
use tirrad_exchange_system.Queue.Scheduler.{requeued}

-- One row, before and after, with the condition under which the statement touches it. Only a claim is
-- an edit of a call that claims.
pub data Edit (k : Bool) (x y : QueueItem) : Type 0 where
  enqueue_again :
      (priority : ℤ) (available : ℕ) → y ≡ enqueued_again priority available x → Edit k x y
  claim :
      (now before : ℕ) (w : String)
      → k ≡ true
      → is_claimable now before x ≡ true
      → y ≡ claimed now w x
      → Edit k x y
  start :
      (now : ℕ) (w : Option String)
      → eq_status x.status completed ≡ false
      → y ≡ started now w x
      → Edit k x y
  relock :
      (now : ℕ) (w : String) → eq_status x.status running ≡ true → y ≡ relocked now w x → Edit k x y
  finish :
      (now : ℕ) (s : QueueStatus) (e : Option String)
      → eq_status s running ≡ false
      → eq_status x.status completed ≡ false
      → y ≡ ended now s e x
      → Edit k x y
  cancel_early :
      (now : ℕ) → eq_status x.status pending ≡ true → y ≡ canceled_early now x → Edit k x y
  requeue : (now before : ℕ) → is_stale before x ≡ true → y ≡ requeued now x → Edit k x y

pub data Changes (k : Bool) : List QueueItem → List QueueItem → Type 0 where
  same : {a : List QueueItem} → Changes k a a
  inserts :
      {a : List QueueItem} (r : String) (priority : ℤ) (now available : ℕ)
      → any (is_run r) a ≡ false
      → Changes k a (a ++ new_item r priority now available ∷ [])
  updates :
      {a : List QueueItem} (p : QueueItem → Bool) (f : QueueItem → QueueItem)
      → ((x : QueueItem) → (f x).run_id ≡ x.run_id)
      → ((x : QueueItem) → In x a → p x ≡ true → Edit k x (f x))
      → Changes k a (update_where p f a)
  both : {a b c : List QueueItem} → Changes k a b → Changes k b c → Changes k a c

-- The candidate is a claimable row of the table.
pub next_claimable-In :
    (q : SqliteRunQueue) (now : ℕ) {row : QueueItem}
    → next_claimable q now ≡ some row
    → In row q.run_queue × (is_claimable now (now - seconds q.stale_after_seconds) row ≡ true)
unfolding next_claimable
next_claimable-In q now {row} e =
    let p = is_claimable now (now - seconds q.stale_after_seconds) in
    select-In p row q.run_queue (
      In-order_by claim_order (select p q.run_queue) row
        (head_In (order_by claim_order (select p q.run_queue)) e))
