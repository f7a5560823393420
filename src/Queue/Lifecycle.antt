-- ===== src/Queue/Lifecycle.antt =====
-- The life of a run in the queue of sim/api/execution/queue.py, over every history of calls.
use tirrad_exchange_system.Prelude.{
  Bool, ◌+◌, ◌≤◌, ◌≡◌, refl, String, true, false, none, some, List, [], ◌∷◌, arith, find, find-In,
  is_some, Bool-cases, All, ◌⊎◌, coalesce, inl, inr,
}
use tirrad_exchange_system.Prelude.Tables.{
  Keyed, Keyed-update_where, Keyed-append, NewKey-any, find-update_where, find-append, touched,
  All-update_where, All-append,
}
use tirrad_exchange_system.Queue.Types.{
  running, completed, eq_status, QueueItem, SqliteRunQueue, is_run,
}
use tirrad_exchange_system.Queue.Runs.{
  get, new_item, enqueued_again, is_claimable, claimed, started, ended, canceled_early,
}
use tirrad_exchange_system.Queue.Scheduler.{requeued}
use tirrad_exchange_system.Queue.Calls.{Call, apply, run}
use tirrad_exchange_system.Queue.Edits.{
  Edit, Changes, enqueue_again, claim, start, relock, finish, cancel_early, requeue, same, inserts,
  updates, both,
}
use tirrad_exchange_system.Queue.Edits.Steps.{apply-Changes}
use tirrad_exchange_system.Queue.Edits.Attempts.{claims_of, claims_in, apply-attempts}

-- What a later state of a run keeps of an earlier one.
pub record Follows (x y : QueueItem) : Type 0 where
  pub same_run : y.run_id ≡ x.run_id
  pub same_creation : y.created_at ≡ x.created_at
  pub keeps_start : coalesce x.started_at y.started_at ≡ y.started_at
  pub attempts_grow : x.attempts ≤ y.attempts
  pub stays_completed : (eq_status x.status completed ≡ false) ⊎ (y.status ≡ completed)

Follows-refl : (x : QueueItem) → Follows x x
Follows-refl x = ground arith

Follows-trans : {x y z : QueueItem} → Follows x y → Follows y z → Follows x z
Follows-trans f g = ground arith

Edit-Follows : {k : Bool} (x y : QueueItem) → Edit k x y → Follows x y
unfolding enqueued_again is_claimable claimed started ended canceled_early requeued
Edit-Follows x y (enqueue_again p a e) = ground arith
Edit-Follows x y (claim now before w c h e) = ground arith
Edit-Follows x y (start now w h e) = ground arith
Edit-Follows x y (relock now w h e) = ground arith
Edit-Follows x y (finish now s e' t h e) = ground arith
Edit-Follows x y (cancel_early now h e) = ground arith
Edit-Follows x y (requeue now before h e) = ground arith

-- A row's consistency: only a running row holds a lock, and a running row has a start.
pub record IsRow (x : QueueItem) : Type 0 where
  pub unlocked : (eq_status x.status running ≡ true) ⊎ ((x.locked_by ≡ none) × (x.locked_at ≡ none))
  pub has_start : (eq_status x.status running ≡ false) ⊎ (is_some x.started_at ≡ true)

Edit-IsRow : {k : Bool} (x y : QueueItem) → Edit k x y → IsRow x → IsRow y
unfolding enqueued_again is_claimable claimed started ended canceled_early requeued
Edit-IsRow x y (enqueue_again p a e) r = ground arith
Edit-IsRow x y (claim now before w c h e) r = ground arith
Edit-IsRow x y (start now w h e) r = ground arith
Edit-IsRow x y (relock now w h e) r = ground arith
Edit-IsRow x y (finish now s e' t h e) r = ground arith
Edit-IsRow x y (cancel_early now h e) r = ground arith
Edit-IsRow x y (requeue now before h e) r = ground arith

-- The table: its primary key, and the consistency of its rows.
abbrev pub run_id_of : QueueItem → String
run_id_of x = x.run_id

Changes-Keyed :
    {k : Bool} {a b : List QueueItem} → Changes k a b → Keyed run_id_of a → Keyed run_id_of b
Changes-Keyed same h = h
Changes-Keyed {a} (inserts r p now t free) h =
    Keyed-append run_id_of a (new_item r p now t) (NewKey-any run_id_of r a free) h
Changes-Keyed {a} (updates p f keeps edits) h = Keyed-update_where run_id_of p f a keeps h
Changes-Keyed (both c d) h = Changes-Keyed d (Changes-Keyed c h)

Changes-IsRow : {k : Bool} {a b : List QueueItem} → Changes k a b → All IsRow a → All IsRow b
Changes-IsRow same h = h
Changes-IsRow {a} (inserts r p now t free) h =
    All-append IsRow a (new_item r p now t) h (ground arith)
Changes-IsRow {a} (updates p f keeps edits) h =
    All-update_where IsRow p f a (λ x m v e. Edit-IsRow x (f x) (edits x m e) v) h
Changes-IsRow (both c d) h = Changes-IsRow d (Changes-IsRow c h)

-- The row of a run, later.
abbrev Later : List QueueItem → String → QueueItem → Type 0
Later b r x = (y : QueueItem) × (find (is_run r) b ≡ some y) × Follows x y

Changes-Later :
    {k : Bool} {a b : List QueueItem} (r : String) (x : QueueItem)
    → Changes k a b
    → find (is_run r) a ≡ some x
    → Later b r x
Changes-Later r x same e = (x, e, Follows-refl x)
Changes-Later {a} r x (inserts s p now t free) e =
    (x, rw (find-append (is_run r) a (new_item s p now t), e) refl, Follows-refl x)
Changes-Later {a} r x (updates p f keeps edits) e = (
  touched p f x,
  rw (find-update_where (is_run r) p f a (λ y. rw (keeps y) refl), e) refl,
  follows,
)
  where
    follows : Follows x (touched p f x)
    follows = elim (Bool-cases (p x)) [
      | inl hit ↦ rw hit (Edit-Follows x (f x) (edits x (find-In (is_run r) a e).0 hit))
      | inr miss ↦ rw miss (Follows-refl x)
    ]
Changes-Later r x (both c d) e =
    let (y, e', f) = Changes-Later r x c e in
    let (z, e'', g) = Changes-Later r y d e' in (z, e'', Follows-trans f g)

-- The invariant of `run_queue`.
pub record IsQueue (q : SqliteRunQueue) : Type 0 where
  pub keyed : Keyed run_id_of q.run_queue
  pub rows : All IsRow q.run_queue

-- Every call keeps the run ids of `run_queue` distinct, and its rows consistent: a row that is not
-- running holds no lock, and a running row has a start.
pub apply-IsQueue : (q : SqliteRunQueue) (c : Call) → IsQueue q → IsQueue (apply q c)
apply-IsQueue q c v = record {
  keyed = Changes-Keyed (apply-Changes q c v.keyed) v.keyed;
  rows = Changes-IsRow (apply-Changes q c v.keyed) v.rows;
}

apply-Follows :
    (q : SqliteRunQueue) (c : Call) (r : String) (x : QueueItem)
    → IsQueue q
    → find (is_run r) q.run_queue ≡ some x
    → (y : QueueItem) × (find (is_run r) (apply q c).run_queue ≡ some y)
      × Follows x y
      × (y.attempts ≡ x.attempts + claims_of r q c)
apply-Follows q c r x v e =
    let (y, e', f) = Changes-Later r x (apply-Changes q c v.keyed) e in
    let (z, e'', n) = apply-attempts q c r x v.keyed e in
    let same : y ≡ z = ground arith in (y, e', f, rw same n)

-- After any history of calls on a table with distinct, consistent rows the row of a run that was in
-- it is still there, created when it was, with the first start that it ever had; its attempts are
-- those that it had and one more for each claim of the history that handed out the run; and a completed run is still
-- completed.
pub run-Follows :
    (cs : List Call) (q : SqliteRunQueue) (r : String) (x : QueueItem)
    → IsQueue q
    → get q r ≡ some x
    → (y : QueueItem) × (get (run q cs) r ≡ some y)
      × Follows x y
      × (y.attempts ≡ x.attempts + claims_in r q cs)
unfolding run get claims_in
run-Follows [] q r x v e = (x, e, Follows-refl x, omega arith)
run-Follows (c ∷ cs) q r x v e =
    let (y, e', f, n) = apply-Follows q c r x v e in
    let (z, e'', g, m) = run-Follows cs (apply q c) r y (apply-IsQueue q c v) e' in
    (z, e'', Follows-trans f g, omega (arith, n, m))

pub run-IsQueue : (cs : List Call) (q : SqliteRunQueue) → IsQueue q → IsQueue (run q cs)
unfolding run
run-IsQueue [] q v = v
run-IsQueue (c ∷ cs) q v = run-IsQueue cs (apply q c) (apply-IsQueue q c v)
