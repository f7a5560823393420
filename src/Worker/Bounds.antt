-- ===== src/Worker/Bounds.antt =====
-- That the loop of sim/api/execution/worker.py ends, and how many jobs it does.
use tirrad_exchange_system.Prelude.{
  ℕ, zero, suc, ◌+◌, ◌≤◌, ◌<◌, ◌≡◌, refl, String, Bool, true, false, Option, none, some, arith, inl,
  inr, Bool-cases,
}
use tirrad_exchange_system.Prelude.Int.{pos}
use tirrad_exchange_system.Json.{end}
use tirrad_exchange_system.Queue.Types.{QueueItem, SqliteRunQueue}
use tirrad_exchange_system.Worker.{
  Worker, Surroundings, Progress, Turn, again, stopped, crashed, called, beat, logged, or_once,
  executed, succeeded, failed_with, counted_failure, aggregated, taken, obeyed, polled, settled,
  worked, waited, claimed_or_waited, claimed_turn, turn, has_room, Ended, returned, raised,
  unfinished, loop, followed, registered, run_worker,
}

module _ (Store : Type 0) where
  abbrev pub jobs : Progress Store → ℕ
  jobs p = p.jobs_completed + p.jobs_failed

  -- At most one job more, and as many polls.
  abbrev OneJob : Progress Store → Progress Store → Type 0
  OneJob p p' = (jobs p' ≤ jobs p + 1) × (p'.polls ≡ p.polls)

  abbrev pub progress_of : Turn Store → Progress Store
  progress_of (again p) = p
  progress_of (stopped p) = p
  progress_of (crashed exc p) = p

  module _ (e : Surroundings Store) (w : Worker) where
    or_once-OneJob :
        (p p' : Progress Store) → OneJob p p' → OneJob p (progress_of (or_once Store e w p'))
    unfolding or_once
    or_once-OneJob p p' h = elim (Bool-cases w.once) [ inl o ↦ rw o h | inr o ↦ rw o h ]

    waited-OneJob : (p : Progress Store) → OneJob p (progress_of (waited Store e w p))
    unfolding waited beat called
    waited-OneJob p = or_once-OneJob p (beat Store e w "idle" none end p) (omega arith)

    succeeded-OneJob :
        (i : String) (p : Progress Store) → OneJob p (progress_of (succeeded Store e w i p))
    unfolding succeeded beat called
    succeeded-OneJob i p = or_once-OneJob p _ (omega arith, refl)

    counted_failure-OneJob :
        (p : Progress Store) (exception : Option String)
        → OneJob p (progress_of (counted_failure Store e w p exception))
    unfolding counted_failure beat called
    counted_failure-OneJob p none = or_once-OneJob p _ (omega arith, refl)
    counted_failure-OneJob p (some exc) = (omega arith, refl)

    failed_with-OneJob :
        (i message : String) (p : Progress Store)
        → OneJob p (progress_of (failed_with Store e w i message p))
    unfolding failed_with beat called logged
    failed_with-OneJob i message p = counted_failure-OneJob _ _

    settled-OneJob :
        (i : String) (p : Progress Store) (r : Progress Store × Option String)
        → jobs r.0 ≡ jobs p
        → r.0.polls ≡ p.polls
        → OneJob p (progress_of (settled Store e w i r))
    unfolding settled
    settled-OneJob i p (q, none) h k =
        let (a, b) = succeeded-OneJob i q in (omega (arith, a, h), omega (arith, b, k))
    settled-OneJob i p (q, some m) h k =
        let (a, b) = failed_with-OneJob i m q in (omega (arith, a, h), omega (arith, b, k))

    aggregated-jobs :
        (i : String) (p : Progress Store) (r : Store × Option String)
        → (jobs (aggregated Store e w i p r).0 ≡ jobs p)
          × ((aggregated Store e w i p r).0.polls ≡ p.polls)
    unfolding aggregated
    aggregated-jobs i p (store, none) = (refl, refl)
    aggregated-jobs i p (store, some m) = (refl, refl)

    worked-OneJob :
        (item : QueueItem) (p : Progress Store) → OneJob p (progress_of (worked Store e w item p))
    unfolding worked executed taken beat logged called
    worked-OneJob item p =
        let q = taken Store e w item p in
        let r = e.execute q.store item.run_id in
        let (a, b) = aggregated-jobs item.run_id q r in
        settled-OneJob item.run_id p (aggregated Store e w item.run_id q r) a b

    claimed_or_waited-OneJob :
        (found : Option QueueItem) (p : Progress Store)
        → OneJob p (progress_of (claimed_or_waited Store e w found p))
    claimed_or_waited-OneJob none p = waited-OneJob p
    claimed_or_waited-OneJob (some item) p = worked-OneJob item p

    claimed_turn-OneJob : (p : Progress Store) → OneJob p (progress_of (claimed_turn Store e w p))
    unfolding claimed_turn called
    claimed_turn-OneJob p = claimed_or_waited-OneJob _ _

    obeyed-OneJob :
        (shutdown drain : Bool) (p : Progress Store)
        → OneJob p (progress_of (obeyed Store e w shutdown drain p))
    unfolding obeyed beat called
    obeyed-OneJob true drain p = (omega arith, refl)
    obeyed-OneJob false true p = waited-OneJob p
    obeyed-OneJob false false p = claimed_turn-OneJob p

    -- A turn of the loop makes one poll and does one job at most.
    pub turn-counts :
        (p : Progress Store)
        → (jobs (progress_of (turn Store e w p)) ≤ jobs p + 1)
          × ((progress_of (turn Store e w p)).polls ≡ p.polls + 1)
    unfolding turn polled
    turn-counts p = obeyed-OneJob _ _ (polled Store e w p)

    -- At most `k` jobs, and no more than polls.
    abbrev pub Bounded : ℕ → Ended Store e w → Type 0
    Bounded k (returned r p) =
        (r.jobs_completed + r.jobs_failed ≤ k) × (r.jobs_completed + r.jobs_failed ≤ r.polls)
    Bounded k (raised exc p) = (jobs p ≤ k) × (jobs p ≤ p.polls)
    Bounded k (unfinished p) = (jobs p ≤ k) × (jobs p ≤ p.polls)

    has_room-lt :
        (k : ℕ) (p : Progress Store)
        → w.max_jobs ≡ some (pos k)
        → has_room Store e w p ≡ true
        → jobs p < k
    unfolding has_room
    has_room-lt k p m h = let t = rw m at h in ground arith

    followed-Bounded :
        (k : ℕ) (next : Progress Store → Ended Store e w) (t : Turn Store)
        → ((p : Progress Store) → jobs p ≤ k → jobs p ≤ p.polls → Bounded k (next p))
        → jobs (progress_of t) ≤ k
        → jobs (progress_of t) ≤ (progress_of t).polls
        → Bounded k (followed Store e w next t)
    followed-Bounded k next (again p) ih h g = ih p h g
    followed-Bounded k next (stopped p) ih h g = (h, g)
    followed-Bounded k next (crashed exc p) ih h g = (h, g)

    loop-Bounded :
        (k turns : ℕ) (p : Progress Store)
        → w.max_jobs ≡ some (pos k)
        → jobs p ≤ k
        → jobs p ≤ p.polls
        → Bounded k (loop Store e w turns p)
    unfolding loop
    loop-Bounded k zero p m h g = elim (Bool-cases (has_room Store e w p)) [
      | inl room ↦ rw (Bounded, room) (h, g)
      | inr full ↦ rw (Bounded, full) (h, g)
    ]
    loop-Bounded k (suc turns) p m h g = elim (Bool-cases (has_room Store e w p)) [
      | inl room ↦
          let (one, poll) = turn-counts p in
          let less = has_room-lt k p m room in
          rw (Bounded, room)
            (followed-Bounded k (loop Store e w turns) (turn Store e w p)
              (λ q a b. loop-Bounded k turns q m a b) (omega (arith, one, less))
              (omega (arith, one, poll, g)))
      | inr full ↦ rw (Bounded, full) (h, g)
    ]

    -- With a limit of jobs the worker completes and fails no more of them than the limit, and no more than
    -- it polled, whatever the other processes, the executor and the tournament service do, and however the
    -- loop ends or as far as it gets.
    pub run_worker-Bounded :
        (k turns : ℕ) (queue : SqliteRunQueue) (store : Store)
        → w.max_jobs ≡ some (pos k)
        → Bounded k (run_worker Store e w turns queue store)
    unfolding run_worker registered called
    run_worker-Bounded k turns queue store m =
        loop-Bounded k turns (registered Store e w queue store) m (omega arith) (omega arith)
