-- ===== src/Worker/Once.antt =====
-- That a worker made with `once` ends, class Worker of sim/api/execution/worker.py.
use tirrad_exchange_system.Prelude.{
  ℕ, suc, ◌+◌, ◌≤◌, ◌≡◌, refl, String, Bool, true, false, Option, none, some, arith, inl, inr,
  Bool-cases,
}
use tirrad_exchange_system.Queue.Types.{QueueItem, SqliteRunQueue}
use tirrad_exchange_system.Worker.{
  Worker, Surroundings, Progress, Turn, again, stopped, crashed, called, or_once, succeeded,
  failed_with, counted_failure, obeyed, settled, worked, waited, claimed_or_waited, claimed_turn,
  turn, has_room, Ended, returned, raised, unfinished, loop, followed, registered, run_worker,
}
use tirrad_exchange_system.Worker.Bounds.{jobs, progress_of, turn-counts}

module _ (Store : Type 0) where
  abbrev goes_on : Turn Store → Bool
  goes_on (again p) = true
  goes_on _ = false

  module _ (e : Surroundings Store) (w : Worker) (once : w.once ≡ true) where
    or_once-ends : (p : Progress Store) → goes_on (or_once Store e w p) ≡ false
    unfolding or_once
    or_once-ends p = rw once refl

    counted_failure-ends :
        (p : Progress Store) (exception : Option String)
        → goes_on (counted_failure Store e w p exception) ≡ false
    unfolding counted_failure
    counted_failure-ends p none = or_once-ends _
    counted_failure-ends p (some exc) = refl

    settled-ends :
        (i : String) (r : Progress Store × Option String) → goes_on (settled Store e w i r) ≡ false
    unfolding settled succeeded failed_with
    settled-ends i (q, none) = or_once-ends _
    settled-ends i (q, some m) = counted_failure-ends _ _

    claimed_or_waited-ends :
        (found : Option QueueItem) (p : Progress Store)
        → goes_on (claimed_or_waited Store e w found p) ≡ false
    unfolding waited worked
    claimed_or_waited-ends none p = or_once-ends _
    claimed_or_waited-ends (some item) p = settled-ends _ _

    obeyed-ends :
        (shutdown drain : Bool) (p : Progress Store)
        → goes_on (obeyed Store e w shutdown drain p) ≡ false
    unfolding obeyed waited claimed_turn
    obeyed-ends true drain p = refl
    obeyed-ends false true p = or_once-ends _
    obeyed-ends false false p = claimed_or_waited-ends _ _

    turn-ends : (p : Progress Store) → goes_on (turn Store e w p) ≡ false
    unfolding turn
    turn-ends p = obeyed-ends _ _ _

    -- Ended, after one poll and one job at most.
    abbrev pub Finished : Ended Store e w → Type 0
    Finished (returned r p) = (r.polls ≤ 1) × (r.jobs_completed + r.jobs_failed ≤ 1)
    Finished (raised exc p) = (p.polls ≡ 1) × (p.jobs_completed + p.jobs_failed ≤ 1)
    Finished (unfinished p) = ⊥

    followed-Finished :
        (next : Progress Store → Ended Store e w) (t : Turn Store)
        → goes_on t ≡ false
        → jobs Store (progress_of Store t) ≤ 1
        → (progress_of Store t).polls ≡ 1
        → Finished (followed Store e w next t)
    followed-Finished next (again p) g j h = ground arith
    followed-Finished next (stopped p) g j h = (omega (arith, h), j)
    followed-Finished next (crashed exc p) g j h = (h, j)

    loop-Finished :
        (turns : ℕ) (p : Progress Store)
        → jobs Store p ≡ 0
        → p.polls ≡ 0
        → Finished (loop Store e w (suc turns) p)
    unfolding loop
    loop-Finished turns p j h = elim (Bool-cases (has_room Store e w p)) [
      | inl room ↦
          let (one, poll) = turn-counts Store e w p in
          rw (Finished, room)
            (followed-Finished (loop Store e w turns) (turn Store e w p) (turn-ends p)
              (omega (arith, one, j)) (omega (arith, poll, h)))
      | inr full ↦ rw (Finished, full) (omega (arith, h), omega (arith, j))
    ]

    -- A worker made with `once` ends, whatever the other processes, the executor and the tournament
    -- service do: one turn is enough, and it returns or raises after one poll and one job at most.
    pub run_worker-once :
        (turns : ℕ) (queue : SqliteRunQueue) (store : Store)
        → Finished (run_worker Store e w (suc turns) queue store)
    unfolding run_worker registered called
    run_worker-once turns queue store =
        loop-Finished turns (registered Store e w queue store) refl refl
