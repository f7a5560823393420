-- ===== src/Worker/Completion.antt =====
-- What a worker leaves of a run whose execution succeeded, class Worker of sim/api/execution/worker.py.
use tirrad_exchange_system.Prelude.{
  ℕ, ◌≡◌, refl, String, true, Option, none, some, arith, inl, inr, Bool-cases, find-In, subst, sym,
  ◌+◌, List, [], ◌∷◌,
}
use tirrad_exchange_system.Json.{text, end, field}
use tirrad_exchange_system.Prelude.Tables.{find-update_where, touched}
use tirrad_exchange_system.Queue.Types.{completed, QueueItem, SqliteRunQueue, is_run}
use tirrad_exchange_system.Queue.Runs.{
  get, mark_completed, mark_terminal, ended, is_open_run, claim_next,
}
use tirrad_exchange_system.Queue.Calls.{Call, completes, claims, apply, run}
use tirrad_exchange_system.Queue.Lifecycle.{IsQueue, apply-IsQueue, run-Follows, run-IsQueue}
use tirrad_exchange_system.Queue.Claims.Exclusive.{claim_next-held}
use tirrad_exchange_system.Worker.{
  Worker, Surroundings, Progress, arrived, called, beat, or_once, executed, succeeded, settled,
  taken, worked, aggregated, logged, claimed_turn,
}
use tirrad_exchange_system.Worker.Bounds.{progress_of}

-- The run is in the table, and completed.
abbrev pub IsComplete : SqliteRunQueue → String → Type 0
IsComplete q run_id = (y : QueueItem) × (get q run_id ≡ some y) × (y.status ≡ completed)

abbrev IsListed : SqliteRunQueue → String → Type 0
IsListed q run_id = (y : QueueItem) × (get q run_id ≡ some y)

abbrev Lists : SqliteRunQueue → String → Type 0
Lists q r = IsQueue q × IsListed q r

touched-completed :
    (now : ℕ) (r : String) (x : QueueItem)
    → is_run r x ≡ true
    → (touched (is_open_run r) (ended now completed none) x).status ≡ completed
unfolding ended
touched-completed now r x h = ground arith

mark_completed-IsComplete :
    (q : SqliteRunQueue) (now : ℕ) (r : String)
    → IsListed q r
    → IsComplete (apply q (completes now r)) r
unfolding apply mark_completed mark_terminal get ended
mark_completed-IsComplete q now r (x, e) = (
  touched (is_open_run r) (ended now completed none) x,
  rw
      (
        find-update_where (is_run r) (is_open_run r) (ended now completed none) q.run_queue
            (λ y. refl),
        e,
      )
      refl,
  touched-completed now r x (find-In (is_run r) q.run_queue e).1,
)

run-IsComplete :
    (cs : List Call) (q : SqliteRunQueue) (r : String)
    → IsQueue q
    → IsComplete q r
    → IsComplete (run q cs) r
run-IsComplete cs q r v (x, e, c) =
    let (y, e', f, n) = run-Follows cs q r x v e in (y, e', ground arith)

run-Lists : (cs : List Call) (q : SqliteRunQueue) (r : String) → Lists q r → Lists (run q cs) r
run-Lists cs q r (v, (x, e)) =
    let (y, e', f, n) = run-Follows cs q r x v e in (run-IsQueue cs q v, (y, e'))

apply-Lists : (c : Call) (q : SqliteRunQueue) (r : String) → Lists q r → Lists (apply q c) r
unfolding run
apply-Lists c q r h = run-Lists (c ∷ []) q r h

abbrev Done : SqliteRunQueue → String → Type 0
Done q r = IsQueue q × IsComplete q r

apply-Done : (c : Call) (q : SqliteRunQueue) (r : String) → Done q r → Done (apply q c) r
unfolding run
apply-Done c q r (v, h) = (apply-IsQueue q c v, run-IsComplete (c ∷ []) q r v h)

run-Done : (cs : List Call) (q : SqliteRunQueue) (r : String) → Done q r → Done (run q cs) r
run-Done cs q r (v, h) = (run-IsQueue cs q v, run-IsComplete cs q r v h)

module _ (Store : Type 0) (e : Surroundings Store) (w : Worker) where
  called-Lists :
      (c : Call) (t : ℕ) (p : Progress Store) (r : String)
      → Lists p.queue r
      → Lists (called Store e w c t p).queue r
  unfolding called arrived
  called-Lists c t p r h =
      apply-Lists c (run p.queue (e.others p.ticks)) r (run-Lists (e.others p.ticks) p.queue r h)

  called-Done :
      (c : Call) (t : ℕ) (p : Progress Store) (r : String)
      → Done p.queue r
      → Done (called Store e w c t p).queue r
  unfolding called arrived
  called-Done c t p r h =
      apply-Done c (run p.queue (e.others p.ticks)) r (run-Done (e.others p.ticks) p.queue r h)

  or_once-Done :
      (p : Progress Store) (r : String)
      → Done p.queue r
      → Done (progress_of Store (or_once Store e w p)).queue r
  unfolding or_once
  or_once-Done p r h = elim (Bool-cases w.once) [ inl o ↦ rw o h | inr o ↦ rw o h ]

  -- The call of mark_completed.
  completes-Done :
      (now t : ℕ) (p : Progress Store) (r : String)
      → Lists p.queue r
      → Done (called Store e w (completes now r) t p).queue r
  unfolding called arrived
  completes-Done now t p r h =
      let (v, x) = run-Lists (e.others p.ticks) p.queue r h in
      let q = run p.queue (e.others p.ticks) in
      (apply-IsQueue q (completes now r) v, mark_completed-IsComplete q now r x)

  succeeded-Done :
      (p : Progress Store) (r : String)
      → Lists p.queue r
      → Done (progress_of Store (succeeded Store e w r p)).queue r
  unfolding succeeded beat
  succeeded-Done p r h =
      let busy = field "phase" (text "completed") end in
      let p₁ = beat Store e w "busy" (some r) busy p in
      let h₁ = called-Lists _ 2 p r h in
      let p₂ = called Store e w (completes (e.clock p₁.ticks) r) 1 p₁ in
      let p₃ = record p₂ { jobs_completed = p₂.jobs_completed + 1 } in
      or_once-Done (beat Store e w "idle" none end p₃) r
        (called-Done _ 2 p₃ r (completes-Done (e.clock p₁.ticks) 1 p₁ r h₁))

  settled-Done :
      (r : String) (p : Progress Store × Option String)
      → p.1 ≡ none
      → Lists p.0.queue r
      → Done (progress_of Store (settled Store e w r p)).queue r
  unfolding settled
  settled-Done r (p, none) k h = succeeded-Done p r h
  settled-Done r (p, some m) k h = ground arith

  aggregated-queue :
      (r : String) (p : Progress Store) (x : Store × Option String)
      → (aggregated Store e w r p x).0.queue ≡ p.queue
  unfolding aggregated
  aggregated-queue r p (store, none) = refl
  aggregated-queue r p (store, some m) = refl

  worked-Done :
      (item : QueueItem) (p : Progress Store)
      → (executed Store e w item.run_id (taken Store e w item p)).1 ≡ none
      → Lists p.queue item.run_id
      → Done (progress_of Store (worked Store e w item p)).queue item.run_id
  unfolding worked taken executed beat logged
  worked-Done item p k h =
      let q = taken Store e w item p in
      let x = e.execute q.store item.run_id in
      settled-Done item.run_id (executed Store e w item.run_id q) k (
        subst (λ t. Lists t item.run_id) (sym (aggregated-queue item.run_id q x))
          (called-Lists _ 2 p item.run_id h))

  -- The worker's progress after it claimed a run.
  abbrev pub after_claim : Progress Store → Progress Store
  after_claim p = called Store e w (claims (e.clock p.ticks) w.worker_id) 1 p

  claimed-Lists :
      (p : Progress Store) (item : QueueItem)
      → IsQueue p.queue
      → (claim_next (arrived Store e w p) (e.clock p.ticks) w.worker_id).1 ≡ some item
      → Lists (after_claim p).queue item.run_id
  unfolding called arrived apply run
  claimed-Lists p item v c =
      let q = arrived Store e w p in
      let ready = run-IsQueue (e.others p.ticks) p.queue v in
      let now = e.clock p.ticks in
      (
        apply-IsQueue q (claims now w.worker_id) ready,
        (item, (claim_next-held q now w.worker_id item [] ready c tt).0),
      )

  -- A turn that claims a run, whose execution raises nothing, leaves the run completed, whatever the
  -- other processes do before the turn, in the course of it and, in any number of calls, after it.
  pub claimed_turn-IsComplete :
      (p : Progress Store) (item : QueueItem) (later : List Call)
      → IsQueue p.queue
      → (claim_next (arrived Store e w p) (e.clock p.ticks) w.worker_id).1 ≡ some item
      → (executed Store e w item.run_id (taken Store e w item (after_claim p))).1 ≡ none
      → IsComplete (run (progress_of Store (claimed_turn Store e w p)).queue later) item.run_id
  unfolding claimed_turn
  claimed_turn-IsComplete p item later v c k =
      let h = claimed-Lists p item v c in
      rw c (run-Done later _ item.run_id (worked-Done item (after_claim p) k h)).1
