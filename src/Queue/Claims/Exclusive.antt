-- ===== src/Queue/Claims/Exclusive.antt =====
-- A claimed run is its worker's: no call about other runs changes its row within the time limit.
use tirrad_exchange_system.Prelude.{
  ℕ, ◌+◌, ◌≤◌, ◌≡◌, refl, String, false, some, List, [], ◌∷◌, find, ◌==◌, eq_refl,
}
use tirrad_exchange_system.Prelude.Tables.{find-update_where, find-Keyed}
use tirrad_exchange_system.Queue.Types.{QueueItem, SqliteRunQueue, is_run, seconds}
use tirrad_exchange_system.Queue.Runs.{get, next_claimable, claimed, claim_row, claim_next}
use tirrad_exchange_system.Queue.Calls.{Call, claims, apply, run}
use tirrad_exchange_system.Queue.Edits.{next_claimable-In}
use tirrad_exchange_system.Queue.Lifecycle.{IsQueue, run_id_of, apply-IsQueue}
use tirrad_exchange_system.Queue.Claims.{claim_next-some}
use tirrad_exchange_system.Queue.Claims.Spares.{Spares, IsLocked, candidate-other, apply-Spares}

-- Each call of a history spares the run.
abbrev pub SparesAll : String → ℕ → SqliteRunQueue → List Call → Type 0
SparesAll r t q [] = Unit
SparesAll r t q (c ∷ cs) = Spares r t q c × SparesAll r t (apply q c) cs

run-Spares :
    (r : String) (t : ℕ) (x : QueueItem) (l : IsLocked r t x) (cs : List Call) (q : SqliteRunQueue)
    → IsQueue q
    → find (is_run r) q.run_queue ≡ some x
    → SparesAll r t q cs
    → IsQueue (run q cs) × (find (is_run r) (run q cs).run_queue ≡ some x)
unfolding run
run-Spares r t x l [] q v e h = (v, e)
run-Spares r t x l (c ∷ cs) q v e h =
    run-Spares r t x l cs (apply q c) (apply-IsQueue q c v) (apply-Spares r t x l q c v e h.0) h.1

found_claimed :
    (q : SqliteRunQueue) (now : ℕ) (w : String) (row : QueueItem)
    → IsQueue q
    → next_claimable q now ≡ some row
    → find (is_run row.run_id) (claim_row q now w row).run_queue ≡ some (claimed now w row)
unfolding claim_row claimed
found_claimed q now w row v e =
    let found = find-Keyed run_id_of row q.run_queue v.keyed (next_claimable-In q now e).0 in
    rw
      (
        find-update_where (is_run row.run_id) (is_run row.run_id) (claimed now w) q.run_queue
            (λ y. refl),
        found,
      )
      (rw (eq_refl row.run_id) refl)

IsLocked-claimed :
    (now : ℕ) (w : String) (row : QueueItem) → IsLocked row.run_id now (claimed now w row)
unfolding claimed
IsLocked-claimed now w row = record { runs = refl; since = refl; is_its = refl }

claimed_item :
    (q : SqliteRunQueue) (now : ℕ) (w : String) (item : QueueItem)
    → IsQueue q
    → (claim_next q now w).1 ≡ some item
    → (find (is_run item.run_id) (claim_next q now w).0.run_queue ≡ some item)
      × IsLocked item.run_id now item
      × (item.locked_by ≡ some w)
claimed_item q now w item v e =
    let (row, c, same, after) = claim_next-some q now w item e in
    rw (same, after)
      (unfold claimed in (found_claimed q now w row v c, IsLocked-claimed now w row, refl))

-- The state after a claim and a history that spares the claimed run.
held :
    (q : SqliteRunQueue) (now : ℕ) (w : String) (item : QueueItem) (cs : List Call)
    → IsQueue q
    → (claim_next q now w).1 ≡ some item
    → SparesAll item.run_id now (claim_next q now w).0 cs
    → IsQueue (run (claim_next q now w).0 cs)
      × (find (is_run item.run_id) (run (claim_next q now w).0 cs).run_queue ≡ some item)
      × IsLocked item.run_id now item
      × (item.locked_by ≡ some w)
held q now w item cs v e h =
    let (found, locked, mine) = claimed_item q now w item v e in
    let (v', found') =
      run-Spares item.run_id now item locked cs (claim_next q now w).0
        (unfold apply in apply-IsQueue q (claims now w) v) found h in
    (v', found', locked, mine)

-- A claim at `now` hands out a run that stays the worker's, its row as the claim returned it, through
-- every history of calls that are about other runs and look for stale locks within the time limit
-- after `now`.
pub claim_next-held :
    (q : SqliteRunQueue) (now : ℕ) (w : String) (item : QueueItem) (cs : List Call)
    → IsQueue q
    → (claim_next q now w).1 ≡ some item
    → SparesAll item.run_id now (claim_next q now w).0 cs
    → (get (run (claim_next q now w).0 cs) item.run_id ≡ some item) × (item.locked_by ≡ some w)
unfolding get
claim_next-held q now w item cs v e h =
    let (_, found, _, mine) = held q now w item cs v e h in (found, mine)

-- After a claim at `now`, and any history of calls that are about other runs and look for stale locks
-- within the time limit after `now`, a claim by anybody within the time limit hands out another run.
pub claim_next-exclusive :
    (q : SqliteRunQueue) (now : ℕ) (w : String) (item : QueueItem) (cs : List Call) (later : ℕ)
    (w' : String) (next : QueueItem)
    → IsQueue q
    → (claim_next q now w).1 ≡ some item
    → SparesAll item.run_id now (claim_next q now w).0 cs
    → later ≤ now + seconds (run (claim_next q now w).0 cs).stale_after_seconds
    → (claim_next (run (claim_next q now w).0 cs) later w').1 ≡ some next
    → (item.run_id == next.run_id) ≡ false
claim_next-exclusive q now w item cs later w' next v e h t n =
    let q' = run (claim_next q now w).0 cs in
    let (v', found, locked, _) = held q now w item cs v e h in
    let (row, c, same, _) = claim_next-some q' later w' next n in
    rw same
      (unfold claimed in candidate-other item.run_id now item locked q' later row v' found t c)
