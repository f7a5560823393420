-- ===== src/Queue/Edits/Attempts.antt =====
-- The attempts of a run in the queue of sim/api/execution/queue.py: how they follow the claims.
use tirrad_exchange_system.Prelude.{
  ℕ, ◌+◌, ◌≡◌, refl, String, false, Option, none, some, List, [], ◌∷◌, inl, inr, arith, find,
  find-In, Bool-cases, Option-cases, ◌==◌, if◌then◌else◌, ◌∙◌, eq_iff,
}
use tirrad_exchange_system.Prelude.Tables.{Keyed, find-update_where, find-append, touched}
use tirrad_exchange_system.Queue.Types.{QueueItem, SqliteRunQueue, is_run}
use tirrad_exchange_system.Queue.Runs.{
  new_item, enqueued_again, claimed, started, ended, canceled_early, next_claimable, claim_next,
  claim_row,
}
use tirrad_exchange_system.Queue.Scheduler.{requeued}
use tirrad_exchange_system.Queue.Calls.{
  Call, enqueues, claims, starts, completes, fails, cancels, cancels_pending, registers, beats,
  drains, shuts_down, detects, requeues, frees, reports, apply,
}
use tirrad_exchange_system.Queue.Edits.{
  Edit, Changes, enqueue_again, claim, start, relock, finish, cancel_early, requeue, same, inserts,
  updates, both,
}
use tirrad_exchange_system.Queue.Edits.Steps.{apply-Changes}

-- 1 where a claim hands out the run, 0 otherwise.
abbrev pub hands_out : String → Option QueueItem → ℕ
hands_out r none = 0
hands_out r (some item) = if item.run_id == r then 1 else 0

abbrev pub claims_of : String → SqliteRunQueue → Call → ℕ
claims_of r q (claims now w) = hands_out r (claim_next q now w).1
claims_of r q _ = 0

-- The number of times that a run is handed out in a history.
unfoldable pub claims_in : String → SqliteRunQueue → List Call → ℕ
claims_in r q [] = 0
claims_in r q (c ∷ cs) = claims_of r q c + claims_in r (apply q c) cs

-- The row of a run, later, with its attempts.
abbrev Attempted : List QueueItem → String → ℕ → Type 0
Attempted b r n = (y : QueueItem) × (find (is_run r) b ≡ some y) × (y.attempts ≡ n)

Edit-attempts : (x y : QueueItem) → Edit false x y → y.attempts ≡ x.attempts
unfolding enqueued_again started ended canceled_early requeued
Edit-attempts x y (enqueue_again p a e) = ground arith
Edit-attempts x y (claim now before w c h e) = absurd (cc c)
Edit-attempts x y (start now w h e) = ground arith
Edit-attempts x y (relock now w h e) = ground arith
Edit-attempts x y (finish now s e' t h e) = ground arith
Edit-attempts x y (cancel_early now h e) = ground arith
Edit-attempts x y (requeue now before h e) = ground arith

Changes-attempts :
    {a b : List QueueItem} (r : String) (x : QueueItem)
    → Changes false a b
    → find (is_run r) a ≡ some x
    → Attempted b r x.attempts
Changes-attempts r x same e = (x, e, refl)
Changes-attempts {a} r x (inserts s p now t free) e =
    (x, rw (find-append (is_run r) a (new_item s p now t), e) refl, refl)
Changes-attempts {a} r x (updates p f keeps edits) e =
    (touched p f x, rw (find-update_where (is_run r) p f a (λ y. rw (keeps y) refl), e) refl, kept)
  where
    kept : (touched p f x).attempts ≡ x.attempts
    kept = elim (Bool-cases (p x)) [
      | inl hit ↦ rw hit (Edit-attempts x (f x) (edits x (find-In (is_run r) a e).0 hit))
      | inr miss ↦ rw miss refl
    ]
Changes-attempts r x (both c d) e =
    let (y, e', f) = Changes-attempts r x c e in
    let (z, e'', g) = Changes-attempts r y d e' in (z, e'', g ∙ f)

claim_next-attempts :
    (q : SqliteRunQueue) (now : ℕ) (w r : String) (x : QueueItem)
    → find (is_run r) q.run_queue ≡ some x
    → Attempted (claim_next q now w).0.run_queue r (x.attempts + hands_out r (claim_next q now w).1)
unfolding claim_next claim_row claimed
claim_next-attempts q now w r x e = elim (Option-cases (next_claimable q now)) [
  | inl n ↦ rw (claim_next, n) (x, e, omega arith)
  | inr (row, h) ↦
      rw (claim_next, h)
        (
          touched (is_run row.run_id) (claimed now w) x,
          rw
              (
                find-update_where (is_run r) (is_run row.run_id) (claimed now w) q.run_queue
                    (λ y. refl),
                e,
              )
              refl,
          counted row,
        )
]
  where
    counted :
        (row : QueueItem)
        → (touched (is_run row.run_id) (claimed now w) x).attempts
          ≡ x.attempts + (if row.run_id == r then 1 else 0)
    counted row =
        let named = (find-In (is_run r) q.run_queue e).1 in
        ground (arith, eq_iff x.run_id r, eq_iff row.run_id r, eq_iff x.run_id row.run_id)

uncounted : (b : List QueueItem) (r : String) (n : ℕ) → Attempted b r n → Attempted b r (n + 0)
uncounted b r n (y, e, f) = (y, e, omega (arith, f))

-- Each call counts one attempt to the run that it hands out, and none to another.
pub apply-attempts :
    (q : SqliteRunQueue) (c : Call) (r : String) (x : QueueItem)
    → Keyed (λ y. y.run_id) q.run_queue
    → find (is_run r) q.run_queue ≡ some x
    → (y : QueueItem) × (find (is_run r) (apply q c).run_queue ≡ some y)
      × (y.attempts ≡ x.attempts + claims_of r q c)
unfolding apply
apply-attempts q (enqueues now s priority available) r x v e =
    uncounted _ r x.attempts
      (Changes-attempts r x (apply-Changes q (enqueues now s priority available) v) e)
apply-attempts q (claims now w) r x v e = claim_next-attempts q now w r x e
apply-attempts q (starts now s w) r x v e =
    uncounted _ r x.attempts (Changes-attempts r x (apply-Changes q (starts now s w) v) e)
apply-attempts q (completes now s) r x v e =
    uncounted _ r x.attempts (Changes-attempts r x (apply-Changes q (completes now s) v) e)
apply-attempts q (fails now s m) r x v e =
    uncounted _ r x.attempts (Changes-attempts r x (apply-Changes q (fails now s m) v) e)
apply-attempts q (cancels now s m) r x v e =
    uncounted _ r x.attempts (Changes-attempts r x (apply-Changes q (cancels now s m) v) e)
apply-attempts q (cancels_pending now s) r x v e =
    uncounted _ r x.attempts (Changes-attempts r x (apply-Changes q (cancels_pending now s) v) e)
apply-attempts q (registers now w g) r x v e =
    uncounted _ r x.attempts (Changes-attempts r x (apply-Changes q (registers now w g) v) e)
apply-attempts q (beats now registered w b) r x v e =
    uncounted _ r x.attempts (Changes-attempts r x (apply-Changes q (beats now registered w b) v) e)
apply-attempts q (drains w) r x v e =
    uncounted _ r x.attempts (Changes-attempts r x (apply-Changes q (drains w) v) e)
apply-attempts q (shuts_down w) r x v e =
    uncounted _ r x.attempts (Changes-attempts r x (apply-Changes q (shuts_down w) v) e)
apply-attempts q (detects now t) r x v e =
    uncounted _ r x.attempts (Changes-attempts r x (apply-Changes q (detects now t) v) e)
apply-attempts q (requeues clock t) r x v e =
    uncounted _ r x.attempts (Changes-attempts r x (apply-Changes q (requeues clock t) v) e)
apply-attempts q (frees now cutoff runs clock) r x v e =
    uncounted _ r x.attempts
      (Changes-attempts r x (apply-Changes q (frees now cutoff runs clock) v) e)
apply-attempts q (reports clock) r x v e =
    uncounted _ r x.attempts (Changes-attempts r x (apply-Changes q (reports clock) v) e)
