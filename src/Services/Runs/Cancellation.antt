-- ===== src/Services/Runs/Cancellation.antt =====
-- What cancel_run of sim/api/services/run_service.py does, before a run and during its execution.
use tirrad_exchange_system.Prelude.{
  ℕ, String, false, none, some, List, [], ◌∷◌, ◌++◌, ◌≡◌, refl, ap, ◌⊎◌, inl, inr, ◌∙◌, coalesce,
}
use tirrad_exchange_system.Prelude.Results.{ok, err}
use tirrad_exchange_system.Prelude.Tables.{map_found}
use tirrad_exchange_system.Json.{Value, text, Fields, end, field}
use tirrad_exchange_system.Storage.Records.{
  RunType, RunStatus, pending, running, completed, failed, canceled, eq_status, RunRecord,
}
use tirrad_exchange_system.Storage.InMemory.{get_run, update_run, updated, append_log}
use tirrad_exchange_system.Services.Stream.{RunOutput, RunService}
use tirrad_exchange_system.Services.Runs.{
  completed_not_cancelable, run_is_canceled, Outside, execute_pending_run, finished, start_run,
  execute_record, starting, cancel_run, cancel_found, cancel_open, cancel_log, canceling,
  if_pending, with_store, status_name,
}
use tirrad_exchange_system.Services.Runs.Stored.{
  Logged, Logged-publish, store-close_stream, get_run-update_run, found-update_run,
  store-if_pending, get_run-append_log,
}
use tirrad_exchange_system.Services.Runs.Outcomes.{execute_record-finished}

RunStatus-cases :
    (status : RunStatus)
    → (status ≡ pending)
      ⊎ (status ≡ running)
      ⊎ (status ≡ completed)
      ⊎ (status ≡ failed)
      ⊎ (status ≡ canceled)
RunStatus-cases pending = inl refl
RunStatus-cases running = inr (inl refl)
RunStatus-cases completed = inr (inr (inl refl))
RunStatus-cases failed = inr (inr (inr (inl refl)))
RunStatus-cases canceled = inr (inr (inr (inr refl)))

stored-cancel_open :
    (isoformat : ℕ → String) (s : RunService) (now : ℕ) (i : String) (r : RunRecord)
    → get_run s.store i ≡ some r
    → ((cancel_open isoformat s now i r).1 ≡ ok (updated (canceling now r.status) r))
      × Logged
          (cancel_open isoformat s now i r).0.store
          i
          (record (updated (canceling now r.status) r) {
            logs = r.logs ++ cancel_log isoformat now r.status ∷ [];
          })
unfolding cancel_open updated
stored-cancel_open isoformat s now i r h =
    let u = canceling now r.status in
    let log = cancel_log isoformat now r.status in
    let kept = ap (map_found (updated u)) h in
    let store = (append_log (update_run s.store i u).0 i log).0 in
    let logged =
      get_run-append_log (update_run s.store i u).0 i log
      ∙ ap (map_found (λ d. record d { logs = d.logs ++ log ∷ [] }))
          (get_run-update_run s.store i u ∙ kept) in
    let (more, e) =
      Logged-publish (with_store s store) i "status" "run_canceled"
        (field "previous_status" (text (status_name r.status)) end) none
        (record (updated u r) { logs = r.logs ++ log ∷ [] }) logged in
    let found = found-update_run s.store i u ∙ kept in
    (
      rw (cancel_open, found) refl,
      (
        more,
        rw (cancel_open, found)
            (ap (λ c. get_run c i) (store-if_pending _ _ _ r.status (store-close_stream _ i) refl)
              ∙ e),
      ),
    )

-- The run was neither completed nor canceled; it is canceled now, and its logs are those that it had,
-- the log of the cancellation, and what the stream service wrote after it.
abbrev pub Canceled : (ℕ → String) → RunService → ℕ → String → RunRecord → Type 0
Canceled isoformat s now i r =
    (eq_status r.status completed ≡ false)
    × (eq_status r.status canceled ≡ false)
    × (d : RunRecord) × (get_run (cancel_run isoformat s now i).0.store i ≡ some d)
    × (d.status ≡ canceled)
    × (d.error ≡ some "canceled")
    × ((more : List Fields) × (d.logs ≡ (r.logs ++ cancel_log isoformat now r.status ∷ []) ++ more))
    × (d.completed_at ≡ if_pending r.status (some now) r.completed_at)

completed_at-canceling :
    (now : ℕ) (r : RunRecord)
    → (updated (canceling now r.status) r).completed_at
      ≡ if_pending r.status (some now) r.completed_at
unfolding updated
completed_at-canceling now r = by_status r.status
  where
    by_status :
        (status : RunStatus)
        → coalesce (if_pending status (some now) none) r.completed_at
          ≡ if_pending status (some now) r.completed_at
    by_status pending = refl
    by_status running = refl
    by_status completed = refl
    by_status failed = refl
    by_status canceled = refl

cancel_open-Canceled :
    (isoformat : ℕ → String) (s : RunService) (now : ℕ) (i : String) (r : RunRecord)
    → get_run s.store i ≡ some r
    → eq_status r.status completed ≡ false
    → eq_status r.status canceled ≡ false
    → cancel_run isoformat s now i ≡ cancel_open isoformat s now i r
    → Canceled isoformat s now i r
unfolding updated
cancel_open-Canceled isoformat s now i r h c k e =
    let (given, (more, stored)) = stored-cancel_open isoformat s now i r h in
    (
      c,
      k,
      _,
      ap (λ p. get_run p.0.store i) e ∙ stored,
      refl,
      refl,
      (more, refl),
      completed_at-canceling now r,
    )

-- For a run of the store `cancel_run` refuses a completed one and changes nothing, gives a canceled one
-- as it is and changes nothing, and cancels any other: the run has the status, the error "canceled"
-- and the log of the cancellation after its own, which the logs of the stream service may follow, and
-- its end is set only if it was pending, since a running one has still to end.
pub cancel_run-Canceled :
    (isoformat : ℕ → String) (s : RunService) (now : ℕ) (i : String) (r : RunRecord)
    → get_run s.store i ≡ some r
    → ((r.status ≡ completed)
        × (cancel_run isoformat s now i ≡ (s, err (completed_not_cancelable i))))
      ⊎ ((r.status ≡ canceled) × (cancel_run isoformat s now i ≡ (s, ok r)))
      ⊎ Canceled isoformat s now i r
unfolding cancel_found
cancel_run-Canceled isoformat s now i r h = elim (RunStatus-cases r.status) [
  | inl e ↦ inr (
      inr
        (cancel_open-Canceled isoformat s now i r h (rw e refl) (rw e refl) (by_status pending e)))
  | inr (inl e) ↦ inr (
      inr
        (cancel_open-Canceled isoformat s now i r h (rw e refl) (rw e refl) (by_status running e)))
  | inr (inr (inl e)) ↦ inl (e, by_status completed e)
  | inr (inr (inr (inl e))) ↦ inr (
      inr (cancel_open-Canceled isoformat s now i r h (rw e refl) (rw e refl) (by_status failed e)))
  | inr (inr (inr (inr e))) ↦ inr (inl (e, by_status canceled e))
]
  where
    by_status :
        (status : RunStatus)
        → r.status ≡ status
        → cancel_run isoformat s now i ≡ cancel_found isoformat s now i r status
    by_status status e =
        unfold cancel_run in rw (cancel_run, h) (ap (cancel_found isoformat s now i r) e)

get_run-start_run :
    (s : RunService) (now : ℕ) (i : String) (t : RunType) (config : Fields) (r : RunRecord)
    → get_run s.store i ≡ some r
    → Logged (start_run s now i t config).store i (updated (starting now) r)
unfolding start_run
get_run-start_run s now i t config r h =
    Logged-publish (with_store s (update_run s.store i (starting now)).0) i "status" "run_started" _
      none (updated (starting now) r)
      (get_run-update_run s.store i (starting now) ∙ ap (map_found (updated (starting now))) h)

cancels_open :
    (isoformat : ℕ → String) (s : RunService) (now : ℕ) (i : String) (r : RunRecord)
    → get_run s.store i ≡ some r
    → (r.status ≡ pending) ⊎ (r.status ≡ running)
    → Canceled isoformat s now i r
cancels_open isoformat s now i r h e = elim (cancel_run-Canceled isoformat s now i r h) [
  | inl c ↦ absurd (other e (inl c.0))
  | inr (inl c) ↦ absurd (other e (inr c.0))
  | inr (inr c) ↦ c
]
  where
    other :
        (r.status ≡ pending) ⊎ (r.status ≡ running)
        → (r.status ≡ completed) ⊎ (r.status ≡ canceled)
        → ⊥
    other (inl a) (inl b) = cc
    other (inl a) (inr b) = cc
    other (inr a) (inl b) = cc
    other (inr a) (inr b) = cc

-- The cancellation of a run of the store while it is being executed is lost: when its executor returns
-- a result, the run is completed, and still has the error "canceled".
pub execute_record-cancel_run :
    (str_of : Value → String) (isoformat : ℕ → String) (s : RunService) (now between later : ℕ)
    (i : String) (t : RunType) (config : Fields) (result : RunOutput) (r : RunRecord)
    → get_run s.store i ≡ some r
    → (d : RunRecord) × (get_run
          (execute_record str_of s now later i t config
            (λ y. ((cancel_run isoformat y between i).0, finished result))).0.store
          i
        ≡ some d)
      × (d.status ≡ completed)
      × (d.error ≡ some "canceled")
unfolding updated
execute_record-cancel_run str_of isoformat s now between later i t config result r h =
    let y = start_run s now i t config in
    let (more, started) = get_run-start_run s now i t config r h in
    let (_, _, c, at, _, error, _, _) = cancels_open isoformat y between i _ started (inr refl) in
    let (d, _, _, _, stored, status, _, _, _, _, _, same, _) =
      execute_record-finished str_of s (cancel_run isoformat y between i).0 now later i t config
        (λ z. ((cancel_run isoformat z between i).0, finished result)) result c refl at in
    (_, stored, status, same ∙ error)

-- A pending run of the store that was canceled is not executed later: `execute_pending_run` refuses it,
-- and leaves the store and the stream as `cancel_run` left them.
pub execute_pending_run-cancel_run :
    (o : Outside) (s : RunService) (now later end_time : ℕ) (i : String) (r : RunRecord)
    → get_run s.store i ≡ some r
    → r.status ≡ pending
    → execute_pending_run o (cancel_run o.isoformat s now i).0 later end_time i
      ≡ ((cancel_run o.isoformat s now i).0, err (run_is_canceled i))
unfolding execute_pending_run
execute_pending_run-cancel_run o s now later end_time i r h e =
    let (_, _, d, at, status, _, _, _) = cancels_open o.isoformat s now i r h (inl e) in
    rw (execute_pending_run, at, status) refl
