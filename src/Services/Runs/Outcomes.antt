-- ===== src/Services/Runs/Outcomes.antt =====
-- How the execution of a run by sim/api/services/run_service.py ends.
use tirrad_exchange_system.Prelude.{
  ℕ, String, Bool, true, false, none, some, List, ◌++◌, ◌≡◌, refl, ap, ◌∙◌,
}
use tirrad_exchange_system.Prelude.Results.{ok, err}
use tirrad_exchange_system.Prelude.Tables.{map_found}
use tirrad_exchange_system.Json.{Value, Fields}
use tirrad_exchange_system.Storage.Records.{RunType, completed, failed, RunRecord}
use tirrad_exchange_system.Storage.InMemory.{
  get_run, update_run, updated, store_result, with_result,
}
use tirrad_exchange_system.Services.Stream.{
  RunOutput, RunService, publish_result_streams, completion_payload,
}
use tirrad_exchange_system.Services.Runs.{
  ServiceError, invalid_request, run_execution, Outcome, finished, refused, raised, Executor,
  start_run, fail_run, complete_run, settle, execute_record, ending, result_of, with_store,
}
use tirrad_exchange_system.Services.Runs.Stored.{
  Logged, Logged-publish, Logged-publish_result_streams, store-close_stream, get_run-update_run,
  found-update_run, get_run-store_result,
}

abbrev pub is_failure : Outcome → Bool
is_failure (finished x) = false
is_failure _ = true

-- The error that is stored with the run, and the one that is raised.
abbrev pub stored_error : Outcome → String
stored_error (finished x) = ""
stored_error (refused m) = "invalid request"
stored_error (raised m) = m

abbrev pub raised_error : Outcome → ServiceError
raised_error (finished x) = run_execution ""
raised_error (refused m) = invalid_request m
raised_error (raised m) = run_execution m

get_run-fail_run :
    (s : RunService) (later : ℕ) (i error message : String) (r : RunRecord)
    → get_run s.store i ≡ some r
    → Logged
        (fail_run s later i error message).store
        i
        (updated (ending failed later (some error)) r)
unfolding fail_run
get_run-fail_run s later i error message r h =
    let u = ending failed later (some error) in
    let (more, e) =
      Logged-publish (with_store s (update_run s.store i u).0) i "error" "run_failed" _ none
        (updated u r) (get_run-update_run s.store i u ∙ ap (map_found (updated u)) h) in
    (more, ap (λ store. get_run store i) (store-close_stream _ i) ∙ e)

-- A run whose executor raises, and that is still in the store then, ends as failed, with the error text
-- of the exception, which is raised again: InvalidRequestError as it is, with a fixed stored text, and
-- any other as RunExecutionError. The report and the events that the run had stay.
pub execute_record-failed :
    (str_of : Value → String) (s x : RunService) (now later : ℕ) (i : String) (t : RunType)
    (config : Fields) (executor : Executor) (o : Outcome) (r : RunRecord)
    → executor (start_run s now i t config) ≡ (x, o)
    → is_failure o ≡ true
    → get_run x.store i ≡ some r
    → ((execute_record str_of s now later i t config executor).1 ≡ err (raised_error o))
      × (d : RunRecord) × (get_run (execute_record str_of s now later i t config executor).0.store i
          ≡ some d)
      × (d.status ≡ failed)
      × (d.error ≡ some (stored_error o))
      × (d.completed_at ≡ some later)
      × (d.report ≡ r.report)
      × (d.events ≡ r.events)
unfolding execute_record settle updated
execute_record-failed str_of s x now later i t config executor (finished y) r e f h = cc
execute_record-failed str_of s x now later i t config executor (refused m) r e f h =
    let (more, at) = get_run-fail_run x later i "invalid request" m r h in
    rw e (refl, _, at, refl, refl, refl, refl, refl)
execute_record-failed str_of s x now later i t config executor (raised m) r e f h =
    let (more, at) = get_run-fail_run x later i m m r h in
    rw e (refl, _, at, refl, refl, refl, refl, refl)

done : ℕ → RunOutput → RunRecord → RunRecord
done later x r = updated (ending completed later none) (with_result (result_of x) r)

-- The record with the messages of its result in its log.
abbrev with_logs : List Fields → RunRecord → RunRecord
with_logs more r = record r { logs = r.logs ++ more }

stored_then :
    (str_of : Value → String) (s : RunService) (i : String) (config : Fields) (x : RunOutput)
    (r : RunRecord)
    → get_run s.store i ≡ some r
    → (earlier : List Fields) × (get_run
          (store_result (publish_result_streams str_of s i config x).store i (result_of x)).0
          i
        ≡ some (with_result (result_of x) (with_logs earlier r)))
stored_then str_of s i config x r h =
    let (earlier, e) = Logged-publish_result_streams str_of s i config x r h in
    (
      earlier,
      get_run-store_result (publish_result_streams str_of s i config x).store i x
          ∙ ap (map_found (with_result (result_of x))) e,
    )

complete_run-done :
    (str_of : Value → String) (s : RunService) (later : ℕ) (i : String) (config : Fields)
    (x : RunOutput) (r : RunRecord)
    → get_run s.store i ≡ some r
    → (earlier : List Fields) × (after : List Fields) × ((complete_run str_of s later i config x).1
        ≡ ok (done later x (with_logs earlier r)))
      × (get_run (complete_run str_of s later i config x).0.store i
          ≡ some (with_logs after (done later x (with_logs earlier r))))
unfolding complete_run done
complete_run-done str_of s later i config x r h =
    let u = ending completed later none in
    let s₁ = publish_result_streams str_of s i config x in
    let store = (store_result s₁.store i (result_of x)).0 in
    let (earlier, e) = stored_then str_of s i config x r h in
    let kept = ap (map_found (updated u)) e in
    let d = done later x (with_logs earlier r) in
    let found : (update_run store i u).1 ≡ some d = found-update_run store i u ∙ kept in
    let (after, g) =
      Logged-publish (with_store (with_store s₁ store) (update_run store i u).0) i "completed"
        "run_completed" (completion_payload x) none d (get_run-update_run store i u ∙ kept) in
    (
      earlier,
      after,
      rw (complete_run, found) refl,
      rw (complete_run, found) (ap (λ c. get_run c i) (store-close_stream _ i) ∙ g),
    )

pub execute_record-finished :
    (str_of : Value → String) (s x : RunService) (now later : ℕ) (i : String) (t : RunType)
    (config : Fields) (executor : Executor) (result : RunOutput) (r : RunRecord)
    → executor (start_run s now i t config) ≡ (x, finished result)
    → get_run x.store i ≡ some r
    → (d : RunRecord) × (earlier : List Fields) × (after : List Fields) × ((execute_record str_of s
          now later i t config executor).1
        ≡ ok d)
      × (get_run (execute_record str_of s now later i t config executor).0.store i
          ≡ some (record d { logs = d.logs ++ after }))
      × (d.status ≡ completed)
      × (d.completed_at ≡ some later)
      × (d.report ≡ result.report)
      × (d.events ≡ result.events)
      × (d.snapshots ≡ result.snapshots)
      × (d.accounts ≡ result.accounts)
      × (d.error ≡ r.error)
      × (d.logs ≡ r.logs ++ earlier)
unfolding execute_record settle updated with_result done
execute_record-finished str_of s x now later i t config executor result r e h =
    let (earlier, after, given, stored) = complete_run-done str_of x later i config result r h in
    rw e (_, earlier, after, given, stored, refl, refl, refl, refl, refl, refl, refl, refl)
