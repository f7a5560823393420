-- ===== src/Services/Runs/Stored.antt =====
-- What the calls of sim/api/services/run_service.py on the store and on the stream make of the record
-- of a run.
use tirrad_exchange_system.Prelude.{
  String, Bool, true, false, Option, none, some, List, [], ◌∷◌, ◌++◌, ◌≡◌, refl, sym, ap, ◌∙◌,
  if◌then◌else◌,
}
use tirrad_exchange_system.Prelude.Results.{Result, ok, err}
use tirrad_exchange_system.Prelude.Tables.{map_found}
use tirrad_exchange_system.Json.{Value, Fields, get}
use tirrad_exchange_system.Storage.Records.{
  RunStatus, pending, running, completed, failed, canceled, RunRecord, InMemoryRunStore,
}
use tirrad_exchange_system.Storage.InMemory.{
  get_run, update_run, updated, RunUpdate, append_log, store_result, with_result,
}
use tirrad_exchange_system.Storage.Laws.{get_run-change_record}
use tirrad_exchange_system.Streaming.Messages.{StreamMessage, StreamError, to_log}
use tirrad_exchange_system.Streaming.Bounded.{append_assoc, append_nil}
use tirrad_exchange_system.Services.Values.{flag}
use tirrad_exchange_system.Services.Stream.{
  RunOutput, RunService, StreamSide, persisted, publish_with, publish, close_with, close_stream,
  publish_events, publish_snapshots, publish_result_streams,
}
use tirrad_exchange_system.Services.Runs.{result_of, if_pending}

-- The record of a run, later, with no more than logs after its own.
abbrev pub Logged : InMemoryRunStore → String → RunRecord → Type 0
Logged store i r =
    (more : List Fields) × (get_run store i ≡ some (record r { logs = r.logs ++ more }))

Logged-trans :
    (a b : InMemoryRunStore) (i : String) (r : RunRecord)
    → Logged a i r
    → ((d : RunRecord) → get_run a i ≡ some d → Logged b i d)
    → Logged b i r
Logged-trans a b i r (more, e) f =
    let (rest, g) = f (record r { logs = r.logs ++ more }) e in
    (more ++ rest, g ∙ ap (λ logs. some (record r { logs = logs })) (append_assoc r.logs more rest))

Logged-refl :
    (a : InMemoryRunStore) (i : String) (r : RunRecord) → get_run a i ≡ some r → Logged a i r
Logged-refl a i r e =
    ([], e ∙ ap (λ logs. some (record r { logs = logs })) (sym (append_nil r.logs)))

pub get_run-append_log :
    (s : InMemoryRunStore) (i : String) (log : Fields)
    → get_run (append_log s i log).0 i
      ≡ map_found (λ r. record r { logs = r.logs ++ log ∷ [] }) (get_run s i)
unfolding append_log
get_run-append_log s i log = get_run-change_record s i _ (λ r. refl)

Logged-persisted :
    (p : StreamSide) (store : InMemoryRunStore) (i : String) (m : Result StreamError StreamMessage)
    (r : RunRecord)
    → get_run store i ≡ some r
    → Logged (persisted p store i m) i r
Logged-persisted p store i (ok m) r e =
    (to_log p.outside m ∷ [], get_run-append_log store i (to_log p.outside m) ∙ ap (map_found _) e)
Logged-persisted p store i (err x) r e = Logged-refl store i r e

Logged-publish_with :
    (found : Option StreamSide) (s : RunService) (i category message_type : String)
    (payload : Fields) (step : Option Value) (r : RunRecord)
    → get_run s.store i ≡ some r
    → Logged (publish_with found s i category message_type payload step).store i r
Logged-publish_with none s i category message_type payload step r e = Logged-refl s.store i r e
Logged-publish_with (some p) s i category message_type payload step r e =
    Logged-persisted p s.store i _ r e

pub Logged-publish :
    (s : RunService) (i category message_type : String) (payload : Fields) (step : Option Value)
    (r : RunRecord)
    → get_run s.store i ≡ some r
    → Logged (publish s i category message_type payload step).store i r
unfolding publish
Logged-publish s = Logged-publish_with s.stream_service s

-- Closing a stream leaves the store alone.
store-close_with :
    (found : Option StreamSide) (s : RunService) (i : String)
    → (close_with found s i).store ≡ s.store
store-close_with none s i = refl
store-close_with (some p) s i = refl

pub store-close_stream : (s : RunService) (i : String) → (close_stream s i).store ≡ s.store
unfolding close_stream
store-close_stream s i = store-close_with s.stream_service s i

Logged-publish_events :
    (str_of : Value → String) (i : String) (es : List Fields) (s : RunService) (r : RunRecord)
    → get_run s.store i ≡ some r
    → Logged (publish_events str_of i es s).store i r
unfolding publish_events
Logged-publish_events str_of i [] s r h = Logged-refl s.store i r h
Logged-publish_events str_of i (e ∷ es) s r h =
    Logged-trans _ _ i r (Logged-publish s i _ _ _ _ r h)
      (λ d g. Logged-publish_events str_of i es _ d g)

Logged-publish_snapshots :
    (i : String) (es : List Fields) (s : RunService) (r : RunRecord)
    → get_run s.store i ≡ some r
    → Logged (publish_snapshots i es s).store i r
unfolding publish_snapshots
Logged-publish_snapshots i [] s r h = Logged-refl s.store i r h
Logged-publish_snapshots i (e ∷ es) s r h =
    Logged-trans _ _ i r (Logged-publish s i _ _ _ _ r h)
      (λ d g. Logged-publish_snapshots i es _ d g)

Logged-if :
    (b : Bool) (s t : RunService) (i : String) (r : RunRecord)
    → get_run s.store i ≡ some r
    → Logged t.store i r
    → Logged (if b then t else s).store i r
Logged-if true s t i r e h = h
Logged-if false s t i r e h = Logged-refl s.store i r e

pub Logged-publish_result_streams :
    (str_of : Value → String) (s : RunService) (i : String) (config : Fields) (x : RunOutput)
    (r : RunRecord)
    → get_run s.store i ≡ some r
    → Logged (publish_result_streams str_of s i config x).store i r
unfolding publish_result_streams
Logged-publish_result_streams str_of s i config x r e =
    let s₁ = if flag (get "stream_events" config) then publish_events str_of i x.events s else s in
    Logged-trans s₁.store _ i r
      (Logged-if (flag (get "stream_events" config)) s (publish_events str_of i x.events s) i r e
        (Logged-publish_events str_of i x.events s r e))
      (λ d g.
        Logged-if (flag (get "stream_snapshots" config)) s₁ (publish_snapshots i x.snapshots s₁) i d
          g (Logged-publish_snapshots i x.snapshots s₁ d g))

pub get_run-update_run :
    (s : InMemoryRunStore) (i : String) (u : RunUpdate)
    → get_run (update_run s i u).0 i ≡ map_found (updated u) (get_run s i)
unfolding update_run updated
get_run-update_run s i u = get_run-change_record s i (updated u) (λ r. refl)

pub found-update_run :
    (s : InMemoryRunStore) (i : String) (u : RunUpdate)
    → (update_run s i u).1 ≡ map_found (updated u) (get_run s i)
unfolding update_run updated
found-update_run s i u = get_run-change_record s i (updated u) (λ r. refl)

pub get_run-store_result :
    (s : InMemoryRunStore) (i : String) (x : RunOutput)
    → get_run (store_result s i (result_of x)).0 i
      ≡ map_found (with_result (result_of x)) (get_run s i)
unfolding store_result with_result
get_run-store_result s i x = get_run-change_record s i (with_result (result_of x)) (λ r. refl)

pub store-if_pending :
    (a b : RunService) (c : InMemoryRunStore) (status : RunStatus)
    → a.store ≡ c
    → b.store ≡ c
    → (if_pending status a b).store ≡ c
store-if_pending a b c pending h k = h
store-if_pending a b c running h k = k
store-if_pending a b c completed h k = k
store-if_pending a b c failed h k = k
store-if_pending a b c canceled h k = k
