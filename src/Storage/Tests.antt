-- ===== src/Storage/Tests.antt =====
-- The theorems on the in-memory run store at concrete stores.
use tirrad_exchange_system.Prelude.{
  String, ◌+◌, ◌≡◌, refl, inl, inr, none, some, List, [], ◌∷◌, ◌++◌, if◌then◌else◌, arith,
}
use tirrad_exchange_system.Prelude.Int.{pos, negsuc, ltb_ℤ}
use tirrad_exchange_system.Json.{Fields, end, field, text}
use tirrad_exchange_system.Storage.Records.{session, running, InMemoryRunStore}
use tirrad_exchange_system.Storage.Selection.{page}
use tirrad_exchange_system.Storage.InMemory.{get_run}
use tirrad_exchange_system.Storage.Calls.{
  StoreCall, create_call, update_call, delete_call, log_call, apply_calls, promised_all,
}
use tirrad_exchange_system.Storage.Laws.{get_run-apply_calls}
use tirrad_exchange_system.Storage.Paging.{entry, page-append}

abbrev empty_store : InMemoryRunStore
empty_store = record { records = []; tournaments = []; tournament_children = [] }

abbrev a_log : String → Fields
a_log s = field "message" (text s) end

abbrev some_calls : List StoreCall
some_calls =
    create_call "a" 10 session end
    ∷ create_call "b" 11 session end
    ∷ update_call "a"
        (record { status = some running; started_at = some 12; completed_at = none; error = none })
    ∷ log_call "a" (a_log "claimed")
    ∷ delete_call "b"
    ∷ []

get_run-apply_calls_example :
    get_run (apply_calls some_calls empty_store) "a"
    ≡ promised_all some_calls (λ i. get_run empty_store i) "a"
get_run-apply_calls_example = get_run-apply_calls some_calls empty_store "a"

abbrev three_logs : List Fields
three_logs = a_log "a" ∷ a_log "b" ∷ a_log "c" ∷ []

page-append_example :
    (entry 0 (page three_logs (some (pos 1)) (negsuc 4))
      ≡ (if ltb_ℤ (pos 0) (pos 1) then entry (0 + 0) three_logs else none))
    × (entry 0 (page three_logs none (negsuc 4)) ≡ entry (0 + 0) three_logs)
    × (page three_logs (some (pos 1)) (negsuc 4) ++ page three_logs none (pos (0 + 1))
        ≡ page three_logs none (negsuc 4))
page-append_example =
    page-append three_logs (pos 1) (negsuc 4) 1 0 0 (inl refl) (inr (omega arith, refl))
