-- ===== src/Storage/Calls.antt =====
-- The calls of the in-memory run store (sim/api/storage/in_memory.py) that change a run, as data, and
-- the map from run ids to records that the store stands for.
use tirrad_exchange_system.Prelude.{
  ℕ, String, Option, none, some, List, [], ◌∷◌, ◌++◌, ◌==◌, if◌then◌else◌,
}
use tirrad_exchange_system.Prelude.Tables.{map_found}
use tirrad_exchange_system.Json.{Fields}
use tirrad_exchange_system.Storage.Records.{RunType, RunRecord, InMemoryRunStore}
use tirrad_exchange_system.Storage.InMemory.{
  create_run, new_record, RunUpdate, updated, update_run, delete_run, append_log,
  store_verification, RunResult, with_result, store_result,
}

pub data StoreCall : Type 0 where
  create_call : String → ℕ → RunType → Fields → StoreCall
  update_call : String → RunUpdate → StoreCall
  delete_call : String → StoreCall
  log_call : String → Fields → StoreCall
  verification_call : String → Fields → StoreCall
  result_call : String → RunResult → StoreCall

unfoldable pub apply_call : StoreCall → InMemoryRunStore → InMemoryRunStore
unfolding create_run update_run delete_run append_log store_verification store_result
apply_call (create_call i now run_type config) s = (create_run s i now run_type config).0
apply_call (update_call i u) s = (update_run s i u).0
apply_call (delete_call i) s = (delete_run s i).0
apply_call (log_call i log) s = (append_log s i log).0
apply_call (verification_call i report) s = (store_verification s i report).0
apply_call (result_call i x) s = (store_result s i x).0

unfoldable pub apply_calls : List StoreCall → InMemoryRunStore → InMemoryRunStore
unfolding apply_call
apply_calls [] s = s
apply_calls (c ∷ cs) s = apply_calls cs (apply_call c s)

-- The promise: a map in which a call writes, changes or removes the record of its own run only.
abbrev pub RunMap : Type 0
RunMap = String → Option RunRecord

abbrev pub modify : String → (RunRecord → RunRecord) → RunMap → RunMap
modify i f m j = if j == i then map_found f (m j) else m j

abbrev pub promised : StoreCall → RunMap → RunMap
promised (create_call i now run_type config) m j =
    if j == i then some (new_record i now run_type config) else m j
promised (update_call i u) m j = modify i (updated u) m j
promised (delete_call i) m j = if j == i then none else m j
promised (log_call i log) m j = modify i (λ r. record r { logs = r.logs ++ log ∷ [] }) m j
promised (verification_call i report) m j = modify i (λ r. record r { verification = report }) m j
promised (result_call i x) m j = modify i (with_result x) m j

abbrev pub promised_all : List StoreCall → RunMap → RunMap
promised_all [] m = m
promised_all (c ∷ cs) m = promised_all cs (promised c m)
