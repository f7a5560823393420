-- ===== src/Storage/InMemory.antt =====
-- The operations of `InMemoryRunStore` (sim/api/storage/in_memory.py) on runs. A copy is the value.
-- Each takes the id that uuid4 gives and the reading of the clock that it makes.
use tirrad_exchange_system.Prelude.{
  ℕ, String, Bool, not, Option, none, some, List, [], ◌∷◌, ◌++◌, leb, coalesce, or_else,
  if◌then◌else◌, select, find, update_where, any,
}
use tirrad_exchange_system.Prelude.Int.{ℤ}
use tirrad_exchange_system.Prelude.Sorting.{order_by}
use tirrad_exchange_system.Json.{Value, Fields, end}
use tirrad_exchange_system.Storage.Records.{
  RunType, RunStatus, pending, RunRecord, InMemoryRunStore, is_record,
}
use tirrad_exchange_system.Storage.Selection.{page, matches_event, matches_symbol, matches_account}

-- self._records[record.run_id] = record
unfoldable pub put_record : RunRecord → List RunRecord → List RunRecord
put_record r rs =
    if any (is_record r.run_id) rs
    then update_where (is_record r.run_id) (λ _. r) rs
    else rs ++ r ∷ []

abbrev pub new_record : String → ℕ → RunType → Fields → RunRecord
new_record run_id now run_type config = record {
  run_id = run_id;
  run_type = run_type;
  status = pending;
  created_at = now;
  started_at = none;
  completed_at = none;
  config = config;
  report = end;
  events = [];
  snapshots = [];
  accounts = [];
  logs = [];
  error = none;
  verification = end;
}

unfoldable pub create_run :
    InMemoryRunStore → String → ℕ → RunType → Fields → InMemoryRunStore × RunRecord
unfolding put_record
create_run s run_id now run_type config =
    let r = new_record run_id now run_type config in
    (record s { records = put_record r s.records }, r)

unfoldable pub get_run : InMemoryRunStore → String → Option RunRecord
get_run s run_id = find (is_record run_id) s.records

-- The common part of the operations that look a record up, change it and return something of it.
unfoldable pub change_record :
    InMemoryRunStore → String → (RunRecord → RunRecord) → InMemoryRunStore
change_record s run_id f = record s { records = update_where (is_record run_id) f s.records }

-- The keyword arguments of update_run.
pub record RunUpdate : Type 0 where
  pub status : Option RunStatus
  pub started_at : Option ℕ
  pub completed_at : Option ℕ
  pub error : Option String

unfoldable pub updated : RunUpdate → RunRecord → RunRecord
updated u r = record r {
  status = or_else u.status r.status;
  started_at = coalesce u.started_at r.started_at;
  completed_at = coalesce u.completed_at r.completed_at;
  error = coalesce u.error r.error;
}

unfoldable pub update_run :
    InMemoryRunStore → String → RunUpdate → InMemoryRunStore × Option RunRecord
unfolding change_record updated get_run
update_run s run_id u = let s' = change_record s run_id (updated u) in (s', get_run s' run_id)

unfoldable pub update_run_status :
    InMemoryRunStore → String → RunStatus → RunUpdate → InMemoryRunStore × Option RunRecord
unfolding update_run
update_run_status s run_id status u = update_run s run_id (record u { status = some status })

unfoldable pub list_runs : InMemoryRunStore → List RunRecord
list_runs s = order_by (λ a b. leb a.created_at b.created_at) s.records

unfoldable pub delete_run : InMemoryRunStore → String → InMemoryRunStore × Bool
delete_run s run_id = (
  record s { records = select (λ r. not (is_record run_id r)) s.records },
  any (is_record run_id) s.records,
)

abbrev pub with_run : {B : Type 0} → (RunRecord → B) → Option RunRecord → Option B
with_run f none = none
with_run f (some r) = some (f r)

unfoldable pub get_report : InMemoryRunStore → String → Option Fields
unfolding get_run
get_report s run_id = with_run (λ r. r.report) (get_run s run_id)

unfoldable pub get_events :
    InMemoryRunStore → String → Option String → Option String → Option ℤ → ℤ → Option (List Fields)
unfolding get_run page matches_event
get_events s run_id symbol event_type limit offset =
    with_run (λ r. page (select (matches_event symbol event_type) r.events) limit offset)
      (get_run s run_id)

unfoldable pub get_snapshots :
    InMemoryRunStore → String → Option String → Option ℤ → ℤ → Option (List Fields)
unfolding get_run page matches_symbol
get_snapshots s run_id symbol limit offset =
    with_run (λ r. page (select (matches_symbol symbol) r.snapshots) limit offset)
      (get_run s run_id)

unfoldable pub get_accounts :
    (Option Value → String)
    → InMemoryRunStore
    → String
    → Option String
    → Option String
    → Option ℤ
    → ℤ
    → Option (List Fields)
unfolding get_run page matches_account
get_accounts str_of s run_id account_id symbol limit offset =
    with_run (λ r. page (select (matches_account str_of account_id symbol) r.accounts) limit offset)
      (get_run s run_id)

unfoldable pub get_logs : InMemoryRunStore → String → Option ℤ → ℤ → Option (List Fields)
unfolding get_run page
get_logs s run_id limit offset = with_run (λ r. page r.logs limit offset) (get_run s run_id)

unfoldable pub append_log : InMemoryRunStore → String → Fields → InMemoryRunStore × Bool
unfolding change_record
append_log s run_id log = (
  change_record s run_id (λ r. record r { logs = r.logs ++ log ∷ [] }),
  any (is_record run_id) s.records,
)

unfoldable pub get_verification : InMemoryRunStore → String → Option Fields
unfolding get_run
get_verification s run_id = with_run (λ r. r.verification) (get_run s run_id)

unfoldable pub store_verification :
    InMemoryRunStore → String → Fields → InMemoryRunStore × Option Fields
unfolding change_record get_verification
store_verification s run_id report =
    let s' = change_record s run_id (λ r. record r { verification = report }) in
    (s', get_verification s' run_id)

-- The keyword arguments of store_result.
pub record RunResult : Type 0 where
  pub report : Fields
  pub events : List Fields
  pub snapshots : List Fields
  pub accounts : List Fields
  pub logs : Option (List Fields)

unfoldable pub with_result : RunResult → RunRecord → RunRecord
with_result x r = record r {
  report = x.report;
  events = x.events;
  snapshots = x.snapshots;
  accounts = x.accounts;
  logs = or_else x.logs r.logs;
}

unfoldable pub store_result :
    InMemoryRunStore → String → RunResult → InMemoryRunStore × Option RunRecord
unfolding change_record with_result get_run
store_result s run_id x = let s' = change_record s run_id (with_result x) in (s', get_run s' run_id)
