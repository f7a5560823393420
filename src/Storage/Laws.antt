-- ===== src/Storage/Laws.antt =====
-- The in-memory run store of sim/api/storage/in_memory.py as a map from run ids to records.
use tirrad_exchange_system.Prelude.{
  String, true, false, not, none, some, List, [], ◌∷◌, ◌++◌, ◌≡◌, refl, sym, ◌∙◌, ◌==◌, arith,
  if◌then◌else◌, find, select, update_where, any, inl, inr, Bool-cases, eq_iff, eq_refl,
}
use tirrad_exchange_system.Prelude.Tables.{map_found}
use tirrad_exchange_system.Storage.Records.{RunRecord, InMemoryRunStore, is_record}
use tirrad_exchange_system.Storage.Calls.{
  StoreCall, create_call, update_call, delete_call, log_call, verification_call, result_call,
  apply_call, apply_calls, RunMap, promised, promised_all,
}
use tirrad_exchange_system.Storage.InMemory.{
  put_record, create_run, get_run, change_record, new_record, updated, update_run, delete_run,
  append_log, store_verification, with_result, store_result,
}

-- What an UPDATE and a DELETE by key do to a look-up.
find_change :
    (f : RunRecord → RunRecord) (i j : String) (rs : List RunRecord)
    → ((r : RunRecord) → is_record i r ≡ true → (f r).run_id ≡ r.run_id)
    → find (is_record j) (update_where (is_record i) f rs)
      ≡ (if j == i then map_found f (find (is_record j) rs) else find (is_record j) rs)
unfolding find update_where
find_change f i j [] keeps = ground arith
find_change f i j (r ∷ rs) keeps = elim (Bool-cases (r.run_id == i)) [
  | inl e ↦ rw e (
      ground (
        arith,
        eq_iff r.run_id i,
        eq_iff r.run_id j,
        eq_iff j i,
        keeps r e,
        find_change f i j rs keeps,
      ))
  | inr e ↦
      rw e (
        ground
          (arith, eq_iff r.run_id i, eq_iff r.run_id j, eq_iff j i, find_change f i j rs keeps))
]

find_delete :
    (i j : String) (rs : List RunRecord)
    → find (is_record j) (select (λ r. not (is_record i r)) rs)
      ≡ (if j == i then none else find (is_record j) rs)
unfolding find select
find_delete i j [] = ground arith
find_delete i j (r ∷ rs) =
    ground (arith, eq_iff r.run_id i, eq_iff r.run_id j, eq_iff j i, find_delete i j rs)

overwritten :
    (p : RunRecord) (i j : String) (rs : List RunRecord)
    → any (is_record i) rs ≡ true
    → (j == i) ≡ true
    → map_found (λ _. p) (find (is_record j) rs) ≡ some p
unfolding find
overwritten p i j [] h e = cc
overwritten p i j (r ∷ rs) h e =
    ground (arith, eq_iff r.run_id i, eq_iff r.run_id j, eq_iff j i, overwritten p i j rs)

replaced :
    (p : RunRecord) (j : String) (rs : List RunRecord)
    → any (is_record p.run_id) rs ≡ true
    → find (is_record j) (update_where (is_record p.run_id) (λ _. p) rs)
      ≡ (if j == p.run_id then some p else find (is_record j) rs)
replaced p j rs h =
    let change = find_change (λ _. p) p.run_id j rs (λ r e. sym ((eq_iff r.run_id p.run_id).0 e)) in
    ground (arith, change, overwritten p p.run_id j rs h)

added :
    (p : RunRecord) (j : String) (rs : List RunRecord)
    → any (is_record p.run_id) rs ≡ false
    → find (is_record j) (rs ++ p ∷ []) ≡ (if j == p.run_id then some p else find (is_record j) rs)
unfolding find
added p j [] h = ground (arith, eq_iff p.run_id j, eq_iff j p.run_id)
added p j (r ∷ rs) h =
    ground (arith, eq_iff r.run_id p.run_id, eq_iff r.run_id j, eq_iff j p.run_id, added p j rs)

find-put_record :
    (p : RunRecord) (j : String) (rs : List RunRecord)
    → find (is_record j) (put_record p rs)
      ≡ (if j == p.run_id then some p else find (is_record j) rs)
unfolding put_record
find-put_record p j rs = elim (Bool-cases (any (is_record p.run_id) rs)) [
  | inl e ↦ rw e (replaced p j rs e)
  | inr e ↦ rw e (added p j rs e)
]

pub get_run-delete_run :
    (s : InMemoryRunStore) (i j : String)
    → get_run (delete_run s i).0 j ≡ (if j == i then none else get_run s j)
unfolding get_run delete_run
get_run-delete_run s i j = find_delete i j s.records

-- What an operation does to the run that it names.
pub get_run-change_record :
    (s : InMemoryRunStore) (i : String) (f : RunRecord → RunRecord)
    → ((r : RunRecord) → (f r).run_id ≡ r.run_id)
    → get_run (change_record s i f) i ≡ map_found f (get_run s i)
unfolding get_run change_record
get_run-change_record s i f keeps =
    let change = find_change f i i s.records (λ r e. keeps r) in ground (arith, change, eq_refl i)

call_refines :
    (c : StoreCall) (s : InMemoryRunStore) (j : String)
    → get_run (apply_call c s) j ≡ promised c (λ i. get_run s i) j
unfolding get_run apply_call create_run update_run change_record updated delete_run append_log
    store_verification store_result with_result
call_refines (create_call i now run_type config) s j =
    find-put_record (new_record i now run_type config) j s.records
call_refines (update_call i u) s j = find_change (updated u) i j s.records (λ r e. refl)
call_refines (delete_call i) s j = find_delete i j s.records
call_refines (log_call i log) s j = find_change _ i j s.records (λ r e. refl)
call_refines (verification_call i report) s j = find_change _ i j s.records (λ r e. refl)
call_refines (result_call i x) s j = find_change (with_result x) i j s.records (λ r e. refl)

promised-ap :
    (c : StoreCall) (m n : RunMap)
    → ((i : String) → m i ≡ n i)
    → (j : String) → promised c m j ≡ promised c n j
promised-ap (create_call i now run_type config) m n h j = rw (h j) refl
promised-ap (update_call i u) m n h j = rw (h j) refl
promised-ap (delete_call i) m n h j = rw (h j) refl
promised-ap (log_call i log) m n h j = rw (h j) refl
promised-ap (verification_call i report) m n h j = rw (h j) refl
promised-ap (result_call i x) m n h j = rw (h j) refl

promised_all-ap :
    (cs : List StoreCall) (m n : RunMap)
    → ((i : String) → m i ≡ n i)
    → (j : String) → promised_all cs m j ≡ promised_all cs n j
promised_all-ap [] m n h j = h j
promised_all-ap (c ∷ cs) m n h j =
    promised_all-ap cs (promised c m) (promised c n) (promised-ap c m n h) j

-- The store refines a map from run ids to records: after any calls that change runs, `get_run` of
-- every id gives what the same calls make of the map that `get_run` gave before them.
pub get_run-apply_calls :
    (cs : List StoreCall) (s : InMemoryRunStore) (j : String)
    → get_run (apply_calls cs s) j ≡ promised_all cs (λ i. get_run s i) j
unfolding apply_calls
get_run-apply_calls [] s j = refl
get_run-apply_calls (c ∷ cs) s j =
    get_run-apply_calls cs (apply_call c s) j
    ∙ promised_all-ap cs (λ i. get_run (apply_call c s) i) (promised c (λ i. get_run s i))
        (call_refines c s) j
