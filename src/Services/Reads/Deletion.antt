-- ===== src/Services/Reads/Deletion.antt =====
-- What the look-ups of sim/api/services/run_service.py give after a deletion.
use tirrad_exchange_system.Prelude.{
  String, Bool, true, false, ◌≡◌, ◌∙◌, ◌==◌, ap, refl, Option, none, if◌then◌else◌, Bool-cases, inl,
  inr,
}
use tirrad_exchange_system.Prelude.Results.{err}
use tirrad_exchange_system.Storage.Records.{RunRecord}
use tirrad_exchange_system.Storage.InMemory.{get_run, delete_run}
use tirrad_exchange_system.Storage.Laws.{get_run-delete_run}
use tirrad_exchange_system.Services.Stream.{RunService}
use tirrad_exchange_system.Services.Runs.{run_not_found, delete_service_run}
use tirrad_exchange_system.Services.Runs.Stored.{store-close_stream}
use tirrad_exchange_system.Services.Reads.{or_not_found, require_run}

store-delete_service_run :
    (s : RunService) (i : String) → (delete_service_run s i).0.store ≡ (delete_run s.store i).0
unfolding delete_service_run
store-delete_service_run s i = elim (Bool-cases (delete_run s.store i).1) [
  | inl e ↦ rw (delete_service_run, e) (store-close_stream _ i)
  | inr e ↦ rw (delete_service_run, e) refl
]

pick_found :
    (b : Bool) (j : String) (m n : Option RunRecord)
    → m ≡ (if b then none else n)
    → or_not_found j m ≡ (if b then err (run_not_found j) else or_not_found j n)
pick_found true j m n e = ap (or_not_found j) e
pick_found false j m n e = ap (or_not_found j) e

-- After `delete_run` of a run the service does not find it, whether it was there or not, and finds every
-- other run as before.
pub require_run-delete_service_run :
    (s : RunService) (i j : String)
    → require_run (delete_service_run s i).0 j
      ≡ (if j == i then err (run_not_found j) else require_run s j)
unfolding require_run
require_run-delete_service_run s i j =
    ap (λ store. or_not_found j (get_run store j)) (store-delete_service_run s i)
    ∙ pick_found (j == i) j _ _ (get_run-delete_run s.store i j)
