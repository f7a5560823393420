-- ===== src/Storage/Records.antt =====
-- The records of sim/api/storage/base.py and the state of `InMemoryRunStore` of
-- sim/api/storage/in_memory.py. A time is a number of microseconds. A dict of records keyed by their
-- own id is the list of the records in insertion order.
use tirrad_exchange_system.Prelude.{ℕ, String, Bool, true, false, Option, List, ◌==◌}
use tirrad_exchange_system.Json.{Fields}

pub data RunType : Type 0 where
  session backtest benchmark : RunType

pub data RunStatus : Type 0 where
  pending running completed failed canceled : RunStatus

abbrev pub eq_status : RunStatus → RunStatus → Bool
eq_status pending pending = true
eq_status running running = true
eq_status completed completed = true
eq_status failed failed = true
eq_status canceled canceled = true
eq_status _ _ = false

pub record RunRecord : Type 0 where
  pub run_id : String
  pub run_type : RunType
  pub status : RunStatus
  pub created_at : ℕ
  pub started_at : Option ℕ
  pub completed_at : Option ℕ
  pub config : Fields
  pub report : Fields
  pub events : List Fields
  pub snapshots : List Fields
  pub accounts : List Fields
  pub logs : List Fields
  pub error : Option String
  pub verification : Fields

pub record TournamentRecord : Type 0 where
  pub tournament_id : String
  pub tournament_type : String
  pub status : RunStatus
  pub created_at : ℕ
  pub started_at : Option ℕ
  pub completed_at : Option ℕ
  pub config : Fields
  pub report : Fields
  pub error : Option String

-- The dict that link_tournament_child appends.
pub record TournamentChild : Type 0 where
  pub tournament_id : String
  pub child_run_id : String
  pub child_key : String
  pub run_type : RunType
  pub dimensions : Fields

-- One entry of _tournament_children.
pub record ChildList : Type 0 where
  pub tournament_id : String
  pub children : List TournamentChild

-- Without _benchmarks.
pub record InMemoryRunStore : Type 0 where
  pub records : List RunRecord
  pub tournaments : List TournamentRecord
  pub tournament_children : List ChildList

abbrev pub is_record : String → RunRecord → Bool
is_record run_id r = r.run_id == run_id

abbrev pub is_tournament : String → TournamentRecord → Bool
is_tournament tournament_id t = t.tournament_id == tournament_id

abbrev pub is_children_of : String → ChildList → Bool
is_children_of tournament_id c = c.tournament_id == tournament_id
