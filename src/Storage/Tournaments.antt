-- ===== src/Storage/Tournaments.antt =====
-- The operations of `InMemoryRunStore` (sim/api/storage/in_memory.py) on tournaments.
use tirrad_exchange_system.Prelude.{
  ℕ, String, Option, none, some, List, [], ◌∷◌, ◌++◌, leb, coalesce, or_else, if◌then◌else◌, find,
  update_where, any,
}
use tirrad_exchange_system.Prelude.Sorting.{order_by}
use tirrad_exchange_system.Json.{Fields, end}
use tirrad_exchange_system.Storage.Records.{
  RunType, RunStatus, pending, TournamentRecord, TournamentChild, ChildList, InMemoryRunStore,
  is_tournament, is_children_of,
}

-- self._tournaments[record.tournament_id] = record
abbrev put_tournament : TournamentRecord → List TournamentRecord → List TournamentRecord
put_tournament t ts =
    if any (is_tournament t.tournament_id) ts
    then update_where (is_tournament t.tournament_id) (λ _. t) ts
    else ts ++ t ∷ []

-- self._tournament_children[tournament_id] = []
abbrev put_children : ChildList → List ChildList → List ChildList
put_children c cs =
    if any (is_children_of c.tournament_id) cs
    then update_where (is_children_of c.tournament_id) (λ _. c) cs
    else cs ++ c ∷ []

abbrev pub new_tournament : String → ℕ → String → Fields → TournamentRecord
new_tournament tournament_id now tournament_type config = record {
  tournament_id = tournament_id;
  tournament_type = tournament_type;
  status = pending;
  created_at = now;
  started_at = none;
  completed_at = none;
  config = config;
  report = end;
  error = none;
}

unfoldable pub create_tournament :
    InMemoryRunStore → String → ℕ → String → Fields → InMemoryRunStore × TournamentRecord
create_tournament s tournament_id now tournament_type config =
    let t = new_tournament tournament_id now tournament_type config in
    (
      record s {
        tournaments = put_tournament t s.tournaments;
        tournament_children =
            put_children (record { tournament_id = tournament_id; children = [] })
              s.tournament_children;
      },
      t,
    )

unfoldable pub get_tournament : InMemoryRunStore → String → Option TournamentRecord
get_tournament s tournament_id = find (is_tournament tournament_id) s.tournaments

-- The keyword arguments of update_tournament.
pub record TournamentUpdate : Type 0 where
  pub status : Option RunStatus
  pub started_at : Option ℕ
  pub completed_at : Option ℕ
  pub report : Option Fields
  pub error : Option String

unfoldable pub updated_tournament : TournamentUpdate → TournamentRecord → TournamentRecord
updated_tournament u t = record t {
  status = or_else u.status t.status;
  started_at = coalesce u.started_at t.started_at;
  completed_at = coalesce u.completed_at t.completed_at;
  report = or_else u.report t.report;
  error = coalesce u.error t.error;
}

unfoldable pub update_tournament :
    InMemoryRunStore → String → TournamentUpdate → InMemoryRunStore × Option TournamentRecord
unfolding updated_tournament get_tournament
update_tournament s tournament_id u =
    let s' = record s {
      tournaments = update_where (is_tournament tournament_id) (updated_tournament u) s.tournaments;
    } in
    (s', get_tournament s' tournament_id)

unfoldable pub list_tournaments : InMemoryRunStore → List TournamentRecord
list_tournaments s = order_by (λ a b. leb a.created_at b.created_at) s.tournaments

-- setdefault(tournament_id, []).append(child)
abbrev add_child : TournamentChild → ChildList → ChildList
add_child child c = record c { children = c.children ++ child ∷ [] }

unfoldable pub link_tournament_child :
    InMemoryRunStore → String → String → String → RunType → Fields → InMemoryRunStore
link_tournament_child s tournament_id child_run_id child_key run_type dimensions =
    let child : TournamentChild = record {
      tournament_id = tournament_id;
      child_run_id = child_run_id;
      child_key = child_key;
      run_type = run_type;
      dimensions = dimensions;
    } in
    record s {
      tournament_children =
          if any (is_children_of tournament_id) s.tournament_children
          then update_where (is_children_of tournament_id) (add_child child) s.tournament_children
          else s.tournament_children
            ++ record { tournament_id = tournament_id; children = child ∷ [] } ∷ [];
    }

abbrev children_of : Option ChildList → List TournamentChild
children_of none = []
children_of (some c) = c.children

unfoldable pub list_tournament_children : InMemoryRunStore → String → Option (List TournamentChild)
list_tournament_children s tournament_id =
    if any (is_tournament tournament_id) s.tournaments
    then some (children_of (find (is_children_of tournament_id) s.tournament_children))
    else none
