-- ===== src/Tournaments/Aggregates/Status.antt =====
-- What aggregating a tournament leaves in the store (sim/api/services/tournament_service.py).
use tirrad_exchange_system.Prelude.{
  ℕ, ◌≡◌, refl, String, true, false, Option, none, some, List, arith, find-In, is_some, sym, ap,
  ◌∙◌,
}
use tirrad_exchange_system.Prelude.Tables.{find-update_where, is_some-find}
use tirrad_exchange_system.Prelude.Results.{ok}
use tirrad_exchange_system.Storage.Records.{
  canceled, eq_status, TournamentRecord, TournamentChild, InMemoryRunStore, is_tournament,
}
use tirrad_exchange_system.Storage.Tournaments.{
  get_tournament, update_tournament, updated_tournament, TournamentUpdate, list_tournament_children,
}
use tirrad_exchange_system.Floats.{Floats}
use tirrad_exchange_system.Tournaments.Report.{TournamentReport, build_report, report_status}
use tirrad_exchange_system.Tournaments.Aggregates.{
  aggregate, child_records, aggregated_update, or_not_found, aggregate_children,
}

some_of : {A : Type 0} (o : Option A) → is_some o ≡ true → (a : A) × (o ≡ some a)
some_of none h = ground arith
some_of (some a) h = (a, refl)

list_tournament_children-some :
    (s : InMemoryRunStore) (i : String) (t : TournamentRecord)
    → get_tournament s i ≡ some t
    → is_some (list_tournament_children s i) ≡ true
unfolding get_tournament list_tournament_children
list_tournament_children-some s i t e =
    rw (sym (is_some-find (is_tournament i) s.tournaments), e) refl

get_tournament-update_tournament :
    (s : InMemoryRunStore) (i : String) (t : TournamentRecord) (u : TournamentUpdate)
    → get_tournament s i ≡ some t
    → get_tournament (update_tournament s i u).0 i ≡ some (updated_tournament u t)
unfolding update_tournament get_tournament updated_tournament
get_tournament-update_tournament s i t u e =
    let hit = (find-In (is_tournament i) s.tournaments e).1 in
    rw
      (
        find-update_where (is_tournament i) (is_tournament i) (updated_tournament u) s.tournaments
            (λ x. refl),
        e,
        hit,
      )
      refl

update_tournament-get_tournament :
    (s : InMemoryRunStore) (i : String) (u : TournamentUpdate)
    → (update_tournament s i u).1 ≡ get_tournament (update_tournament s i u).0 i
unfolding update_tournament
update_tournament-get_tournament s i u = refl

module _ (f : Floats) where
  build_report-open :
      (i g : String) (links : List TournamentChild) (s : InMemoryRunStore)
      → eq_status (build_report f i g links (child_records f s links)).status canceled ≡ false
  unfolding build_report report_status
  build_report-open i g links s = ground arith

  or_not_found-ok :
      (i : String) (r : TournamentReport f) (x : InMemoryRunStore × Option TournamentRecord)
      (t : TournamentRecord)
      → x.1 ≡ some t
      → or_not_found f i r x ≡ (x.0, ok r)
  or_not_found-ok i r (s, none) t e = ground arith
  or_not_found-ok i r (s, some t') t e = refl

  aggregate-found :
      (s : InMemoryRunStore) (now : ℕ) (g i : String) (t : TournamentRecord)
      (children : List TournamentChild)
      → get_tournament s i ≡ some t
      → list_tournament_children s i ≡ some children
      → aggregate f s now g i ≡ aggregate_children f s now g i (some children)
  unfolding aggregate
  aggregate-found s now g i t children e c = rw (aggregate, e, c) refl

  -- Aggregating a tournament of the store succeeds with the report of its children, and gives the
  -- tournament the status of the report, which is not canceled, whatever its status was.
  pub aggregate-status :
      (s : InMemoryRunStore) (now : ℕ) (generated_at i : String) (t : TournamentRecord)
      → get_tournament s i ≡ some t
      → (children : List TournamentChild) × (t' : TournamentRecord) × (list_tournament_children s i
          ≡ some children)
        × ((aggregate f s now generated_at i).1
            ≡ ok (build_report f i generated_at children (child_records f s children)))
        × (get_tournament (aggregate f s now generated_at i).0 i ≡ some t')
        × (t'.status ≡ (build_report f i generated_at children (child_records f s children)).status)
        × (eq_status t'.status canceled ≡ false)
  unfolding updated_tournament
  aggregate-status s now g i t e =
      let (children, c) =
        some_of (list_tournament_children s i) (list_tournament_children-some s i t e) in
      let report = build_report f i g children (child_records f s children) in
      let u = aggregated_update f now report in
      let there = get_tournament-update_tournament s i t u e in
      let fine =
        or_not_found-ok i report (update_tournament s i u) (updated_tournament u t)
          (update_tournament-get_tournament s i u ∙ there) in
      let done = aggregate-found s now g i t children e c ∙ fine in
      (
        children,
        updated_tournament u t,
        c,
        ap (λ x. x.1) done,
        ap (λ x. get_tournament x.0 i) done ∙ there,
        refl,
        build_report-open i g children s,
      )
