-- ===== src/Tournaments/Report/Counts.antt =====
-- The counts, ranks and status of the report, `build_report` of sim/api/tournaments.py.
use tirrad_exchange_system.Prelude.{
  ℕ, suc, ◌+◌, ◌<◌, ◌≡◌, ◌↔◌, refl, String, Bool, true, false, Option, none, some, List, [], ◌∷◌,
  ◌++◌, zero, map, length, count, All, arith, sym, ap,
}
use tirrad_exchange_system.Prelude.Sorting.{order_by}
use tirrad_exchange_system.Prelude.Counting.{
  bit, length_append, count_append, count-All, count-order_by, length-order_by,
}
use tirrad_exchange_system.Storage.Records.{
  RunRecord, TournamentChild, RunStatus, pending, running, completed, failed, canceled, eq_status,
}
use tirrad_exchange_system.Floats.{Floats}
use tirrad_exchange_system.Tournaments.Report.{
  TournamentResult, record_of, failure_result, Tally, tallied, is_canceled, tally_run, tally_found,
  tally_all, with_ranks, by_key, report_status, build_report, ranks_first,
}

abbrev pub is_terminal : RunStatus → Bool
is_terminal completed = true
is_terminal failed = true
is_terminal canceled = true
is_terminal _ = false

-- n, n + 1 and so on, so many.
abbrev pub numbers_from : ℕ → ℕ → List ℕ
numbers_from n zero = []
numbers_from n (suc k) = n ∷ numbers_from (n + 1) k

abbrev status_of : Option RunRecord → RunStatus
status_of none = failed
status_of (some r) = r.status

module _ (f : Floats) where
  -- The status that the report gives a child: a run that is missing has failed.
  abbrev pub child_status : List RunRecord → TournamentChild → RunStatus
  child_status runs link = status_of (record_of f link.child_run_id runs)

  abbrev pub has_status : List RunRecord → RunStatus → TournamentChild → Bool
  has_status runs s link = eq_status (child_status runs link) s

  -- The loop's variables from `a` to `b`, over so many completed, failed and canceled children.
  record Counts (done lost stopped : ℕ) (a b : Tally f) : Type 0 where
    completed : b.completed ≡ a.completed + done
    failed : b.failed ≡ a.failed + lost
    results : length b.results ≡ length a.results + done
    failures : length b.failures ≡ length a.failures + lost + stopped
    canceled : count (is_canceled f) b.failures ≡ count (is_canceled f) a.failures + stopped

  done_one :
      (a : Tally f) (x : TournamentResult f)
      → Counts 1 0 0 a (record a { completed = a.completed + 1; results = a.results ++ x ∷ [] })
  done_one a x = let l = length_append a.results x in ground arith

  lost_one :
      (a : Tally f) (x : TournamentResult f)
      → is_canceled f x ≡ false
      → Counts 0 1 0 a (record a { failed = a.failed + 1; failures = a.failures ++ x ∷ [] })
  lost_one a x h =
      let l = length_append a.failures x in
      let c = count_append (is_canceled f) a.failures x in ground arith

  stopped_one :
      (a : Tally f) (x : TournamentResult f)
      → is_canceled f x ≡ true
      → Counts 0 0 1 a (record a { failures = a.failures ++ x ∷ [] })
  stopped_one a x h =
      let l = length_append a.failures x in
      let c = count_append (is_canceled f) a.failures x in ground arith

  tally_run-Counts :
      (link : TournamentChild) (r : RunRecord) (s : RunStatus) (a : Tally f)
      → Counts
          (bit (eq_status s completed))
          (bit (eq_status s failed))
          (bit (eq_status s canceled))
          a
          (tally_run f link r s a)
  unfolding tally_run failure_result
  tally_run-Counts link r completed a = done_one a _
  tally_run-Counts link r failed a = lost_one a _ refl
  tally_run-Counts link r canceled a = stopped_one a _ refl
  tally_run-Counts link r running a = ground arith
  tally_run-Counts link r pending a = ground arith

  tally_found-Counts :
      (link : TournamentChild) (found : Option RunRecord) (a : Tally f)
      → Counts
          (bit (eq_status (status_of found) completed))
          (bit (eq_status (status_of found) failed))
          (bit (eq_status (status_of found) canceled))
          a
          (tally_found f link found a)
  unfolding failure_result
  tally_found-Counts link none a = lost_one a _ refl
  tally_found-Counts link (some r) a = tally_run-Counts link r r.status a

  tally_all-Counts :
      (runs : List RunRecord) (links : List TournamentChild) (a : Tally f)
      → Counts
          (count (has_status runs completed) links)
          (count (has_status runs failed) links)
          (count (has_status runs canceled) links)
          a
          (tally_all f runs links a)
  unfolding tally_all
  tally_all-Counts runs [] a = ground arith
  tally_all-Counts runs (link ∷ links) a =
      let found = record_of f link.child_run_id runs in
      let one = tally_found-Counts link found a in
      let rest = tally_all-Counts runs links (tally_found f link found a) in
      record {
        completed = omega (arith, one.completed, rest.completed);
        failed = omega (arith, one.failed, rest.failed);
        results = omega (arith, one.results, rest.results);
        failures = omega (arith, one.failures, rest.failures);
        canceled = omega (arith, one.canceled, rest.canceled);
      }

  length-with_ranks :
      (n : ℕ) (xs : List (TournamentResult f)) → length (with_ranks f n xs) ≡ length xs
  unfolding with_ranks
  length-with_ranks n [] = refl
  length-with_ranks n (x ∷ xs) = ap suc (length-with_ranks (n + 1) xs)

  count-with_ranks :
      (n : ℕ) (xs : List (TournamentResult f))
      → count (is_canceled f) (with_ranks f n xs) ≡ count (is_canceled f) xs
  unfolding with_ranks
  count-with_ranks n [] = refl
  count-with_ranks n (x ∷ xs) = omega (arith, count-with_ranks (n + 1) xs)

  ranks-with_ranks :
      (n : ℕ) (xs : List (TournamentResult f))
      → map (λ x. x.rank) (with_ranks f n xs) ≡ numbers_from n (length (with_ranks f n xs))
  unfolding with_ranks
  ranks-with_ranks n [] = refl
  ranks-with_ranks n (x ∷ xs) = ap (λ ns. n ∷ ns) (ranks-with_ranks (n + 1) xs)

  tallied-Counts :
      (links : List TournamentChild) (runs : List RunRecord)
      → Counts
          (count (has_status runs completed) links)
          (count (has_status runs failed) links)
          (count (has_status runs canceled) links)
          (record { results = []; failures = []; completed = 0; failed = 0 })
          (tallied f links runs)
  unfolding tallied
  tallied-Counts links runs =
      rw
        (
          sym (count-order_by (by_key f) (has_status runs completed) links),
          sym (count-order_by (by_key f) (has_status runs failed) links),
          sym (count-order_by (by_key f) (has_status runs canceled) links),
        )
        (tally_all-Counts runs (order_by (by_key f) links) _)

  count_terminal :
      (runs : List RunRecord) (links : List TournamentChild)
      → count (has_status runs completed) links
          + count (has_status runs failed) links
          + count (has_status runs canceled) links
        ≡ count (λ link. is_terminal (child_status runs link)) links
  count_terminal runs [] = refl
  count_terminal runs (link ∷ links) = ground (arith, count_terminal runs links)

  report_status-failed : (n m : ℕ) → (report_status f n m ≡ failed) ↔ (n ≡ 0)
  unfolding report_status
  report_status-failed n m = ground arith

  report_status-completed : (n m : ℕ) → (report_status f n m ≡ completed) ↔ ((0 < n) × (m ≡ n))
  unfolding report_status
  report_status-completed n m = ground arith

  -- The two counts of the report are the numbers of children whose run has completed, or has failed
  -- or is missing; so many results and, with the canceled children, so many failures are listed. The
  -- ranks count the results from 1 on, and the failures after them. The report is failed if there are
  -- no children, and completed if there are some and the run of each has completed, failed, been
  -- canceled or is missing.
  pub build_report-counts :
      (tournament_id generated_at : String) (links : List TournamentChild) (runs : List RunRecord)
      → let r = build_report f tournament_id generated_at links runs in
        (r.completed_child_count ≡ count (has_status runs completed) links)
        × (r.failed_child_count ≡ count (has_status runs failed) links)
        × (length r.results ≡ r.completed_child_count)
        × (length r.failures ≡ r.failed_child_count + count (has_status runs canceled) links)
        × (map (λ x. x.rank) r.results ≡ numbers_from 1 (length r.results))
        × (map (λ x. x.rank) r.failures ≡ numbers_from (length r.results + 1) (length r.failures))
        × ((r.status ≡ failed) ↔ (length links ≡ 0))
        × ((r.status ≡ completed) ↔ (
            (0 < length links) × All (λ link. is_terminal (child_status runs link) ≡ true) links))
  unfolding build_report
  build_report-counts tournament_id generated_at links runs =
      let t = tallied f links runs in
      let c = tallied-Counts links runs in
      let ranked = with_ranks f 1 (order_by (ranks_first f) t.results) in
      let listed = length-with_ranks 1 (order_by (ranks_first f) t.results) in
      let sorted = length-order_by (ranks_first f) t.results in
      let kept = length-with_ranks (length ranked + 1) t.failures in
      let stopped = count-with_ranks (length ranked + 1) t.failures in
      let all = count-All (λ link. is_terminal (child_status runs link)) links in
      let three = count_terminal runs links in
      let s = report_status-completed (length links) (
        t.completed
        + t.failed
        + count (is_canceled f) (with_ranks f (length ranked + 1) t.failures)) in
      (
        omega (arith, c.completed),
        omega (arith, c.failed),
        omega (arith, c.results, c.completed, listed, sorted),
        omega (arith, c.failures, c.failed, kept),
        ranks-with_ranks 1 (order_by (ranks_first f) t.results),
        ranks-with_ranks (length ranked + 1) t.failures,
        report_status-failed _ _,
        (
          λ e.
              let (some_links, m) = s.0 e in
              (
                some_links,
                all.0 (omega (arith, m, c.completed, c.failed, c.canceled, stopped, three)),
              ),
          λ h.
              let full = all.1 h.1 in
              s.1 (h.0, omega (arith, full, c.completed, c.failed, c.canceled, stopped, three)),
        ),
      )
