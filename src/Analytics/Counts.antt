-- ===== src/Analytics/Counts.antt =====
-- What the counts of sim/tes_analytics/summary.py and sim/tes_simulation/results.py say of the events.
use tirrad_exchange_system.Prelude.{
  ℕ, suc, ◌+◌, ◌≡◌, ◌⊎◌, inl, inr, refl, sym, String, true, false, List, [], ◌∷◌, ◌==◌,
  if◌then◌else◌, length, count, arith, eq_iff, Bool-cases,
}
use tirrad_exchange_system.Prelude.Int.{ℤ, pos, ltb_ℤ}
use tirrad_exchange_system.Prelude.Results.{ok, err}
use tirrad_exchange_system.Models.Events.{TesEngineEvent, event_type}
use tirrad_exchange_system.Analytics.{
  EventCount, count_one_more, count_more, count_events, is_of_type, SimulationRunRecord,
  negative_commands, empty_run_id, build_simulation_summary, build_run_record,
}

-- counts.get(name, 0)
abbrev pub count_of : String → List EventCount → ℕ
count_of name [] = 0
count_of name (c ∷ cs) = if c.name == name then c.total else count_of name cs

abbrev pub sum_counts : List EventCount → ℕ
sum_counts [] = 0
sum_counts (c ∷ cs) = c.total + sum_counts cs

count_of-count_one_more :
    (t u : String) (cs : List EventCount)
    → count_of t (count_one_more u cs) ≡ (if u == t then 1 else 0) + count_of t cs
unfolding count_one_more
count_of-count_one_more t u [] = ground arith
count_of-count_one_more t u (c ∷ cs) =
    ground (arith, eq_iff c.name u, eq_iff c.name t, eq_iff u t, count_of-count_one_more t u cs)

sum_counts-count_one_more :
    (u : String) (cs : List EventCount) → sum_counts (count_one_more u cs) ≡ suc (sum_counts cs)
unfolding count_one_more
sum_counts-count_one_more u [] = ground arith
sum_counts-count_one_more u (c ∷ cs) = ground (arith, sum_counts-count_one_more u cs)

count_of-count_more :
    (t : String) (cs : List EventCount) (es : List TesEngineEvent)
    → count_of t (count_more cs es) ≡ count_of t cs + count (is_of_type t) es
unfolding count_more
count_of-count_more t cs [] = omega arith
count_of-count_more t cs (e ∷ es) = omega (
  arith,
  count_of-count_more t (count_one_more (event_type e) cs) es,
  count_of-count_one_more t (event_type e) cs,
)

sum_counts-count_more :
    (cs : List EventCount) (es : List TesEngineEvent)
    → sum_counts (count_more cs es) ≡ sum_counts cs + length es
unfolding count_more
sum_counts-count_more cs [] = omega arith
sum_counts-count_more cs (e ∷ es) = omega (
  arith,
  sum_counts-count_more (count_one_more (event_type e) cs) es,
  sum_counts-count_one_more (event_type e) cs,
)

-- The entry of every event type in `count_events` is the number of events of that type, 0 where it has
-- no entry, and the entries add up to the number of events.
pub count_of-count_events :
    (t : String) (es : List TesEngineEvent)
    → (count_of t (count_events es) ≡ count (is_of_type t) es)
      × (sum_counts (count_events es) ≡ length es)
unfolding count_events
count_of-count_events t es =
    (omega (arith, count_of-count_more t [] es), omega (arith, sum_counts-count_more [] es))

-- `build_run_record` refuses an empty id whatever else it is given, then a negative number of commands,
-- and in the case that is left, of another id and a number that is not negative, makes a record of
-- the events whose summary agrees with `count_events` and has the numbers of commands and events.
pub build_run_record-counts :
    (run_id : String) (es : List TesEngineEvent) (n : ℤ)
    → ((run_id ≡ "") × (build_run_record run_id es n ≡ err empty_run_id))
      ⊎ (((run_id == "") ≡ false)
          × (ltb_ℤ n (pos 0) ≡ true)
          × (build_run_record run_id es n ≡ err negative_commands))
      ⊎ (r : SimulationRunRecord) × ((run_id == "") ≡ false)
        × (ltb_ℤ n (pos 0) ≡ false)
        × (build_run_record run_id es n ≡ ok r)
        × (r.run_id ≡ run_id)
        × (r.events ≡ es)
        × (r.summary.total_commands ≡ n)
        × (r.summary.total_events ≡ sum_counts (count_events es))
        × (r.summary.total_trades ≡ count_of "TradeExecuted" (count_events es))
        × (r.summary.total_order_accepted ≡ count_of "OrderAccepted" (count_events es))
        × (r.summary.total_order_canceled ≡ count_of "OrderCanceled" (count_events es))
unfolding build_run_record build_simulation_summary
build_run_record-counts run_id es n = elim (Bool-cases (run_id == "")) [
  | inl e ↦ inl ((eq_iff run_id "").0 e, rw (build_run_record, e) refl)
  | inr e ↦ elim (Bool-cases (ltb_ℤ n (pos 0))) [
    | inl f ↦ inr (inl (e, f, rw (build_run_record, build_simulation_summary, e, f) refl))
    | inr f ↦ inr (
        inr (
          _,
          e,
          f,
          rw (build_run_record, build_simulation_summary, e, f) refl,
          refl,
          refl,
          refl,
          sym (count_of-count_events "" es).1,
          sym (count_of-count_events "TradeExecuted" es).0,
          sym (count_of-count_events "OrderAccepted" es).0,
          sym (count_of-count_events "OrderCanceled" es).0,
        ))
  ]
]
