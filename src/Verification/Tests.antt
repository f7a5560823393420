-- ===== src/Verification/Tests.antt =====
-- The theorems on verified replays at concrete runs.
use tirrad_exchange_system.Prelude.{
  ℕ, ◌+◌, ◌≡◌, refl, ◌↔◌, String, Bool, true, false, [], ◌∷◌, Option, none, some, ◌==◌, select,
}
use tirrad_exchange_system.Prelude.Int.{pos, eqb_ℤ}
use tirrad_exchange_system.Prelude.Text.{text_leb}
use tirrad_exchange_system.Prelude.Sorting.{order_by}
use tirrad_exchange_system.Json.{
  Value, int, text, array, object, cons, nil, Fields, end, field, get,
}
use tirrad_exchange_system.Verification.Streams.{
  step_of, or_step, same_item, stream_divergence_step, dict_of,
}
use tirrad_exchange_system.Verification.Streams.Agreement.{
  Agree, stream_divergence_step-none, stream_divergence_step-first,
}
use tirrad_exchange_system.Verification.Reports.{Python, verify, verified, metric_deltas, is_empty}
use tirrad_exchange_system.Verification.Outcomes.{stream_of, report_of, verify-verified}

abbrev scalars_eq : Value → Value → Bool
scalars_eq (int m) (int n) = eqb_ℤ m n
scalars_eq (text s) (text t) = s == t
scalars_eq _ _ = false

abbrev python : Python
python = record {
  scalar_eq = scalars_eq;
  digest = λ v. "0";
  minus = λ v w. "0.0";
  is_zero = λ d. d == "0.0";
}

abbrev an_event : ℕ → String → Fields
an_event step time =
    field "type" (text "TradeExecuted")
      (field "timestamp" (text time) (field "step" (int (pos step)) end))

abbrev a_run : String → Fields
a_run time =
    field "events" (array (cons (object (an_event 1 time)) nil))
      (field "report" (object (field "total_trades" (int (pos 1)) end)) end)

stream_divergence_step-none_example :
    (stream_divergence_step scalars_eq (an_event 1 "noon" ∷ []) (an_event 1 "night" ∷ []) ≡ none)
    ↔ Agree scalars_eq (an_event 1 "noon" ∷ []) (an_event 1 "night" ∷ [])
stream_divergence_step-none_example =
    stream_divergence_step-none scalars_eq (an_event 1 "noon" ∷ []) (an_event 1 "night" ∷ [])

same_test : same_item scalars_eq (an_event 1 "noon") (an_event 1 "night") ≡ true
unfolding same_item text_leb
same_test = refl

differs_test : same_item scalars_eq (an_event 0 "noon") (an_event 3 "noon") ≡ false
unfolding same_item text_leb
differs_test = refl

-- The step 0 of the left item is passed over.
stream_divergence_step-first_example :
    stream_divergence_step scalars_eq
      (an_event 1 "noon" ∷ an_event 0 "noon" ∷ [])
      (an_event 1 "night" ∷ an_event 3 "noon" ∷ [])
    ≡ some (
        or_step (step_of (an_event 0 "noon")) (or_step (step_of (an_event 3 "noon")) (pos (1 + 1))))
stream_divergence_step-first_example =
    stream_divergence_step-first scalars_eq (an_event 1 "noon" ∷ []) (an_event 1 "night" ∷ [])
      (an_event 0 "noon") (an_event 3 "noon") [] [] (same_test, tt) differs_test

verified_test :
    (verify python "a" "now" (a_run "noon") (some (a_run "night")) none).status ≡ verified
unfolding verify select order_by text_leb
verified_test = refl

verify-verified_example :
    (◌≡◌ {A = Option String} none none)
    × (stream_of "events" (a_run "noon") ≡ stream_of "events" (a_run "night"))
    × (stream_of "snapshots" (a_run "noon") ≡ stream_of "snapshots" (a_run "night"))
    × (stream_of "accounts" (a_run "noon") ≡ stream_of "accounts" (a_run "night"))
    × (report_of (a_run "noon") ≡ report_of (a_run "night"))
    × (is_empty (
          metric_deltas python
            (dict_of (get "report" (a_run "noon")))
            (dict_of (get "report" (a_run "night"))))
        ≡ true)
unfolding stream_of report_of
verify-verified_example =
    verify-verified python "a" "now" (a_run "noon") (a_run "night") none (λ e. refl) (λ e. refl)
      (λ e. refl) (λ e. refl) verified_test
