-- ===== src/Verification/Outcomes.antt =====
-- What a verified replay is worth: `verify` of sim/tes_replay/verification.py.
use tirrad_exchange_system.Prelude.{
  ◌≡◌, refl, ap, sym, ◌∙◌, String, Bool, true, false, not, List, [], ◌∷◌, ◌++◌, Option, none, some,
  All, map, select, inl, inr, Bool-cases, eq_iff, if◌then◌else◌,
}
use tirrad_exchange_system.Prelude.Text.{text_leb}
use tirrad_exchange_system.Prelude.Sorting.{insert, order_by}
use tirrad_exchange_system.Json.{Value, object, array, Fields, get, array_of}
use tirrad_exchange_system.Verification.Normal.{normalize, normalize_items}
use tirrad_exchange_system.Verification.Normal.Stable.{normalize-normalize}
use tirrad_exchange_system.Verification.Streams.{list_of, dict_of}
use tirrad_exchange_system.Verification.Hashes.{
  normal_stream, hash_stream, hash_value, hash_summary, EventHashSummary, Comparison, comparisons,
}
use tirrad_exchange_system.Verification.Reports.{
  Python, metric_deltas, is_empty, artifact_hashes, fields_that, no_names, verify_comparisons,
  compared_report, verify, failed_report, verified, mismatch,
}

no_names-insert : (k : String) (ks : List String) → no_names (insert text_leb k ks) ≡ false
unfolding insert
no_names-insert k [] = refl
no_names-insert k (j ∷ js) = elim (Bool-cases (text_leb k j)) [
  | inl e ↦ rw e refl
  | inr e ↦ rw e refl
]

-- No field is reported as a mismatch only if every comparison holds.
no_names-fields_that :
    (cs : List Comparison)
    → no_names (fields_that (λ c. not c.matches) cs) ≡ true
    → All (λ c. c.matches ≡ true) cs
unfolding fields_that select order_by
no_names-fields_that [] h = tt
no_names-fields_that (c ∷ cs) h = elim (Bool-cases c.matches) [
  | inl e ↦ (e, no_names-fields_that cs (rw e at h))
  | inr e ↦ absurd (apart (rw e at h))
]
  where
    apart :
        no_names (
            insert text_leb c.name
              (order_by text_leb (map (λ d. d.name) (select (λ d. not d.matches) cs))))
          ≡ true
        → ⊥
    apart k = cc (
      no_names-insert c.name
          (order_by text_leb (map (λ d. d.name) (select (λ d. not d.matches) cs))),
      k,
    )

normalize-normal_stream :
    (items : List Fields) → normalize (normal_stream items) ≡ normal_stream items
unfolding normal_stream normalize
normalize-normal_stream items = ap array (all items)
  where
    all :
        (xs : List Fields)
        → normalize_items (array_of (map (λ x. normalize (object x)) xs))
          ≡ array_of (map (λ x. normalize (object x)) xs)
    all [] = refl
    all (x ∷ xs) = rw (normalize-normalize (object x), all xs) refl

-- Equal hashes of streams are equal digests of their normal forms.
hash_stream-eq :
    (digest : Value → String) (xs ys : List Fields)
    → hash_stream digest xs ≡ hash_stream digest ys
    → digest (normal_stream xs) ≡ digest (normal_stream ys)
unfolding hash_stream hash_value
hash_stream-eq digest xs ys h =
    ap digest (sym (normalize-normal_stream xs)) ∙ h ∙ ap digest (normalize-normal_stream ys)

unfoldable pub stream_of : String → Fields → Value
unfolding list_of normal_stream
stream_of name run = normal_stream (list_of (get name run))

unfoldable pub report_of : Fields → Value
unfolding dict_of normalize
report_of run = normalize (object (dict_of (get "report" run)))

All-++ :
    (xs ys : List Comparison)
    → All (λ c. c.matches ≡ true) (xs ++ ys)
    → All (λ c. c.matches ≡ true) xs × All (λ c. c.matches ≡ true) ys
All-++ [] ys h = (tt, h)
All-++ (x ∷ xs) ys (e, h) = let (a, b) = All-++ xs ys h in ((e, a), b)

no_extra :
    (b : Bool)
    → All {A = Comparison}
        (λ c. c.matches ≡ true)
        (if b then [] else record { name = "report_metrics"; matches = false } ∷ [])
    → b ≡ true
no_extra true h = refl
no_extra false h = h.0

status_verified : (b : Bool) → (if b then verified else mismatch) ≡ verified → b ≡ true
status_verified true h = refl
status_verified false h = cc

checks_of :
    (p : Python) (original replayed : Fields)
    → All (λ c. c.matches ≡ true) (verify_comparisons p original replayed)
    → All
        (λ c. c.matches ≡ true)
        (comparisons (artifact_hashes p original) (artifact_hashes p replayed))
      × (is_empty
            (metric_deltas p (dict_of (get "report" original)) (dict_of (get "report" replayed)))
          ≡ true)
unfolding verify_comparisons
checks_of p original replayed h =
    let (checks, extra) =
      All-++ (comparisons (artifact_hashes p original) (artifact_hashes p replayed)) _ h in
    (checks, no_extra _ extra)

hashes_of :
    (l r : EventHashSummary)
    → All (λ c. c.matches ≡ true) (comparisons l r)
    → (l.event_hash ≡ r.event_hash)
      × (l.snapshot_hash ≡ r.snapshot_hash)
      × (l.account_hash ≡ r.account_hash)
      × (l.report_hash ≡ r.report_hash)
unfolding comparisons
hashes_of l r (_, (_, (_, (_, (e, (s, (a, (t, _)))))))) = (
  (eq_iff l.event_hash r.event_hash).0 e,
  (eq_iff l.snapshot_hash r.snapshot_hash).0 s,
  (eq_iff l.account_hash r.account_hash).0 a,
  (eq_iff l.report_hash r.report_hash).0 t,
)

verified_checks :
    (p : Python) (run_id now : String) (original replayed : Fields)
    → (compared_report p run_id now original replayed).status ≡ verified
    → All (λ c. c.matches ≡ true) (verify_comparisons p original replayed)
unfolding compared_report
verified_checks p run_id now original replayed h =
    no_names-fields_that (verify_comparisons p original replayed) (status_verified _ h)

-- A replay is verified only if it was executed without error, its events, its snapshots, its accounts and
-- its report are those of the original, time stamps and the order of keys aside, and no metric of the
-- report differs; provided that the digests do not collide on these four.
pub verify-verified :
    (p : Python) (run_id now : String) (original replayed : Fields) (error : Option String)
    → (p.digest (stream_of "events" original) ≡ p.digest (stream_of "events" replayed)
        → stream_of "events" original ≡ stream_of "events" replayed)
    → (p.digest (stream_of "snapshots" original) ≡ p.digest (stream_of "snapshots" replayed)
        → stream_of "snapshots" original ≡ stream_of "snapshots" replayed)
    → (p.digest (stream_of "accounts" original) ≡ p.digest (stream_of "accounts" replayed)
        → stream_of "accounts" original ≡ stream_of "accounts" replayed)
    → (p.digest (report_of original) ≡ p.digest (report_of replayed)
        → report_of original ≡ report_of replayed)
    → (verify p run_id now original (some replayed) error).status ≡ verified
    → (error ≡ none)
      × (stream_of "events" original ≡ stream_of "events" replayed)
      × (stream_of "snapshots" original ≡ stream_of "snapshots" replayed)
      × (stream_of "accounts" original ≡ stream_of "accounts" replayed)
      × (report_of original ≡ report_of replayed)
      × (is_empty
            (metric_deltas p (dict_of (get "report" original)) (dict_of (get "report" replayed)))
          ≡ true)
unfolding verify failed_report artifact_hashes hash_summary stream_of report_of hash_value
verify-verified p run_id now original replayed (some e) ev sn ac re h = cc
verify-verified p run_id now original replayed none ev sn ac re h =
    let (checks, metrics) =
      checks_of p original replayed (verified_checks p run_id now original replayed h) in
    let (events, snapshots, accounts, report) =
      hashes_of (artifact_hashes p original) (artifact_hashes p replayed) checks in
    (
      refl,
      ev (hash_stream-eq p.digest _ _ events),
      sn (hash_stream-eq p.digest _ _ snapshots),
      ac (hash_stream-eq p.digest _ _ accounts),
      re report,
      metrics,
    )
