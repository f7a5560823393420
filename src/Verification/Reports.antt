-- ===== src/Verification/Reports.antt =====
-- `ReplayVerifier` of sim/tes_replay/verification.py. What it takes from Python is a parameter: == on
-- numbers and the like, the digest, and the difference of two numbers as floats.
use tirrad_exchange_system.Prelude.{
  String, Bool, true, false, not, ◌&&◌, ◌||◌, List, [], ◌∷◌, ◌++◌, Option, none, some, is_some,
  ◌==◌, map, select, if◌then◌else◌,
}
use tirrad_exchange_system.Prelude.Int.{ℤ, pos}
use tirrad_exchange_system.Prelude.Text.{text_leb}
use tirrad_exchange_system.Prelude.Sorting.{order_by}
use tirrad_exchange_system.Json.{
  Value, null, bool, int, float, text, object, Fields, end, field, get, has_key, Float,
}
use tirrad_exchange_system.Verification.Streams.{list_of, dict_of, first_divergence_step}
use tirrad_exchange_system.Verification.Hashes.{
  EventHashSummary, hash_value, hash_summary, Comparison, comparisons, value_of, int_value,
}

pub record Python : Type 0 where
  pub scalar_eq : Value → Value → Bool
  pub digest : Value → String
  pub minus : Value → Value → Float
  pub is_zero : Float → Bool

abbrev pub keys_of : Fields → List String
keys_of end = []
keys_of (field k v fs) = k ∷ keys_of fs

-- sorted(set(...)), one key at a time.
unfoldable pub insert_name : String → List String → List String
insert_name k [] = k ∷ []
insert_name k (j ∷ js) =
    let rest = j ∷ insert_name k js in
    if k == j then j ∷ js else if text_leb k j then k ∷ j ∷ js else rest

unfoldable pub sorted_names : List String → List String
unfolding insert_name
sorted_names [] = []
sorted_names (k ∷ ks) = insert_name k (sorted_names ks)

-- isinstance(value, int | float) for a value that is no bool.
abbrev pub is_number : Value → Bool
is_number (int n) = true
is_number (float f) = true
is_number _ = false

abbrev pub is_bool : Value → Bool
is_bool (bool b) = true
is_bool _ = false

-- The loop of metric_deltas.
unfoldable pub deltas_of : Python → Fields → Fields → List String → Fields
deltas_of p left right [] = end
deltas_of p left right (k ∷ ks) =
    let l = value_of (get k left) in
    let r = value_of (get k right) in
    let rest = deltas_of p left right ks in
    let d = p.minus r l in
    if is_number l && is_number r
    then (if p.is_zero d then rest else field k (float d) rest)
    else rest

unfoldable pub metric_deltas : Python → Fields → Fields → Fields
unfolding deltas_of sorted_names
metric_deltas p left right = deltas_of p left right (sorted_names (keys_of left ++ keys_of right))

-- not deltas
abbrev pub is_empty : Fields → Bool
is_empty end = true
is_empty (field k v fs) = false

unfoldable pub hash_comparison : String → String → String → Fields
hash_comparison name left right = field "field" (text name) (
    field "left" (text left)
      (field "right" (text right) (field "matches" (bool (left == right)) end)))

unfoldable pub sequence_divergence : EventHashSummary → EventHashSummary → Fields
sequence_divergence l r = field "left_sequence_count" (int (pos l.sequence_count)) (
    field "right_sequence_count" (int (pos r.sequence_count)) (
      field "left_sequence_hash" (text l.sequence_hash) (
        field "right_sequence_hash" (text r.sequence_hash)
          (field "matches" (bool (l.sequence_hash == r.sequence_hash)) end))))

abbrev pub pnl_keys : List String
pnl_keys =
    "realized_pnl" ∷ "unrealized_pnl" ∷ "ending_equity" ∷ "final_equity" ∷ "cash_balance" ∷ []

-- Here a bool counts as a number.
abbrev pub pnl_delta : Python → Value → Value → Value
pnl_delta p l r =
    if (is_number l || is_bool l) && (is_number r || is_bool r) then float (p.minus r l) else null

-- One entry of the dict, with its delta.
pub record PnlEntry : Type 0 where
  pub name : String
  pub left : Value
  pub right : Value
  pub delta : Value

unfoldable pub pnl_entries : Python → Fields → Fields → List String → List PnlEntry
pnl_entries p left right [] = []
pnl_entries p left right (k ∷ ks) =
    let l = value_of (get k left) in
    let r = value_of (get k right) in
    let rest = pnl_entries p left right ks in
    let entry : PnlEntry = record { name = k; left = l; right = r; delta = pnl_delta p l r } in
    if has_key k left || has_key k right then entry ∷ rest else rest

-- delta in (None, 0.0)
abbrev pub no_delta : Python → Value → Bool
no_delta p null = true
no_delta p (float d) = p.is_zero d
no_delta p _ = false

abbrev pub all_no_delta : Python → List PnlEntry → Bool
all_no_delta p [] = true
all_no_delta p (e ∷ es) = no_delta p e.delta && all_no_delta p es

abbrev pub last_or_empty : List Fields → Value
last_or_empty [] = object end
last_or_empty (x ∷ []) = object x
last_or_empty (x ∷ y ∷ xs) = last_or_empty (y ∷ xs)

abbrev pub no_items : List Fields → Bool
no_items [] = true
no_items (x ∷ xs) = false

abbrev pub entry_fields : List PnlEntry → Fields → Fields
entry_fields [] rest = rest
entry_fields (e ∷ es) rest =
    field e.name (object (field "left" e.left (field "right" e.right (field "delta" e.delta end))))
      (entry_fields es rest)

unfoldable pub pnl_divergence : Python → Fields → Fields → List Fields → List Fields → Fields
unfolding pnl_entries hash_value
pnl_divergence p left_report right_report left_accounts right_accounts =
    let entries = pnl_entries p left_report right_report pnl_keys in
    let matches = field "matches" (bool (all_no_delta p entries)) end in
    let hashes =
      field "left" (text (hash_value p.digest (last_or_empty left_accounts)))
        (field "right" (text (hash_value p.digest (last_or_empty right_accounts))) end) in
    entry_fields entries (
      if no_items left_accounts && no_items right_accounts
      then matches
      else field "final_account_hash" (object hashes) matches)

pub data ReplayVerificationStatus : Type 0 where
  verified mismatch partial failed : ReplayVerificationStatus

pub record ReplayVerificationReport : Type 0 where
  pub run_id : String
  pub status : ReplayVerificationStatus
  pub verified_at : String
  pub matching_fields : List String
  pub mismatched_fields : List String
  pub message : String
  pub original_hashes : EventHashSummary
  pub replay_hashes : Option EventHashSummary
  pub first_divergence_step : Option ℤ
  pub metric_deltas : Fields
  pub comparisons : List Comparison
  pub error : Option String

-- hash_summary of what a run's dict holds.
unfoldable pub artifact_hashes : Python → Fields → EventHashSummary
unfolding hash_summary list_of dict_of
artifact_hashes p run =
    hash_summary p.digest (list_of (get "events" run)) (list_of (get "snapshots" run))
      (list_of (get "accounts" run)) (dict_of (get "report" run))

-- sorted(key for key, value in comparisons.items() if value is `wanted`)
unfoldable pub fields_that : (Comparison → Bool) → List Comparison → List String
fields_that test cs = order_by text_leb (map (λ c. c.name) (select test cs))

abbrev pub no_names : List String → Bool
no_names [] = true
no_names (k ∷ ks) = false

unfoldable pub failed_report :
    String → String → EventHashSummary → Option String → ReplayVerificationReport
failed_report run_id now hashes error = record {
  run_id = run_id;
  status = failed;
  verified_at = now;
  matching_fields = [];
  mismatched_fields = "rerun" ∷ [];
  message = "Replay re-execution failed.";
  original_hashes = hashes;
  replay_hashes = none;
  first_divergence_step = none;
  metric_deltas = end;
  comparisons = record { name = "rerun"; matches = false } ∷ [];
  error = error;
}

-- comparisons["report_metrics"] = False, if there are deltas.
unfoldable pub verify_comparisons : Python → Fields → Fields → List Comparison
unfolding comparisons artifact_hashes metric_deltas dict_of
verify_comparisons p original replayed =
    comparisons (artifact_hashes p original) (artifact_hashes p replayed)
    ++ (if is_empty
          (metric_deltas p (dict_of (get "report" original)) (dict_of (get "report" replayed)))
        then []
        else record { name = "report_metrics"; matches = false } ∷ [])

unfoldable pub compared_report :
    Python → String → String → Fields → Fields → ReplayVerificationReport
unfolding verify_comparisons artifact_hashes metric_deltas dict_of fields_that first_divergence_step
compared_report p run_id now original replayed =
    let checks = verify_comparisons p original replayed in
    let mismatched = fields_that (λ c. not c.matches) checks in
    let is_verified = no_names mismatched in
    record {
      run_id = run_id;
      status = if is_verified then verified else mismatch;
      verified_at = now;
      matching_fields = fields_that (λ c. c.matches) checks;
      mismatched_fields = mismatched;
      message =
          if is_verified
          then "Replay matched stored artifacts."
          else "Replay diverged from stored artifacts.";
      original_hashes = artifact_hashes p original;
      replay_hashes = some (artifact_hashes p replayed);
      first_divergence_step = first_divergence_step p.scalar_eq original replayed;
      metric_deltas =
          metric_deltas p (dict_of (get "report" original)) (dict_of (get "report" replayed));
      comparisons = checks;
      error = none;
    }

unfoldable pub verify :
    Python → String → String → Fields → Option Fields → Option String → ReplayVerificationReport
unfolding failed_report compared_report artifact_hashes
verify p run_id now original none error =
    failed_report run_id now (artifact_hashes p original) error
verify p run_id now original (some replayed) (some e) =
    failed_report run_id now (artifact_hashes p original) (some e)
verify p run_id now original (some replayed) none = compared_report p run_id now original replayed

pub data RunDiffStatus : Type 0 where
  matching mismatch partial failed : RunDiffStatus

pub record RunDiffResult : Type 0 where
  pub left_run_id : String
  pub right_run_id : String
  pub status : RunDiffStatus
  pub generated_at : String
  pub matching_fields : List String
  pub mismatched_fields : List String
  pub first_divergence_step : Option ℤ
  pub metric_deltas : Fields
  pub event_hash_comparison : Fields
  pub snapshot_hash_comparison : Fields
  pub account_hash_comparison : Fields
  pub report_hash_comparison : Fields
  pub timeline_divergence : Fields
  pub pnl_divergence : Fields
  pub sequence_divergence : Fields
  pub left_hashes : EventHashSummary
  pub right_hashes : EventHashSummary

unfoldable pub diff_runs : Python → String → String → String → Fields → Fields → RunDiffResult
unfolding comparisons artifact_hashes metric_deltas dict_of list_of fields_that
    first_divergence_step hash_comparison pnl_divergence sequence_divergence
diff_runs p left_run_id right_run_id now left right =
    let l = artifact_hashes p left in
    let r = artifact_hashes p right in
    let left_report = dict_of (get "report" left) in
    let right_report = dict_of (get "report" right) in
    let deltas = metric_deltas p left_report right_report in
    let checks =
      comparisons l r ++ record { name = "report_metrics"; matches = is_empty deltas } ∷ [] in
    let mismatched = fields_that (λ c. not c.matches) checks in
    let divergence = first_divergence_step p.scalar_eq left right in
    record {
      left_run_id = left_run_id;
      right_run_id = right_run_id;
      status = if no_names mismatched then matching else mismatch;
      generated_at = now;
      matching_fields = fields_that (λ c. c.matches) checks;
      mismatched_fields = mismatched;
      first_divergence_step = divergence;
      metric_deltas = deltas;
      event_hash_comparison = hash_comparison "event_hash" l.event_hash r.event_hash;
      snapshot_hash_comparison = hash_comparison "snapshot_hash" l.snapshot_hash r.snapshot_hash;
      account_hash_comparison = hash_comparison "account_hash" l.account_hash r.account_hash;
      report_hash_comparison = hash_comparison "report_hash" l.report_hash r.report_hash;
      timeline_divergence =
          field "first_divergence_step" (int_value divergence)
            (field "matches" (bool (not (is_some divergence))) end);
      pnl_divergence =
          pnl_divergence p left_report right_report (list_of (get "accounts" left))
            (list_of (get "accounts" right));
      sequence_divergence = sequence_divergence l r;
      left_hashes = l;
      right_hashes = r;
    }
