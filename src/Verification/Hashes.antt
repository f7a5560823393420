-- ===== src/Verification/Hashes.antt =====
-- The hashes of a run's artifacts in sim/tes_replay/verification.py. The digest of a value, sha256 over
-- json.dumps with sorted keys, is a parameter.
use tirrad_exchange_system.Prelude.{
  ℕ, ◌+◌, String, Bool, List, [], ◌∷◌, ◌++◌, Option, none, some, ◌==◌, eqb, length, count, map,
}
use tirrad_exchange_system.Prelude.Int.{ℤ, pos}
use tirrad_exchange_system.Json.{
  Value, null, int, text, array, object, Fields, end, field, get, array_of,
}
use tirrad_exchange_system.Storage.Selection.{equals_text}
use tirrad_exchange_system.Verification.Normal.{normalize}
use tirrad_exchange_system.Verification.Streams.{step_of}

pub record EventHashSummary : Type 0 where
  pub event_hash : String
  pub snapshot_hash : String
  pub account_hash : String
  pub report_hash : String
  pub combined_hash : String
  pub event_count : ℕ
  pub snapshot_count : ℕ
  pub account_count : ℕ
  pub trade_count : ℕ
  pub sequence_count : ℕ
  pub sequence_hash : String

unfoldable pub hash_value : (Value → String) → Value → String
unfolding normalize
hash_value digest v = digest (normalize v)

-- [_normalize(item) for item in items]
unfoldable pub normal_stream : List Fields → Value
unfolding normalize
normal_stream items = array (array_of (map (λ item. normalize (object item)) items))

unfoldable pub hash_stream : (Value → String) → List Fields → String
unfolding hash_value normal_stream
hash_stream digest items = hash_value digest (normal_stream items)

abbrev pub value_of : Option Value → Value
value_of none = null
value_of (some v) = v

abbrev pub int_value : Option ℤ → Value
int_value none = null
int_value (some n) = int n

-- The rows of one stream, from `index` on.
unfoldable pub sequence_rows : String → ℕ → List Fields → List Value
unfolding step_of
sequence_rows stream index [] = []
sequence_rows stream index (item ∷ items) =
    object (
      field "stream" (text stream) (
        field "index" (int (pos index)) (
          field "step" (int_value (step_of item)) (field "type" (value_of (get "type" item)) end))))
    ∷ sequence_rows stream (index + 1) items

unfoldable pub sequence_numbers : List Fields → List Fields → List Fields → List Value
unfolding sequence_rows
sequence_numbers events snapshots accounts =
    sequence_rows "event" 0 events
    ++ (sequence_rows "snapshot" 0 snapshots ++ sequence_rows "account" 0 accounts)

abbrev pub is_trade : Fields → Bool
is_trade event = equals_text (get "type" event) "TradeExecuted"

unfoldable pub hash_summary :
    (Value → String) → List Fields → List Fields → List Fields → Fields → EventHashSummary
unfolding hash_stream hash_value sequence_numbers
hash_summary digest events snapshots accounts report =
    let event_hash = hash_stream digest events in
    let snapshot_hash = hash_stream digest snapshots in
    let account_hash = hash_stream digest accounts in
    let report_hash = hash_value digest (object report) in
    let rows = sequence_numbers events snapshots accounts in
    let sequence_hash = hash_value digest (array (array_of rows)) in
    record {
      event_hash = event_hash;
      snapshot_hash = snapshot_hash;
      account_hash = account_hash;
      report_hash = report_hash;
      combined_hash = hash_value digest (
          object (
            field "events" (text event_hash) (
              field "snapshots" (text snapshot_hash) (
                field "accounts" (text account_hash) (
                  field "report" (text report_hash)
                    (field "sequence" (text sequence_hash) end))))));
      event_count = length events;
      snapshot_count = length snapshots;
      account_count = length accounts;
      trade_count = count is_trade events;
      sequence_count = length rows;
      sequence_hash = sequence_hash;
    }

-- An entry of `comparisons`.
pub record Comparison : Type 0 where
  pub name : String
  pub matches : Bool

abbrev compared : String → Bool → Comparison
compared name matches = record { name = name; matches = matches }

unfoldable pub comparisons : EventHashSummary → EventHashSummary → List Comparison
comparisons l r =
    compared "event_count" (eqb l.event_count r.event_count)
    ∷ compared "trade_count" (eqb l.trade_count r.trade_count)
    ∷ compared "snapshot_count" (eqb l.snapshot_count r.snapshot_count)
    ∷ compared "account_count" (eqb l.account_count r.account_count)
    ∷ compared "event_hash" (l.event_hash == r.event_hash)
    ∷ compared "snapshot_hash" (l.snapshot_hash == r.snapshot_hash)
    ∷ compared "account_hash" (l.account_hash == r.account_hash)
    ∷ compared "report_hash" (l.report_hash == r.report_hash)
    ∷ compared "sequence_numbers" (l.sequence_hash == r.sequence_hash)
    ∷ []
