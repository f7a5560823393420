-- ===== src/Streaming/Messages.antt =====
-- The messages of sim/api/services/stream_service.py and their logs.
use tirrad_exchange_system.Prelude.{
  ℕ, String, Option, none, some, List, [], ◌∷◌, or_else, if◌then◌else◌,
}
use tirrad_exchange_system.Prelude.Int.{ℤ}
use tirrad_exchange_system.Prelude.Results.{Result, ok, err}
use tirrad_exchange_system.Json.{Value, null, int, text, object, Fields, end, field, get, one_of}
use tirrad_exchange_system.Services.Values.{or_value}

pub record StreamMessage : Type 0 where
  pub run_id : String
  pub timestamp : ℕ
  pub step : Option ℤ
  pub category : String
  pub type : String
  pub payload : Fields

-- The ValueError of a run id that is not the one published to; that of a category, or the TypeError of
-- one that cannot be hashed; and the validation error of a stored message.
pub data StreamError : Type 0 where
  run_id_mismatch : StreamError
  invalid_category : Option Value → StreamError
  invalid_message : Fields → StreamError

-- A dict that is published. A timestamp is taken where it is a datetime, which no JSON value is, so
-- it stands apart.
pub record MessageDict : Type 0 where
  pub timestamp : Option ℕ
  pub fields : Fields

-- What comes from outside: str, isoformat with "Z", datetime.fromisoformat after the replacement of
-- "Z", model_dump(mode="json") and model_validate of a StreamMessage.
pub record Outside : Type 0 where
  pub str_of : Value → String
  pub isoformat : ℕ → String
  pub fromisoformat : String → Option ℕ
  pub dump : StreamMessage → Fields
  pub validate : Fields → Option StreamMessage

abbrev pub categories : List String
categories =
    "status" ∷ "progress" ∷ "event" ∷ "snapshot" ∷ "account" ∷ "log" ∷ "error" ∷ "completed" ∷ []

-- value if isinstance(value, int) and not isinstance(value, bool) else None
abbrev pub plain_int : Option Value → Option ℤ
plain_int (some (int n)) = some n
plain_int _ = none

abbrev pub dict_or_empty : Option Value → Fields
dict_or_empty (some (object fs)) = fs
dict_or_empty _ = end

-- str(first or second or default)
abbrev pub text_of : (Value → String) → Option Value → String → String
text_of str_of none default = default
text_of str_of (some v) default = str_of v

unfoldable pub coerce_dict : Outside → String → ℕ → MessageDict → Result StreamError StreamMessage
coerce_dict o run_id now d = elim (get "category" d.fields) [
  | some (text c) ↦
      if one_of c categories
      then ok (record {
        run_id = run_id;
        timestamp = or_else d.timestamp now;
        step = plain_int (get "step" d.fields);
        category = c;
        type =
            text_of o.str_of
              (or_value (or_value (get "type" d.fields) (some (text c))) (some (text "message")))
              "message";
        payload = dict_or_empty (get "payload" d.fields);
      })
      else err (invalid_category (some (text c)))
  | other ↦ err (invalid_category other)
]

abbrev int_or_null : Option ℤ → Value
int_or_null none = null
int_or_null (some n) = int n

unfoldable pub to_log : Outside → StreamMessage → Fields
to_log o m = field "timestamp" (text (o.isoformat m.timestamp)) (
    field "step" (int_or_null m.step) (
      field "level" (text m.category) (
        field "category" (text m.category) (
          field "type" (text m.type) (
            field "message" (text m.type)
              (field "payload" (object m.payload) (field "stream" (object (o.dump m)) end)))))))

-- _parse_timestamp of a JSON value; a text that is no time raises.
unfoldable pub parse_timestamp : Outside → ℕ → Option Value → Option ℕ
parse_timestamp o now (some (text s)) = o.fromisoformat s
parse_timestamp o now _ = some now

-- The message of a log without a "stream": a category or a time that is not one gives None.
unfoldable pub log_message : Outside → String → ℕ → String → Fields → Option StreamMessage
unfolding parse_timestamp
log_message o run_id now category log = elim (parse_timestamp o now (get "timestamp" log)) [
  | none ↦ none
  | some t ↦
      if one_of category categories
      then some (record {
        run_id = run_id;
        timestamp = t;
        step = plain_int (get "step" log);
        category = category;
        type =
            text_of o.str_of
              (or_value (or_value (get "type" log) (get "message" log)) (some (text category)))
              category;
        payload = dict_or_empty (get "payload" log);
      })
      else none
]

abbrev or_invalid : Fields → Option StreamMessage → Result StreamError (Option StreamMessage)
or_invalid fs none = err (invalid_message fs)
or_invalid fs (some m) = ok (some m)

unfoldable pub from_log : Outside → String → ℕ → Fields → Result StreamError (Option StreamMessage)
unfolding log_message
from_log o run_id now log = elim (get "stream" log) [
  | some (object fs) ↦ or_invalid fs (o.validate fs)
  | other ↦ elim (or_value (get "category" log) (get "level" log)) [
    | some (text c) ↦ ok (log_message o run_id now c log)
    | none_or_other ↦ ok none
  ]
]
