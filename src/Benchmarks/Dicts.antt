-- ===== src/Benchmarks/Dicts.antt =====
-- The dicts of benchmark results, the methods to_dict and from_dict of sim/tes_benchmarks/models.py.
use tirrad_exchange_system.Prelude.{
  ℕ, String, Option, none, some, List, [], map, ◌==◌, if◌then◌else◌,
}
use tirrad_exchange_system.Prelude.Int.{ℤ}
use tirrad_exchange_system.Prelude.Results.{Result, ok, err, ◌>>=◌, map_result}
use tirrad_exchange_system.Json.{
  Value, null, bool, int, float, text, array, object, Fields, end, field, get, Float, items_of,
  array_of,
}
use tirrad_exchange_system.Benchmarks.{
  BenchmarkScenario, BenchmarkRun, ScenarioComparison, BenchmarkComparison,
}

-- What comes from outside: str(x), float(x) and dict(x), which may raise, isoformat, and
-- datetime.fromisoformat with UTC where there is no time zone.
pub record Outside : Type 0 where
  pub str_of : Value → String
  pub float_of : Value → Option Float
  pub dict_of : Value → Option Fields
  pub isoformat : ℕ → String
  pub fromisoformat : String → Option ℕ

-- KeyError; the ValueError of _require_int; what float, dict, fromisoformat or a wrong type raise.
pub data DictError : Type 0 where
  missing : String → DictError
  not_an_integer : String → DictError
  malformed : Value → DictError

-- if self.notes is not None: payload["notes"] = self.notes, the last entry.
abbrev pub notes_entry : Option String → Fields
notes_entry none = end
notes_entry (some notes) = field "notes" (text notes) end

abbrev pub text_or_null : Option String → Value
text_or_null none = null
text_or_null (some s) = text s

abbrev float_or_null : Option Float → Value
float_or_null none = null
float_or_null (some x) = float x

unfoldable pub scenario_to_dict : BenchmarkScenario → Fields
scenario_to_dict s = field "name" (text s.name) (
    field "operation_count" (int s.operation_count) (
      field "elapsed_ms" (float s.elapsed_ms) (
        field "ops_per_sec" (float s.ops_per_sec)
          (field "config" (object s.config) (notes_entry s.notes)))))

unfoldable pub run_to_dict : Outside → BenchmarkRun → Fields
unfolding scenario_to_dict
run_to_dict o r = field "benchmark_id" (text r.benchmark_id) (
    field "created_at" (text (o.isoformat r.created_at)) (
      field "git_sha" (text_or_null r.git_sha) (
        field "machine" (object r.machine) (
          field "scenarios" (array (array_of (map (λ s. object (scenario_to_dict s)) r.scenarios)))
            (field "config" (object r.config) (notes_entry r.notes))))))

unfoldable pub scenario_comparison_to_dict : ScenarioComparison → Fields
scenario_comparison_to_dict c = field "name" (text c.name) (
    field "baseline_ops_per_sec" (float_or_null c.baseline_ops_per_sec) (
      field "candidate_ops_per_sec" (float_or_null c.candidate_ops_per_sec) (
        field "percent_delta" (float_or_null c.percent_delta) (
          field "regression" (bool c.regression) (
            field "improvement" (bool c.improvement)
              (field "threshold_percent" (float c.threshold_percent) end))))))

unfoldable pub comparison_to_dict : BenchmarkComparison → Fields
unfolding scenario_comparison_to_dict
comparison_to_dict c = field "baseline_id" (text c.baseline_id) (
    field "candidate_id" (text c.candidate_id) (
      field "threshold_percent" (float c.threshold_percent) (
        field "has_regression" (bool c.has_regression) (
          field "scenarios"
            (array (array_of (map (λ s. object (scenario_comparison_to_dict s)) c.scenarios)))
            end))))

-- payload[key]
abbrev required : String → Fields → Result DictError Value
required key payload = elim (get key payload) [ none ↦ err (missing key) | some v ↦ ok v ]

-- A call that may raise on the value.
abbrev or_malformed : {A : Type 0} → Value → Option A → Result DictError A
or_malformed v none = err (malformed v)
or_malformed v (some a) = ok a

unfoldable pub require_int : Value → String → Result DictError ℤ
require_int (int n) field_name = ok n
require_int _ field_name = err (not_an_integer field_name)

-- str(payload[key]) if payload.get(key) is not None else None
unfoldable pub optional_text : Outside → String → Fields → Option String
optional_text o key payload = elim (get key payload) [
  | none ↦ none
  | some null ↦ none
  | some v ↦ some (o.str_of v)
]

-- dict(payload.get(key, {}))
abbrev optional_dict : Outside → String → Fields → Result DictError Fields
optional_dict o key payload = elim (get key payload) [
  | none ↦ ok end
  | some v ↦ or_malformed v (o.dict_of v)
]

unfoldable pub scenario_from_dict : Outside → Fields → Result DictError BenchmarkScenario
unfolding require_int optional_text
scenario_from_dict o payload = do
  name ← required "name" payload
  operations ← required "operation_count" payload
  operation_count ← require_int operations "operation_count"
  elapsed ← required "elapsed_ms" payload
  elapsed_ms ← or_malformed elapsed (o.float_of elapsed)
  ops ← required "ops_per_sec" payload
  ops_per_sec ← or_malformed ops (o.float_of ops)
  config ← optional_dict o "config" payload
  ok (record {
    name = o.str_of name;
    operation_count = operation_count;
    elapsed_ms = elapsed_ms;
    ops_per_sec = ops_per_sec;
    notes = optional_text o "notes" payload;
    config = config;
  })

-- An item that is no dict cannot be indexed by a text.
abbrev pub scenario_from_value : Outside → Value → Result DictError BenchmarkScenario
scenario_from_value o (object payload) = scenario_from_dict o payload
scenario_from_value o v = err (malformed v)

-- The items that the comprehension runs over. Those of a text or of a dict are texts, so it raises at the
-- first one, and gives an empty list where there is none.
unfoldable pub scenario_items : Option Value → Result DictError (List Value)
scenario_items none = ok []
scenario_items (some (array vs)) = ok (items_of vs)
scenario_items (some (object end)) = ok []
scenario_items (some (text s)) = if s == "" then ok [] else err (malformed (text s))
scenario_items (some v) = err (malformed v)

unfoldable pub run_from_dict : Outside → Fields → Result DictError BenchmarkRun
unfolding optional_text scenario_items scenario_from_dict map_result
run_from_dict o payload = do
  benchmark_id ← required "benchmark_id" payload
  created ← required "created_at" payload
  created_at ← or_malformed created (o.fromisoformat (o.str_of created))
  machine ← optional_dict o "machine" payload
  items ← scenario_items (get "scenarios" payload)
  scenarios ← map_result (scenario_from_value o) items
  config ← optional_dict o "config" payload
  ok (record {
    benchmark_id = o.str_of benchmark_id;
    created_at = created_at;
    git_sha = optional_text o "git_sha" payload;
    machine = machine;
    scenarios = scenarios;
    notes = optional_text o "notes" payload;
    config = config;
  })
