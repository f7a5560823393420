-- ===== src/Benchmarks/RoundTrip.antt =====
-- That the dicts of sim/tes_benchmarks/models.py are read back as they were.
use tirrad_exchange_system.Prelude.{
  ℕ, ◌≡◌, refl, ap, String, Option, none, some, List, [], ◌∷◌, map,
}
use tirrad_exchange_system.Prelude.Results.{ok, map_result}
use tirrad_exchange_system.Json.{text, float, object, Fields, end, field, Float, items_of, array_of}
use tirrad_exchange_system.Benchmarks.{BenchmarkScenario, BenchmarkRun}
use tirrad_exchange_system.Benchmarks.Dicts.{
  Outside, scenario_to_dict, scenario_from_dict, scenario_from_value, scenario_items, run_to_dict,
  run_from_dict, optional_text, require_int, notes_entry, text_or_null,
}

-- What Python documents: str of a text, float of a float and dict of a dict are the same again, and
-- fromisoformat reads what isoformat writes.
pub record Documented (o : Outside) : Type 0 where
  pub texts : (s : String) → o.str_of (text s) ≡ s
  pub floats : (x : Float) → o.float_of (float x) ≡ some x
  pub dicts : (fs : Fields) → o.dict_of (object fs) ≡ some fs
  pub times : (t : ℕ) → o.fromisoformat (o.isoformat t) ≡ some t

module _ (o : Outside) (d : Documented o) where
  -- The two optional texts.
  notes_read : (n : Option String) → optional_text o "notes" (notes_entry n) ≡ n
  unfolding optional_text
  notes_read none = refl
  notes_read (some n) = ap some (d.texts n)

  text_read :
      (n : Option String) (rest : Fields)
      → optional_text o "git_sha" (field "git_sha" (text_or_null n) rest) ≡ n
  unfolding optional_text
  text_read none rest = refl
  text_read (some n) rest = ap some (d.texts n)

  scenario_from_dict-to_dict :
      (s : BenchmarkScenario) → scenario_from_dict o (scenario_to_dict s) ≡ ok s
  unfolding scenario_from_dict scenario_to_dict require_int optional_text
  scenario_from_dict-to_dict s =
      rw
        (
          scenario_to_dict,
          d.floats s.elapsed_ms,
          d.floats s.ops_per_sec,
          d.dicts s.config,
          d.texts s.name,
          notes_read s.notes,
        )
        refl

  scenarios_read :
      (ss : List BenchmarkScenario)
      → map_result
          (scenario_from_value o)
          (items_of (array_of (map (λ s. object (scenario_to_dict s)) ss)))
        ≡ ok ss
  unfolding map_result
  scenarios_read [] = refl
  scenarios_read (s ∷ ss) = rw (scenario_from_dict-to_dict s, scenarios_read ss) refl

  -- What BenchmarkRun.to_dict gives, from_dict reads back as the same run.
  pub run_from_dict-run_to_dict : (r : BenchmarkRun) → run_from_dict o (run_to_dict o r) ≡ ok r
  unfolding run_from_dict run_to_dict scenario_items optional_text
  run_from_dict-run_to_dict r =
      rw
        (
          run_to_dict,
          d.texts r.benchmark_id,
          d.texts (o.isoformat r.created_at),
          d.times r.created_at,
          d.dicts r.machine,
          scenarios_read r.scenarios,
          d.dicts r.config,
          notes_read r.notes,
        )
        (ap (λ sha. ok (record r { git_sha = sha })) (text_read r.git_sha end))
