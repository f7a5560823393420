-- ===== src/Benchmarks/Tests.antt =====
-- The theorem on regressions at two runs.
use Prim.Native.String.{String}
use tirrad_exchange_system.Prelude.{
  ℕ, zero, suc, refl, ap, length, some, ◌≡◌, ◌↔◌, true, false, ◌==◌, ◌&&◌, ◌||◌, if◌then◌else◌,
  none, [], ◌∷◌,
}
use tirrad_exchange_system.Prelude.Int.{pos}
use tirrad_exchange_system.Prelude.Text.{codes}
use tirrad_exchange_system.Prelude.Results.{ok}
use tirrad_exchange_system.Json.{Float, end, text, float, object}
use tirrad_exchange_system.Floats.{Floats}
use tirrad_exchange_system.Benchmarks.{BenchmarkRun, compare_benchmark_runs}
use tirrad_exchange_system.Benchmarks.Dicts.{Outside, run_to_dict, run_from_dict}
use tirrad_exchange_system.Benchmarks.RoundTrip.{Documented, run_from_dict-run_to_dict}
use tirrad_exchange_system.Benchmarks.Regressions.{Regresses, compare_benchmark_runs-regression}

-- Part of the tables of the float operators, as far as the rates 2.0 and 1.0 need them: the difference
-- is -1.0, the quotient -0.5, the percentage -50.0.
abbrev tables : Floats
tables = record {
  of_int = λ n. "1.0";
  plus = λ x y. x;
  minus = λ x y. if x == "1.0" && y == "2.0" then "-1.0" else "1.0";
  times = λ x y. if x == "-0.5" && y == "100.0" then "-50.0" else "100.0";
  over = λ x y. if x == "-1.0" && y == "2.0" then "-0.5" else "1.0";
  absolute = λ x. x;
  squared = λ x. x;
  root = λ x. x;
  sum_of = λ xs. "1.0";
  below = λ x y.
      x == "0.0" && (y == "1.0" || y == "2.0" || y == "100.0") || x == "-50.0" && y == "-10.0";
  same = λ x y. x == y;
}

-- -x of a positive float.
abbrev negative : Float → Float
negative x = String.◌∷◌ "-" x

abbrev run_at : String → Float → BenchmarkRun
run_at id rate = record {
  benchmark_id = id;
  created_at = 10;
  git_sha = none;
  machine = end;
  scenarios =
      record {
        name = "submit";
        operation_count = pos 100;
        elapsed_ms = "1.0";
        ops_per_sec = rate;
        notes = none;
        config = end;
      }
      ∷ [];
  notes = none;
  config = end;
}

-- The rate falls from 2.0 to 1.0, by 50 percent; the threshold is 10.
fall_test :
    (compare_benchmark_runs tables negative
      (run_at "a" "2.0")
      (run_at "b" "1.0")
      "10.0").has_regression
    ≡ true
unfolding compare_benchmark_runs
fall_test = refl

-- A rise is none.
rise_test :
    (compare_benchmark_runs tables negative
      (run_at "b" "1.0")
      (run_at "a" "2.0")
      "10.0").has_regression
    ≡ false
unfolding compare_benchmark_runs
rise_test = refl

compare_benchmark_runs-regression_example :
    ((compare_benchmark_runs tables negative
        (run_at "a" "2.0")
        (run_at "b" "1.0")
        "10.0").has_regression
      ≡ true)
    ↔ ((name : String) × Regresses tables negative
          (run_at "a" "2.0")
          (run_at "b" "1.0")
          "10.0"
          name)
compare_benchmark_runs-regression_example =
    compare_benchmark_runs-regression tables negative (run_at "a" "2.0") (run_at "b" "1.0") "10.0"

-- A time as a text of so many letters.
abbrev stamp : ℕ → String
stamp zero = ""
stamp (suc n) = String.◌∷◌ "x" (stamp n)

read_stamp : (n : ℕ) → length (codes (stamp n)) ≡ n
read_stamp zero = refl
read_stamp (suc n) = ap suc (read_stamp n)

-- Values of one kind only are accepted.
abbrev strict : Outside
strict = record {
  str_of = λ v. elim v [ text s ↦ s | _ ↦ "" ];
  float_of = λ v. elim v [ float x ↦ some x | _ ↦ none ];
  dict_of = λ v. elim v [ object fs ↦ some fs | _ ↦ none ];
  isoformat = stamp;
  fromisoformat = λ s. some (length (codes s));
}

strict-Documented : Documented strict
strict-Documented = record {
  texts = λ s. refl;
  floats = λ x. refl;
  dicts = λ fs. refl;
  times = λ n. ap some (read_stamp n);
}

run_from_dict-run_to_dict_example :
    run_from_dict strict (run_to_dict strict (run_at "a" "2.0")) ≡ ok (run_at "a" "2.0")
run_from_dict-run_to_dict_example =
    run_from_dict-run_to_dict strict strict-Documented (run_at "a" "2.0")
