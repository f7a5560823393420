-- ===== src/Benchmarks/Regressions.antt =====
-- When the comparison of sim/tes_benchmarks/models.py reports a regression.
use tirrad_exchange_system.Prelude.{
  ◌≡◌, ◌↔◌, ◌⊎◌, refl, sym, ◌∙◌, String, Bool, true, false, Option, none, some, List, [], ◌∷◌, ◌++◌,
  any, map, coalesce, In, inl, inr, arith, Bool-cases, eq_iff, ◌==◌,
}
use tirrad_exchange_system.Prelude.Text.{text_leb}
use tirrad_exchange_system.Json.{Float}
use tirrad_exchange_system.Verification.Reports.{insert_name, sorted_names}
use tirrad_exchange_system.Floats.{Floats}
use tirrad_exchange_system.Benchmarks.{
  BenchmarkScenario, BenchmarkRun, scenario_of, ops_of, delta_of, percent_delta, falls_below,
  compare_scenario, scenario_names, name_of, compare_benchmark_runs,
}

module _ {A : Type 0} where
  any-In : (p : A → Bool) (xs : List A) → any p xs ≡ true → (x : A) × In x xs × (p x ≡ true)
  any-In p [] h = ground arith
  any-In p (x ∷ xs) h = elim (Bool-cases (p x)) [
    | inl e ↦ (x, inl refl, e)
    | inr e ↦ let (y, i, t) = any-In p xs (rw e at h) in (y, inr i, t)
  ]

  In-any : (p : A → Bool) (x : A) (xs : List A) → In x xs → p x ≡ true → any p xs ≡ true
  In-any p x [] i t = absurd i
  In-any p x (y ∷ ys) (inl e) t = rw (sym e, t) refl
  In-any p x (y ∷ ys) (inr i) t = ground (arith, In-any p x ys i t)

any-map :
    {A B : Type 0} (p : B → Bool) (f : A → B) (xs : List A)
    → any p (map f xs) ≡ any (λ x. p (f x)) xs
any-map p f [] = refl
any-map p f (x ∷ xs) = ground (arith, any-map p f xs)

insert_name-In : (k j : String) (js : List String) → (k ≡ j) ⊎ In k js → In k (insert_name j js)
unfolding insert_name
insert_name-In k j [] h = h
insert_name-In k j (i ∷ is) h = elim (Bool-cases (j == i)) [
  | inl same ↦ rw same (found ((eq_iff j i).0 same) h)
  | inr other ↦ elim (Bool-cases (text_leb j i)) [
    | inl before ↦ rw (other, before) h
    | inr after ↦ rw (other, after) (rest (insert_name-In k j is) h)
  ]
]
  where
    found : j ≡ i → (k ≡ j) ⊎ In k (i ∷ is) → In k (i ∷ is)
    found e (inl a) = inl (a ∙ e)
    found e (inr b) = b

    rest :
        ((k ≡ j) ⊎ In k is → In k (insert_name j is))
        → (k ≡ j) ⊎ In k (i ∷ is)
        → In k (i ∷ insert_name j is)
    rest ih (inl a) = inr (ih (inl a))
    rest ih (inr (inl b)) = inl b
    rest ih (inr (inr c)) = inr (ih (inr c))

sorted_names-In : (k : String) (ks : List String) → In k ks → In k (sorted_names ks)
unfolding sorted_names
sorted_names-In k [] h = h
sorted_names-In k (j ∷ js) (inl e) = insert_name-In k j (sorted_names js) (inl e)
sorted_names-In k (j ∷ js) (inr i) =
    insert_name-In k j (sorted_names js) (inr (sorted_names-In k js i))

coalesce-none : {A : Type 0} (o : Option A) (a : A) → coalesce o none ≡ some a → o ≡ some a
coalesce-none none a h = h
coalesce-none (some b) a h = h

-- The scenario of a name is one of the run's.
scenario_of-In :
    (name : String) (ss : List BenchmarkScenario) (s : BenchmarkScenario)
    → scenario_of name ss ≡ some s
    → In name (map (λ x. x.name) ss)
unfolding scenario_of
scenario_of-In name [] s h = ground arith
scenario_of-In name (x ∷ xs) s h = elim (Bool-cases (x.name == name)) [
  | inl e ↦ inl (sym ((eq_iff x.name name).0 e))
  | inr e ↦ inr (scenario_of-In name xs s (coalesce-none (scenario_of name xs) s (rw e at h)))
]

In-append_left : {A : Type 0} (x : A) (xs ys : List A) → In x xs → In x (xs ++ ys)
In-append_left x [] ys i = absurd i
In-append_left x (y ∷ zs) ys (inl e) = inl e
In-append_left x (y ∷ zs) ys (inr i) = inr (In-append_left x zs ys i)

module _ (f : Floats) (negated : Float → Float) where
  -- The scenarios of a name in the two runs, the baseline's with a positive rate, and the candidate's
  -- rate less the baseline's, in percent of the baseline's, below minus the threshold.
  abbrev pub Regresses : BenchmarkRun → BenchmarkRun → Float → String → Type 0
  Regresses baseline candidate threshold name =
      (b : BenchmarkScenario) × (c : BenchmarkScenario) × (scenario_of name baseline.scenarios
        ≡ some b)
      × (scenario_of name candidate.scenarios ≡ some c)
      × (f.below "0.0" b.ops_per_sec ≡ true)
      × (f.below (f.times (f.over (f.minus c.ops_per_sec b.ops_per_sec) b.ops_per_sec) "100.0")
            (negated (f.absolute threshold))
          ≡ true)

  percent_delta-falls :
      (t : Float) (b c : Option BenchmarkScenario)
      → falls_below f negated t (percent_delta f negated (ops_of b) (ops_of c)) ≡ true
      → (x : BenchmarkScenario) × (y : BenchmarkScenario) × (b ≡ some x)
        × (c ≡ some y)
        × (f.below "0.0" x.ops_per_sec ≡ true)
        × (f.below
              (f.times (f.over (f.minus y.ops_per_sec x.ops_per_sec) x.ops_per_sec) "100.0")
              (negated (f.absolute t))
            ≡ true)
  unfolding percent_delta delta_of
  percent_delta-falls t none c h = ground arith
  percent_delta-falls t (some x) none h = ground arith
  percent_delta-falls t (some x) (some y) h = elim (Bool-cases (f.below "0.0" x.ops_per_sec)) [
    | inl e ↦ (x, y, refl, refl, e, rw e at h)
    | inr e ↦ let no : false ≡ true = rw e at h in ground arith
  ]

  regression-Regresses :
      (baseline candidate : BenchmarkRun) (threshold : Float) (name : String)
      → ((compare_scenario f negated baseline candidate threshold name).regression ≡ true)
        ↔ Regresses baseline candidate threshold name
  unfolding compare_scenario percent_delta delta_of
  regression-Regresses baseline candidate threshold name = (
    λ h.
        percent_delta-falls threshold (scenario_of name baseline.scenarios)
          (scenario_of name candidate.scenarios) h,
    λ r. let (b, c, eb, ec, positive, low) = r in rw (eb, ec, positive) low,
  )

  -- The comparison of two runs reports a regression exactly when there is a name whose scenario, the
  -- last of that name in each run, has a positive rate in the baseline and a rate in the candidate that is lower by
  -- more than the threshold in percent.
  pub compare_benchmark_runs-regression :
      (baseline candidate : BenchmarkRun) (threshold : Float)
      → ((compare_benchmark_runs f negated baseline candidate threshold).has_regression ≡ true)
        ↔ ((name : String) × Regresses baseline candidate threshold name)
  unfolding compare_benchmark_runs scenario_names
  compare_benchmark_runs-regression baseline candidate threshold =
      let one = compare_scenario f negated baseline candidate threshold in
      let names = scenario_names f negated baseline candidate in
      let moved = any-map (λ c. c.regression) one names in
      (
        λ h.
            let (name, i, t) = any-In (λ n. (one n).regression) names (sym moved ∙ h) in
            (name, (regression-Regresses baseline candidate threshold name).0 t),
        λ r.
            let (name, (b, c, eb, ec, positive, low)) = r in
            moved
            ∙ In-any (λ n. (one n).regression) name names
                (sorted_names-In name _ (
                  In-append_left name (map (name_of f negated) baseline.scenarios) _
                    (scenario_of-In name baseline.scenarios b eb)))
                ((regression-Regresses baseline candidate threshold name).1 r.1),
      )
