-- ===== src/Tournaments/Expand/Choices.antt =====
-- The choices of parameters and the children that sim/api/tournaments.py makes of them in a sweep.
use tirrad_exchange_system.Prelude.{
  ◌≡◌, refl, ◌∙◌, ap, sym, String, Bool, List, [], ◌∷◌, map, All, In, In-map, All-map, All_at, inl,
}
use tirrad_exchange_system.Prelude.Text.{text_leb}
use tirrad_exchange_system.Prelude.Sorting.{order_by}
use tirrad_exchange_system.Prelude.Products.{
  product, In-flat_map, All-flat_map, All-map_to, In-product, All-product,
}
use tirrad_exchange_system.Prelude.Results.{
  ok, bind-ok, ok-injective, map_result-back, map_result-In,
}
use tirrad_exchange_system.Prelude.Int.{ℤ}
use tirrad_exchange_system.Json.{Value, Fields, end, field}
use tirrad_exchange_system.Storage.Records.{backtest}
use tirrad_exchange_system.Tournaments.Keys.{Builtins, key}
use tirrad_exchange_system.Tournaments.Requests.{backtest_config}
use tirrad_exchange_system.Tournaments.Expand.{
  Parameters, TournamentConfig, ChildRunSpec, backtest_spec, four_parts, combinations_of,
  parameter_combinations, sweep_parameters, sweep_specs,
}

abbrev pub by_name : String × List Value → String × List Value → Bool
by_name a b = text_leb a.0 b.0

-- A dict with the keys of the parameters in their order, each with one of its values.
abbrev pub Chooses : Parameters → Fields → Type 0
Chooses [] choice = choice ≡ end
Chooses ((k, vs) ∷ ps) choice =
    (v : Value) × (rest : Fields) × In v vs × (choice ≡ field k v rest) × Chooses ps rest

-- The child of a seed and a choice.
pub record IsChild (b : Builtins) (config : TournamentConfig) (strategy : String)
    (symbols : List String) (seed : ℤ) (choice : Fields) (s : ChildRunSpec) : Type 0 where
  pub keyed : s.child_key ≡ key b (four_parts strategy seed symbols choice)
  pub backtests : s.run_type ≡ backtest
  pub configured : backtest_config b strategy symbols config.initial_cash ≡ ok s.config
  pub described : s.dimensions ≡ four_parts strategy seed symbols choice

combinations_of-Chooses : (ps : Parameters) → All (λ c. Chooses ps c) (combinations_of ps)
unfolding combinations_of
combinations_of-Chooses [] = (refl, tt)
combinations_of-Chooses ((k, vs) ∷ ps) =
    All-flat_map _ (λ v. map (λ fs. field k v fs) (combinations_of ps)) vs
      (λ v i.
        All-map_to _ (λ fs. field k v fs) (combinations_of ps)
          (All-map _ _ (combinations_of ps) (λ c h. (v, c, i, refl, h))
            (combinations_of-Chooses ps)))

In-combinations_of : (ps : Parameters) (c : Fields) → Chooses ps c → In c (combinations_of ps)
unfolding combinations_of
In-combinations_of [] c h = inl h
In-combinations_of ((k, vs) ∷ ps) c (v, rest, i, e, h) =
    In-flat_map (λ u. map (λ fs. field k u fs) (combinations_of ps)) v c vs i
      (rw e (In-map (λ fs. field k v fs) rest (combinations_of ps) (In-combinations_of ps rest h)))

backtest_spec-IsChild :
    (b : Builtins) (config : TournamentConfig) (strategy : String) (symbols : List String)
    (seed : ℤ) (choice : Fields) (s : ChildRunSpec)
    → backtest_spec b config strategy symbols
        (four_parts strategy seed symbols choice)
        (four_parts strategy seed symbols choice)
      ≡ ok s
    → IsChild b config strategy symbols seed choice s
unfolding backtest_spec
backtest_spec-IsChild b config strategy symbols seed choice s e =
    let (c, made, last) = bind-ok (backtest_config b strategy symbols config.initial_cash) _ s e in
    let same = sym (ok-injective _ s last) in
    record {
      keyed = ap (λ t. t.child_key) same;
      backtests = ap (λ t. t.run_type) same;
      configured = made ∙ ap ok (ap (λ t. t.config) (sym same));
      described = ap (λ t. t.dimensions) same;
    }

-- A child has its seed and its choice in its dimensions.
pub IsChild-injective :
    (b : Builtins) (config : TournamentConfig) (strategy : String) (symbols : List String)
    (seed seed' : ℤ) (choice choice' : Fields) (s : ChildRunSpec)
    → IsChild b config strategy symbols seed choice s
    → IsChild b config strategy symbols seed' choice' s
    → (seed ≡ seed') × (choice ≡ choice')
IsChild-injective b config strategy symbols seed seed' choice choice' s h k =
    let e : four_parts strategy seed symbols choice ≡ four_parts strategy seed' symbols choice' =
      sym h.described ∙ k.described in
    (cc, cc)

-- The child of some seed and some choice.
abbrev pub Child : Builtins → TournamentConfig → String → List String → ChildRunSpec → Type 0
Child b config strategy symbols s =
    (seed : ℤ) × (choice : Fields) × In seed config.seeds
    × Chooses (order_by by_name (sweep_parameters config)) choice
    × IsChild b config strategy symbols seed choice s

pub sweep_specs-Child :
    (b : Builtins) (config : TournamentConfig) (strategy : String) (symbols : List String)
    (made : List ChildRunSpec)
    → sweep_specs b config strategy symbols ≡ ok made
    → All (λ s. Child b config strategy symbols s) made
unfolding sweep_specs parameter_combinations
sweep_specs-Child b config strategy symbols made e =
    let choices = parameter_combinations (sweep_parameters config) in
    let all_choices = combinations_of-Chooses (order_by by_name (sweep_parameters config)) in
    All-map _ _ made
      (λ s ((seed, choice), i, h).
        let (j, k) = All_at _ (seed, choice) _ (All-product config.seeds choices) i in
        (
          seed,
          choice,
          j,
          All_at _ choice choices all_choices k,
          backtest_spec-IsChild b config strategy symbols seed choice s h,
        ))
      (map_result-back _ (product config.seeds choices) made e)

pub sweep_specs-In :
    (b : Builtins) (config : TournamentConfig) (strategy : String) (symbols : List String)
    (made : List ChildRunSpec) (seed : ℤ) (choice : Fields)
    → sweep_specs b config strategy symbols ≡ ok made
    → In seed config.seeds
    → Chooses (order_by by_name (sweep_parameters config)) choice
    → (s : ChildRunSpec) × In s made × IsChild b config strategy symbols seed choice s
unfolding sweep_specs parameter_combinations
sweep_specs-In b config strategy symbols made seed choice e i h =
    let ps = order_by by_name (sweep_parameters config) in
    let (s, j, k) =
      map_result-In _ (seed, choice) (product config.seeds (combinations_of ps)) made e
        (In-product seed choice config.seeds (combinations_of ps) i
          (In-combinations_of ps choice h)) in
    (s, j, backtest_spec-IsChild b config strategy symbols seed choice s k)
