-- ===== src/Tournaments/Expand/Sizes.antt =====
-- Which children, how many and in which order, `expand_tournament` of
-- sim/api/tournaments.py makes.
use Prim.Native.Nat.{◌*◌}
use native.Mathlib.Nat.{mul_left_comm}
use tirrad_exchange_system.Prelude.{
  ℕ, ◌≡◌, refl, String, List, [], ◌∷◌, length, map, All, All_at, In, ◌↔◌, arith, sym, ap, subst,
  ◌∙◌, Bool-cases, inl, inr,
}
use tirrad_exchange_system.Prelude.Text.{text_leb, text_leb_total, text_leb_trans}
use tirrad_exchange_system.Prelude.Sorting.{
  insert, order_by, IsSorted, order_by-IsSorted, All-order_by, order_by-In,
}
use tirrad_exchange_system.Prelude.Counting.{length-order_by}
use tirrad_exchange_system.Prelude.Products.{product, length-map, length-flat_map, length-product}
use tirrad_exchange_system.Prelude.Results.{ok, bind-ok, ok-injective, map_result-length}
use tirrad_exchange_system.Json.{Value, Fields, field}
use tirrad_exchange_system.Tournaments.Keys.{Builtins}
use tirrad_exchange_system.Tournaments.Requests.{require}
use tirrad_exchange_system.Prelude.Int.{ℤ}
use tirrad_exchange_system.Tournaments.Expand.Choices.{
  by_name, Chooses, IsChild, IsChild-injective, Child, sweep_specs-Child, sweep_specs-In,
}
use tirrad_exchange_system.Tournaments.Expand.{
  Parameters, TournamentConfig, ChildRunSpec, combinations_of, parameter_combinations,
  sweep_strategy, sweep_parameters, sweep_specs, parameter_sweep, specs_of, by_child_key,
  expand_tournament,
}

-- The product of the numbers of values.
abbrev pub combination_count : Parameters → ℕ
combination_count [] = 1
combination_count ((k, vs) ∷ rest) = length vs * combination_count rest

combination_count-insert :
    (p : String × List Value) (ps : Parameters)
    → combination_count (insert by_name p ps) ≡ combination_count (p ∷ ps)
unfolding insert
combination_count-insert (k, vs) [] = refl
combination_count-insert (k, vs) ((j, us) ∷ ps) = elim (Bool-cases (text_leb k j)) [
  | inl e ↦ rw e refl
  | inr e ↦
      rw (e, combination_count-insert (k, vs) ps)
        (mul_left_comm (length us) (length vs) (combination_count ps))
]

combination_count-order_by :
    (ps : Parameters) → combination_count (order_by by_name ps) ≡ combination_count ps
unfolding order_by
combination_count-order_by [] = refl
combination_count-order_by ((k, vs) ∷ ps) =
    combination_count-insert (k, vs) (order_by by_name ps)
    ∙ ap (λ n. length vs * n) (combination_count-order_by ps)

length-combinations_of : (ps : Parameters) → length (combinations_of ps) ≡ combination_count ps
unfolding combinations_of
length-combinations_of [] = refl
length-combinations_of ((k, vs) ∷ ps) =
    length-flat_map (λ v. map (λ fs. field k v fs) (combinations_of ps))
      (length (combinations_of ps)) vs (λ v. length-map (λ fs. field k v fs) (combinations_of ps))
    ∙ ap (λ n. length vs * n) (length-combinations_of ps)

require-ok :
    (xs : List String) (label : String) (ys : List String) → require xs label ≡ ok ys → xs ≡ ys
unfolding require
require-ok [] label ys e = ground arith
require-ok (x ∷ xs) label ys e = ok-injective (x ∷ xs) ys e

length-sweep_specs :
    (b : Builtins) (config : TournamentConfig) (strategy : String) (symbols : List String)
    (made : List ChildRunSpec)
    → sweep_specs b config strategy symbols ≡ ok made
    → length made ≡ length config.seeds * combination_count (sweep_parameters config)
unfolding sweep_specs parameter_combinations
length-sweep_specs b config strategy symbols made e =
    let ps = sweep_parameters config in
    let choices = parameter_combinations ps in
    map_result-length _ (product config.seeds choices) made e
    ∙ length-product config.seeds choices
    ∙ ap (λ n. length config.seeds * n)
        (length-combinations_of (order_by by_name ps) ∙ combination_count-order_by ps)

-- A parameter sweep makes its children by `sweep_specs`, and sorts them.
expand_tournament-sweep_specs :
    (b : Builtins) (config : TournamentConfig) (strategy : String) (specs : List ChildRunSpec)
    → config.tournament_type ≡ "parameter_sweep"
    → sweep_strategy config ≡ ok strategy
    → expand_tournament b config ≡ ok specs
    → (made : List ChildRunSpec) × (sweep_specs b config strategy config.symbols ≡ ok made)
      × (order_by by_child_key made ≡ specs)
unfolding expand_tournament specs_of parameter_sweep
expand_tournament-sweep_specs b config strategy specs t first e =
    let (made, m, last) = bind-ok (specs_of b config) _ specs e in
    let swept : parameter_sweep b config ≡ ok made = rw t at m in
    let (symbols, r, k) = bind-ok (require config.symbols "symbols") _ made (rw first at swept) in
    (
      made,
      subst (λ ss. sweep_specs b config strategy ss ≡ ok made)
          (sym (require-ok config.symbols "symbols" symbols r)) k,
      ok-injective (order_by by_child_key made) specs last,
    )

by_child_key-IsSorted :
    (specs : List ChildRunSpec) → IsSorted by_child_key (order_by by_child_key specs)
by_child_key-IsSorted specs =
    order_by-IsSorted by_child_key (λ x y. text_leb_total x.child_key y.child_key)
      (λ x y z. text_leb_trans x.child_key y.child_key z.child_key) specs

-- A parameter sweep has a child for a seed and a choice of parameters exactly when the seed is one of
-- the seeds and the choice takes one of the values of every parameter, by name: a backtest with its
-- key made of the strategy, the seed, the symbols and the choice, which are also its dimensions, and
-- with the configuration of the strategy, the symbols and the cash alone. Every child is such a child,
-- they are as many as seeds and choices, and they are in the order of their keys.
pub expand_tournament-sweep :
    (b : Builtins) (config : TournamentConfig) (strategy : String) (specs : List ChildRunSpec)
    (seed : ℤ) (choice : Fields)
    → config.tournament_type ≡ "parameter_sweep"
    → sweep_strategy config ≡ ok strategy
    → expand_tournament b config ≡ ok specs
    → (((s : ChildRunSpec) × In s specs × IsChild b config strategy config.symbols seed choice s)
        ↔ (In seed config.seeds × Chooses (order_by by_name (sweep_parameters config)) choice))
      × All (λ s. Child b config strategy config.symbols s) specs
      × (length specs ≡ length config.seeds * combination_count (sweep_parameters config))
      × IsSorted by_child_key specs
expand_tournament-sweep b config strategy specs seed choice t first e =
    let (made, m, sorted) = expand_tournament-sweep_specs b config strategy specs t first e in
    let child : ChildRunSpec → Type 0 = λ s. Child b config strategy config.symbols s in
    let children : All child specs =
      subst (λ ss. All child ss) sorted
        (All-order_by by_child_key child made
          (sweep_specs-Child b config strategy config.symbols made m)) in
    (
      (
        λ (s, i, h).
            let (seed', choice', j, k, h') = All_at child s specs children i in
            let (same_seed, same_choice) =
              IsChild-injective b config strategy config.symbols seed seed' choice choice' s h h' in
            rw (same_seed, same_choice) (j, k),
        λ (i, k).
            let (s, j, h) =
              sweep_specs-In b config strategy config.symbols made seed choice m i k in
            (s, subst (λ ss. In s ss) sorted (order_by-In by_child_key made s j), h),
      ),
      children,
      subst (λ ss. length ss ≡ length config.seeds * combination_count (sweep_parameters config))
          sorted
          (length-order_by by_child_key made
            ∙ length-sweep_specs b config strategy config.symbols made m),
      subst (λ ss. IsSorted by_child_key ss) sorted (by_child_key-IsSorted made),
    )
