-- ===== src/Verification/Streams/Agreement.antt =====
-- What the search for a divergence in sim/tes_replay/verification.py finds.
use tirrad_exchange_system.Prelude.{
  ℕ, ◌+◌, ◌≡◌, refl, ◌↔◌, Bool, true, false, List, [], ◌∷◌, ◌++◌, none, some, arith, length, inl,
  inr, Bool-cases,
}
use tirrad_exchange_system.Prelude.Int.{pos}
use tirrad_exchange_system.Json.{Value, Fields}
use tirrad_exchange_system.Verification.Streams.{
  step_of, or_step, same_item, divergence_from, stream_divergence_step,
}

-- The streams have the same length, and equal items at every position.
abbrev pub Agree : (Value → Value → Bool) → List Fields → List Fields → Type 0
Agree scalar_eq [] [] = Unit
Agree scalar_eq (l ∷ ls) (r ∷ rs) = (same_item scalar_eq l r ≡ true) × Agree scalar_eq ls rs
Agree scalar_eq _ _ = ⊥

divergence_from-none :
    (scalar_eq : Value → Value → Bool) (index : ℕ) (ls rs : List Fields)
    → divergence_from scalar_eq index ls rs ≡ none
    → Agree scalar_eq ls rs
unfolding divergence_from
divergence_from-none scalar_eq index [] [] e = tt
divergence_from-none scalar_eq index [] (r ∷ rs) e = cc
divergence_from-none scalar_eq index (l ∷ ls) [] e = cc
divergence_from-none scalar_eq index (l ∷ ls) (r ∷ rs) e =
    elim (Bool-cases (same_item scalar_eq l r)) [
      | inl t ↦ (t, divergence_from-none scalar_eq (index + 1) ls rs (rw t at e))
      | inr t ↦ let found = rw t at e in cc
    ]

Agree-divergence_from :
    (scalar_eq : Value → Value → Bool) (index : ℕ) (ls rs : List Fields)
    → Agree scalar_eq ls rs
    → divergence_from scalar_eq index ls rs ≡ none
unfolding divergence_from
Agree-divergence_from scalar_eq index [] [] h = refl
Agree-divergence_from scalar_eq index [] (r ∷ rs) h = absurd h
Agree-divergence_from scalar_eq index (l ∷ ls) [] h = absurd h
Agree-divergence_from scalar_eq index (l ∷ ls) (r ∷ rs) (e, h) =
    rw e (Agree-divergence_from scalar_eq (index + 1) ls rs h)

-- No divergence of two streams is found exactly when they have the same length and, time stamps and the
-- order of keys aside, equal items at every position.
pub stream_divergence_step-none :
    (scalar_eq : Value → Value → Bool) (left right : List Fields)
    → (stream_divergence_step scalar_eq left right ≡ none) ↔ Agree scalar_eq left right
unfolding stream_divergence_step
stream_divergence_step-none scalar_eq left right =
    (divergence_from-none scalar_eq 0 left right, Agree-divergence_from scalar_eq 0 left right)

divergence_from-first :
    (scalar_eq : Value → Value → Bool) (index : ℕ) (before before' : List Fields) (l r : Fields)
    (ls rs : List Fields)
    → Agree scalar_eq before before'
    → same_item scalar_eq l r ≡ false
    → divergence_from scalar_eq index (before ++ l ∷ ls) (before' ++ r ∷ rs)
      ≡ some (or_step (step_of l) (or_step (step_of r) (pos (index + length before + 1))))
unfolding divergence_from
divergence_from-first scalar_eq index [] [] l r ls rs h d =
    let e : index + 1 ≡ index + 0 + 1 = omega arith in rw (d, e) refl
divergence_from-first scalar_eq index [] (b ∷ bs) l r ls rs h d = absurd h
divergence_from-first scalar_eq index (b ∷ bs) [] l r ls rs h d = absurd h
divergence_from-first scalar_eq index (b ∷ bs) (c ∷ cs) l r ls rs (e, h) d =
    let shift : index + 1 + length bs + 1 ≡ index + length (b ∷ bs) + 1 = omega arith in
    rw (e, ← shift) (divergence_from-first scalar_eq (index + 1) bs cs l r ls rs h d)

-- The divergence that is found is the first one: after prefixes that agree, at items that differ, it is
-- the step of the left item, where that is missing or 0 the step of the right one, and where that is
-- missing or 0 too the position, counted from 1.
pub stream_divergence_step-first :
    (scalar_eq : Value → Value → Bool) (before before' : List Fields) (l r : Fields)
    (ls rs : List Fields)
    → Agree scalar_eq before before'
    → same_item scalar_eq l r ≡ false
    → stream_divergence_step scalar_eq (before ++ l ∷ ls) (before' ++ r ∷ rs)
      ≡ some (or_step (step_of l) (or_step (step_of r) (pos (length before + 1))))
unfolding stream_divergence_step
stream_divergence_step-first scalar_eq before before' l r ls rs h d =
    let e : length before ≡ 0 + length before = omega arith in
    rw e (divergence_from-first scalar_eq 0 before before' l r ls rs h d)
