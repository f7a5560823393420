-- ===== src/Prelude/Results.antt =====
-- Results of code that may raise, generic in the type of the exceptions.
use mathlib.Core.Path.{◌≡◌, refl, sym, ap, ◌∙◌}
use mathlib.Core.Logic.{◌⊎◌, inl, inr}
use mathlib.Core.List.{List, [], ◌∷◌}
use native.Mathlib.Omega.{arith}
use Prim.Native.Nat.{suc}
use tirrad_exchange_system.Prelude.Lists.{length, All, All-map, In}
use mathlib.Core.Bool.{Bool, true, false}

pub data Result {ℓ} (E : Type ℓ) (A : Type ℓ) : Type ℓ where
  ok : A → Result E A
  err : E → Result E A

infixl 5 ◌>>=◌ ◌>>◌
abbrev pub ◌>>=◌ {ℓ} : {E A B : Type ℓ} → Result E A → (A → Result E B) → Result E B
ok a >>= f = f a
err e >>= f = err e

abbrev pub ◌>>◌ {ℓ} : {E B : Type ℓ} → Result E (Unit {ℓ}) → Result E B → Result E B
m >> k = m >>= λ _. k

abbrev pub guard {ℓ} : {E : Type ℓ} → Bool → E → Result E (Unit {ℓ})
guard true e = ok tt
guard false e = err e

-- [f(x) for x in xs]: the first failure ends the comprehension.
unfoldable pub map_result {ℓ} : {E A B : Type ℓ} → (A → Result E B) → List A → Result E (List B)
map_result f [] = ok []
map_result f (x ∷ xs) = do y ← f x; ys ← map_result f xs; ok (y ∷ ys)

pub bind-ok :
    {E A B : Type 0} (m : Result E A) (f : A → Result E B) (y : B)
    → (m >>= f) ≡ ok y
    → (x : A) × (m ≡ ok x) × (f x ≡ ok y)
bind-ok (ok x) f y e = (x, refl, e)
bind-ok (err x) f y e = ground arith

pub ok-injective : {E A : Type 0} (x y : A) → ◌≡◌ {A = Result E A} (ok x) (ok y) → x ≡ y
ok-injective x y e = ground arith

module _ {A B : Type 0} where
  pub map_result-length :
      {E : Type 0} (f : A → Result E B) (xs : List A) (ys : List B)
      → map_result f xs ≡ ok ys
      → length ys ≡ length xs
  unfolding map_result
  map_result-length f [] ys e = rw (sym (ok-injective [] ys e)) refl
  map_result-length f (x ∷ xs) ys e =
      let (y, fx, rest) = bind-ok (f x) _ ys e in
      let (zs, fxs, last) = bind-ok (map_result f xs) _ ys rest in
      rw (sym (ok-injective (y ∷ zs) ys last)) (ap suc (map_result-length f xs zs fxs))

  pub map_result-All :
      {E : Type 0} (P : B → Type 0) (f : A → Result E B) (xs : List A) (ys : List B)
      → ((x : A) (y : B) → f x ≡ ok y → P y)
      → map_result f xs ≡ ok ys
      → All P ys
  unfolding map_result
  map_result-All P f [] ys h e = rw (sym (ok-injective [] ys e)) tt
  map_result-All P f (x ∷ xs) ys h e =
      let (y, fx, rest) = bind-ok (f x) _ ys e in
      let (zs, fxs, last) = bind-ok (map_result f xs) _ ys rest in
      rw (sym (ok-injective (y ∷ zs) ys last)) (h x y fx, map_result-All P f xs zs h fxs)

  -- Each result is that of an element, and each element has one.
  pub map_result-back :
      {E : Type 0} (f : A → Result E B) (xs : List A) (ys : List B)
      → map_result f xs ≡ ok ys
      → All (λ y. (x : A) × In x xs × (f x ≡ ok y)) ys
  unfolding map_result
  map_result-back f [] ys e = rw (sym (ok-injective [] ys e)) tt
  map_result-back f (x ∷ xs) ys e =
      let (y, fx, rest) = bind-ok (f x) _ ys e in
      let (zs, fxs, last) = bind-ok (map_result f xs) _ ys rest in
      rw (sym (ok-injective (y ∷ zs) ys last)) (
        (x, inl refl, fx),
        All-map _ _ zs (λ z p. (p.0, inr p.1, p.2)) (map_result-back f xs zs fxs),
      )

  pub map_result-In :
      {E : Type 0} (f : A → Result E B) (a : A) (xs : List A) (ys : List B)
      → map_result f xs ≡ ok ys
      → In a xs
      → (y : B) × In y ys × (f a ≡ ok y)
  unfolding map_result
  map_result-In f a [] ys e i = absurd i
  map_result-In f a (x ∷ xs) ys e i =
      let (y, fx, rest) = bind-ok (f x) _ ys e in
      let (zs, fxs, last) = bind-ok (map_result f xs) _ ys rest in
      rw (sym (ok-injective (y ∷ zs) ys last))
        (place y zs fx (λ j. map_result-In f a xs zs fxs j) i)
    where
      place :
          (y : B) (zs : List B)
          → f x ≡ ok y
          → (In a xs → (z : B) × In z zs × (f a ≡ ok z))
          → (a ≡ x) ⊎ In a xs
          → (z : B) × In z (y ∷ zs) × (f a ≡ ok z)
      place y zs fx later (inl same) = (y, inl refl, ap f same ∙ fx)
      place y zs fx later (inr j) = let (z, k, h) = later j in (z, inr k, h)
