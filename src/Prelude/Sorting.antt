-- ===== src/Prelude/Sorting.antt =====
-- ORDER BY and Python's `sorted`: a stable insertion sort by a Boolean order.
use mathlib.Core.Path.{◌≡◌, subst}
use mathlib.Core.Logic.{◌⊎◌, inl, inr}
use mathlib.Core.Bool.{Bool, true, false}
use mathlib.Core.Option.{Option, none, some, some-injective}
use mathlib.Core.List.{List, [], ◌∷◌}
use native.Mathlib.Omega.{arith}
use tirrad_exchange_system.Prelude.Tests.{if◌then◌else◌, Bool-cases}
use tirrad_exchange_system.Prelude.Lists.{All, All_at, All-intro, In}

module _ {ℓ} {A : Type ℓ} (le : A → A → Bool) where
  -- `x` stood before every element of the list, so it goes before its equals.
  unfoldable pub insert : A → List A → List A
  insert x [] = x ∷ []
  insert x (y ∷ ys) = let rest = y ∷ insert x ys in if le x y then x ∷ y ∷ ys else rest

  unfoldable pub order_by : List A → List A
  unfolding insert
  order_by [] = []
  order_by (x ∷ xs) = insert x (order_by xs)

  abbrev pub IsSorted : List A → Type ℓ
  IsSorted [] = Unit
  IsSorted (x ∷ xs) = All (λ y. le x y ≡ true) xs × IsSorted xs

-- LIMIT 1.
abbrev pub head_of {ℓ} : {A : Type ℓ} → List A → Option A
head_of [] = none
head_of (x ∷ xs) = some x

pub head_In : {A : Type 0} (xs : List A) {m : A} → head_of xs ≡ some m → In m xs
head_In [] e = cc
head_In (x ∷ xs) e = ground arith

module _ {A : Type 0} (le : A → A → Bool) where
  All-insert : (P : A → Type 0) (x : A) (ys : List A) → P x → All P ys → All P (insert le x ys)
  unfolding insert
  All-insert P x [] px h = (px, tt)
  All-insert P x (y ∷ ys) px h = ground (arith, All-insert P x ys px h.1)

  All-insert_inv : (P : A → Type 0) (x : A) (ys : List A) → All P (insert le x ys) → P x × All P ys
  unfolding insert
  All-insert_inv P x [] h = (h.0, tt)
  All-insert_inv P x (y ∷ ys) h = ground (arith, All-insert_inv P x ys)

  pub All-order_by : (P : A → Type 0) (xs : List A) → All P xs → All P (order_by le xs)
  unfolding order_by
  All-order_by P [] h = tt
  All-order_by P (x ∷ xs) h = All-insert P x (order_by le xs) h.0 (All-order_by P xs h.1)

  pub All-order_by_inv : (P : A → Type 0) (xs : List A) → All P (order_by le xs) → All P xs
  unfolding order_by
  All-order_by_inv P [] h = tt
  All-order_by_inv P (x ∷ xs) h =
      let (px, rest) = All-insert_inv P x (order_by le xs) h in (px, All-order_by_inv P xs rest)

  pub In-order_by : (xs : List A) (m : A) → In m (order_by le xs) → In m xs
  In-order_by xs m h =
      All_at (λ y. In y xs) m (order_by le xs) (All-order_by _ xs (All-intro _ xs (λ a i. i))) h

  pub order_by-In : (xs : List A) (m : A) → In m xs → In m (order_by le xs)
  order_by-In xs m h =
      All_at (λ y. In y (order_by le xs)) m xs
        (All-order_by_inv (λ y. In y (order_by le xs)) xs (All-intro _ (order_by le xs) (λ a i. i)))
        h

  module _ (total : (x y : A) → (le x y ≡ true) ⊎ (le y x ≡ true))
      (trans : (x y z : A) → le x y ≡ true → le y z ≡ true → le x z ≡ true) where
    All-le :
        (x y : A) (zs : List A)
        → le x y ≡ true
        → All (λ z. le y z ≡ true) zs
        → All (λ z. le x z ≡ true) zs
    All-le x y [] h k = tt
    All-le x y (z ∷ zs) h k = (trans x y z h k.0, All-le x y zs h k.1)

    insert-IsSorted : (x : A) (ys : List A) → IsSorted le ys → IsSorted le (insert le x ys)
    unfolding insert
    insert-IsSorted x [] h = (tt, tt)
    insert-IsSorted x (y ∷ ys) h = elim (Bool-cases (le x y)) [
      | inl e ↦ rw e ((e, All-le x y ys e h.0), h)
      | inr e ↦ rw e (All-insert (λ z. le y z ≡ true) x ys (flip e) h.0, insert-IsSorted x ys h.1)
    ]
      where
        flip : le x y ≡ false → le y x ≡ true
        flip e = ground (arith, total x y)

    -- The result is in order.
    pub order_by-IsSorted : (xs : List A) → IsSorted le (order_by le xs)
    unfolding order_by
    order_by-IsSorted [] = tt
    order_by-IsSorted (x ∷ xs) = insert-IsSorted x (order_by le xs) (order_by-IsSorted xs)

    refl_of_total : (x : A) → le x x ≡ true
    refl_of_total x = ground (arith, total x x)

    IsSorted-head :
        (xs : List A) {m : A} → IsSorted le xs → head_of xs ≡ some m → All (λ y. le m y ≡ true) xs
    IsSorted-head [] h e = tt
    IsSorted-head (x ∷ xs) {m} h e =
        subst (λ n. All (λ y. le n y ≡ true) (x ∷ xs)) (some-injective x m e) (refl_of_total x, h.0)

    -- Its head comes before every element.
    pub head-order_by :
        (xs : List A) {m : A} → head_of (order_by le xs) ≡ some m → All (λ y. le m y ≡ true) xs
    head-order_by xs {m} e =
        All-order_by_inv (λ y. le m y ≡ true) xs
          (IsSorted-head (order_by le xs) (order_by-IsSorted xs) e)
