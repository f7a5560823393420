-- ===== src/Prelude/Counting.antt =====
-- Counting the elements of a list that pass a test.
use Prim.Native.Nat.{ℕ, suc, ◌+◌, ◌≤◌}
use mathlib.Core.Path.{◌≡◌, refl}
use mathlib.Core.Logic.{◌↔◌}
use mathlib.Core.Bool.{Bool, true}
use mathlib.Core.List.{List, [], ◌∷◌, ◌++◌}
use native.Mathlib.Omega.{arith}
use tirrad_exchange_system.Prelude.Tests.{if◌then◌else◌}
use tirrad_exchange_system.Prelude.Lists.{length, count, All}
use tirrad_exchange_system.Prelude.Sorting.{insert, order_by}

abbrev pub bit : Bool → ℕ
bit b = if b then 1 else 0

module _ {A : Type 0} where
  count-insert :
      (le : A → A → Bool) (p : A → Bool) (x : A) (ys : List A)
      → count p (insert le x ys) ≡ count p (x ∷ ys)
  unfolding insert
  count-insert le p x [] = refl
  count-insert le p x (y ∷ ys) = ground (arith, count-insert le p x ys)

  pub count-order_by :
      (le : A → A → Bool) (p : A → Bool) (xs : List A) → count p (order_by le xs) ≡ count p xs
  unfolding order_by
  count-order_by le p [] = refl
  count-order_by le p (x ∷ xs) =
      omega (arith, count-insert le p x (order_by le xs), count-order_by le p xs)

  length-insert :
      (le : A → A → Bool) (x : A) (ys : List A) → length (insert le x ys) ≡ suc (length ys)
  unfolding insert
  length-insert le x [] = refl
  length-insert le x (y ∷ ys) = ground (arith, length-insert le x ys)

  pub length-order_by : (le : A → A → Bool) (xs : List A) → length (order_by le xs) ≡ length xs
  unfolding order_by
  length-order_by le [] = refl
  length-order_by le (x ∷ xs) =
      omega (arith, length-insert le x (order_by le xs), length-order_by le xs)

  pub length_append : (xs : List A) (x : A) → length (xs ++ x ∷ []) ≡ length xs + 1
  length_append [] x = omega arith
  length_append (y ∷ ys) x = omega (arith, length_append ys x)

  pub count_append :
      (p : A → Bool) (xs : List A) (x : A) → count p (xs ++ x ∷ []) ≡ count p xs + bit (p x)
  count_append p [] x = omega arith
  count_append p (y ∷ ys) x = omega (arith, count_append p ys x)

  count_le : (p : A → Bool) (xs : List A) → count p xs ≤ length xs
  count_le p [] = omega arith
  count_le p (x ∷ xs) = ground (arith, count_le p xs)

  pub count-All : (p : A → Bool) (xs : List A) → (count p xs ≡ length xs) ↔ All (λ x. p x ≡ true) xs
  count-All p [] = (λ e. tt, λ h. refl)
  count-All p (x ∷ xs) = ground (arith, count_le p xs, count-All p xs)
