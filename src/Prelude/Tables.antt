-- ===== src/Prelude/Tables.antt =====
-- Laws of tables: what UPDATE, INSERT and DELETE do to a look-up by key, to a predicate of the rows
-- and to the uniqueness of keys.
use Prim.Native.String.{String}
use mathlib.Core.Path.{◌≡◌, refl, ap}
use mathlib.Core.Logic.{inl, inr}
use mathlib.Core.Bool.{Bool, true, false, not}
use mathlib.Core.Option.{Option, none, some}
use mathlib.Core.List.{List, [], ◌∷◌, ◌++◌}
use native.Mathlib.Omega.{arith}
use text.Mathlib.TextEquality.{eq_iff}
use text.Mathlib.TextPositions.{eq_refl}
use tirrad_exchange_system.Prelude.Tests.{◌==◌, if◌then◌else◌, is_some}
use tirrad_exchange_system.Prelude.Lists.{All, All_at, In, select, find, update_where, any}

module _ {A : Type 0} where
  abbrev pub map_found : (A → A) → Option A → Option A
  map_found f none = none
  map_found f (some a) = some (f a)

  abbrev pub touched : (A → Bool) → (A → A) → A → A
  touched p f x = if p x then f x else x

  pub find-update_where :
      (t p : A → Bool) (f : A → A) (xs : List A)
      → ((x : A) → t (f x) ≡ t x)
      → find t (update_where p f xs) ≡ map_found (touched p f) (find t xs)
  unfolding find update_where
  find-update_where t p f [] keeps = refl
  find-update_where t p f (x ∷ xs) keeps = ground (arith, keeps x, find-update_where t p f xs keeps)

  pub find-append :
      (t : A → Bool) (xs : List A) (y : A)
      → find t (xs ++ y ∷ [])
        ≡ elim (find t xs) [ some x ↦ some x | none ↦ if t y then some y else none ]
  unfolding find
  find-append t [] y = refl
  find-append t (x ∷ xs) y = ground (arith, find-append t xs y)

  pub any-find : (t : A → Bool) (xs : List A) → any t xs ≡ false → find t xs ≡ none
  unfolding find
  any-find t [] h = refl
  any-find t (x ∷ xs) h = ground (arith, any-find t xs)

  pub is_some-find : (t : A → Bool) (xs : List A) → is_some (find t xs) ≡ any t xs
  unfolding find
  is_some-find t [] = refl
  is_some-find t (x ∷ xs) = ground (arith, is_some-find t xs)

  pub All-update_where :
      (P : A → Type 0) (p : A → Bool) (f : A → A) (xs : List A)
      → ((x : A) → In x xs → P x → p x ≡ true → P (f x))
      → All P xs
      → All P (update_where p f xs)
  unfolding update_where
  All-update_where P p f [] step h = tt
  All-update_where P p f (x ∷ xs) step h =
      ground (arith, step x (inl refl) h.0, All-update_where P p f xs (λ y m. step y (inr m)) h.1)

  pub All-append : (P : A → Type 0) (xs : List A) (y : A) → All P xs → P y → All P (xs ++ y ∷ [])
  All-append P [] y h hy = (hy, tt)
  All-append P (x ∷ xs) y h hy = (h.0, All-append P xs y h.1 hy)

  pub All-select : (P : A → Type 0) (p : A → Bool) (xs : List A) → All P xs → All P (select p xs)
  unfolding select
  All-select P p [] h = tt
  All-select P p (x ∷ xs) h = ground (arith, All-select P p xs h.1)

-- A primary key: no later row has the key of an earlier one.
module _ {A : Type 0} (key : A → String) where
  abbrev pub NewKey : String → List A → Type 0
  NewKey k xs = All (λ x. (key x == k) ≡ false) xs

  abbrev pub Keyed : List A → Type 0
  Keyed [] = Unit
  Keyed (x ∷ xs) = NewKey (key x) xs × Keyed xs

  NewKey-update_where :
      (p : A → Bool) (f : A → A) (k : String) (xs : List A)
      → ((x : A) → key (f x) ≡ key x)
      → NewKey k xs
      → NewKey k (update_where p f xs)
  unfolding update_where
  NewKey-update_where p f k [] keeps h = tt
  NewKey-update_where p f k (x ∷ xs) keeps h =
      ground (arith, keeps x, NewKey-update_where p f k xs keeps h.1)

  pub Keyed-update_where :
      (p : A → Bool) (f : A → A) (xs : List A)
      → ((x : A) → key (f x) ≡ key x)
      → Keyed xs
      → Keyed (update_where p f xs)
  unfolding update_where
  Keyed-update_where p f [] keeps h = tt
  Keyed-update_where p f (x ∷ xs) keeps h = ground (
    arith,
    keeps x,
    NewKey-update_where p f (key x) xs keeps h.0,
    Keyed-update_where p f xs keeps h.1,
  )

  pub NewKey-any : (k : String) (xs : List A) → any (λ x. key x == k) xs ≡ false → NewKey k xs
  NewKey-any k [] h = tt
  NewKey-any k (x ∷ xs) h = ground (arith, NewKey-any k xs)

  NewKey-append :
      (k : String) (xs : List A) (y : A)
      → (key y == k) ≡ false
      → NewKey k xs
      → NewKey k (xs ++ y ∷ [])
  NewKey-append k xs y = λ e h. All-append (λ x. (key x == k) ≡ false) xs y h e

  pub Keyed-append : (xs : List A) (y : A) → NewKey (key y) xs → Keyed xs → Keyed (xs ++ y ∷ [])
  Keyed-append [] y n h = (tt, tt)
  Keyed-append (x ∷ xs) y n h = (
    NewKey-append (key x) xs y (ground (arith, eq_iff (key x) (key y), eq_iff (key y) (key x), n.0))
        h.0,
    Keyed-append xs y n.1 h.1,
  )

  pub Keyed-select : (p : A → Bool) (xs : List A) → Keyed xs → Keyed (select p xs)
  unfolding select
  Keyed-select p [] h = tt
  Keyed-select p (x ∷ xs) h =
      ground (arith, All-select (λ y. (key y == key x) ≡ false) p xs h.0, Keyed-select p xs h.1)

  -- After a DELETE by key the key is free.
  pub NewKey-delete : (k : String) (xs : List A) → NewKey k (select (λ x. not (key x == k)) xs)
  unfolding select
  NewKey-delete k [] = tt
  NewKey-delete k (x ∷ xs) = ground (arith, NewKey-delete k xs)

  -- Two rows with one key are the same row.
  pub Keyed-unique :
      (x y : A) (xs : List A) → Keyed xs → In x xs → In y xs → (key x == key y) ≡ true → x ≡ y
  Keyed-unique x y [] h m n e = absurd m
  Keyed-unique x y (z ∷ zs) h (inl a) (inl b) e = cc
  Keyed-unique x y (z ∷ zs) h (inl a) (inr n) e = ground (
    arith,
    All_at (λ w. (key w == key z) ≡ false) y zs h.0 n,
    eq_iff (key x) (key y),
    eq_iff (key y) (key z),
    ap key a,
  )
  Keyed-unique x y (z ∷ zs) h (inr m) (inl b) e =
      ground
        (arith, All_at (λ w. (key w == key z) ≡ false) x zs h.0 m, ap key b, eq_iff (key x) (key z))
  Keyed-unique x y (z ∷ zs) h (inr m) (inr n) e = Keyed-unique x y zs h.1 m n e

  -- A row of the table is what the look-up of its key finds.
  pub find-Keyed :
      (x : A) (xs : List A) → Keyed xs → In x xs → find (λ y. key y == key x) xs ≡ some x
  unfolding find
  find-Keyed x [] h m = absurd m
  find-Keyed x (z ∷ zs) h (inl e) = ground (arith, eq_refl (key x), ap key e)
  find-Keyed x (z ∷ zs) h (inr m) = ground (
    arith,
    All_at (λ w. (key w == key z) ≡ false) x zs h.0 m,
    find-Keyed x zs h.1 m,
    eq_iff (key x) (key z),
    eq_iff (key z) (key x),
  )
