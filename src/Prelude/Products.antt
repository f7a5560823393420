-- ===== src/Prelude/Products.antt =====
-- itertools.product: the last list varies fastest.
use Prim.Native.Nat.{ℕ, suc, ◌+◌, ◌*◌}
use mathlib.Core.Path.{◌≡◌, refl, ap, subst}
use mathlib.Core.List.{List, [], ◌∷◌, ◌++◌, map}
use native.Mathlib.Omega.{arith}
use mathlib.Core.Logic.{inl, inr}
use tirrad_exchange_system.Prelude.Lists.{length, In, In-map, All, All-intro}

length_append : {A : Type 0} (xs ys : List A) → length (xs ++ ys) ≡ length xs + length ys
length_append [] ys = omega arith
length_append (x ∷ xs) ys = omega (arith, length_append xs ys)

module _ {A B : Type 0} where
  abbrev pub flat_map : (A → List B) → List A → List B
  flat_map f [] = []
  flat_map f (x ∷ xs) = f x ++ flat_map f xs

  pub length-map : (f : A → B) (xs : List A) → length (map f xs) ≡ length xs
  length-map f [] = refl
  length-map f (x ∷ xs) = ap suc (length-map f xs)

  pub length-flat_map :
      (f : A → List B) (n : ℕ) (xs : List A)
      → ((x : A) → length (f x) ≡ n)
      → length (flat_map f xs) ≡ length xs * n
  length-flat_map f n [] h = omega arith
  length-flat_map f n (x ∷ xs) h =
      omega (arith, length_append (f x) (flat_map f xs), h x, length-flat_map f n xs h)

module _ {A B : Type 0} where
  unfoldable pub product : List A → List B → List (A × B)
  product xs ys = flat_map (λ x. map (λ y. (x, y)) ys) xs

  pub length-product : (xs : List A) (ys : List B) → length (product xs ys) ≡ length xs * length ys
  unfolding product
  length-product xs ys =
      length-flat_map (λ x. map (λ y. (x, y)) ys) (length ys) xs (λ x. length-map (λ y. (x, y)) ys)

module _ {A : Type 0} where
  In-append_left : (x : A) (xs ys : List A) → In x xs → In x (xs ++ ys)
  In-append_left x [] ys i = absurd i
  In-append_left x (z ∷ xs) ys (inl e) = inl e
  In-append_left x (z ∷ xs) ys (inr i) = inr (In-append_left x xs ys i)

  In-append_right : (x : A) (xs ys : List A) → In x ys → In x (xs ++ ys)
  In-append_right x [] ys i = i
  In-append_right x (z ∷ xs) ys i = inr (In-append_right x xs ys i)

  All-append_lists : (P : A → Type 0) (xs ys : List A) → All P xs → All P ys → All P (xs ++ ys)
  All-append_lists P [] ys h k = k
  All-append_lists P (x ∷ xs) ys h k = (h.0, All-append_lists P xs ys h.1 k)

module _ {A B : Type 0} where
  pub In-flat_map :
      (f : A → List B) (a : A) (b : B) (xs : List A) → In a xs → In b (f a) → In b (flat_map f xs)
  In-flat_map f a b [] i j = absurd i
  In-flat_map f a b (x ∷ xs) (inl e) j =
      In-append_left b (f x) (flat_map f xs) (subst (λ y. In b (f y)) e j)
  In-flat_map f a b (x ∷ xs) (inr i) j =
      In-append_right b (f x) (flat_map f xs) (In-flat_map f a b xs i j)

  pub All-flat_map :
      (P : B → Type 0) (f : A → List B) (xs : List A)
      → ((a : A) → In a xs → All P (f a))
      → All P (flat_map f xs)
  All-flat_map P f [] h = tt
  All-flat_map P f (x ∷ xs) h =
      All-append_lists P (f x) (flat_map f xs) (h x (inl refl))
        (All-flat_map P f xs (λ a i. h a (inr i)))

  pub All-map_to :
      (P : B → Type 0) (f : A → B) (xs : List A) → All (λ a. P (f a)) xs → All P (map f xs)
  All-map_to P f [] h = tt
  All-map_to P f (x ∷ xs) h = (h.0, All-map_to P f xs h.1)

module _ {A B : Type 0} where
  pub In-product :
      (a : A) (b : B) (xs : List A) (ys : List B) → In a xs → In b ys → In (a, b) (product xs ys)
  unfolding product
  In-product a b xs ys i j =
      In-flat_map (λ x. map (λ y. (x, y)) ys) a (a, b) xs i (In-map (λ y. (a, y)) b ys j)

  pub All-product : (xs : List A) (ys : List B) → All (λ p. In p.0 xs × In p.1 ys) (product xs ys)
  unfolding product
  All-product xs ys =
      All-flat_map _ (λ x. map (λ y. (x, y)) ys) xs
        (λ a i. All-map_to _ (λ y. (a, y)) ys (All-intro _ ys (λ b j. (i, j))))
