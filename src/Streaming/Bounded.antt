-- ===== src/Streaming/Bounded.antt =====
-- A deque with a bounded length, and the last elements of a list, for sim/api/services/stream_service.py.
use tirrad_exchange_system.Prelude.{
  ℕ, zero, suc, ◌+◌, ◌-◌, ◌≤◌, ◌<◌, ◌≡◌, refl, sym, ap, ◌∙◌, true, false, List, [], ◌∷◌, ◌++◌,
  length, drop, leb, arith, Bool-cases, inl, inr,
}
use tirrad_exchange_system.Storage.Paging.{drop-drop}
use tirrad_exchange_system.Prelude.Counting.{length_append}
use tirrad_exchange_system.Streaming.{push_bounded, last_of}

leb-le : (m n : ℕ) → leb m n ≡ true → m ≤ n
leb-le m n h = ground arith

leb-lt : (m n : ℕ) → leb m n ≡ false → n < m
leb-lt m n h = ground arith

module _ {A : Type 0} where
  length-drop : (n : ℕ) (xs : List A) → length (drop n xs) ≡ length xs - n
  length-drop zero xs = omega arith
  length-drop (suc n) [] = omega arith
  length-drop (suc n) (x ∷ xs) = omega (arith, length-drop n xs)

  drop_append :
      (n : ℕ) (xs : List A) (x : A) → n ≤ length xs → drop n (xs ++ x ∷ []) ≡ drop n xs ++ x ∷ []
  drop_append zero xs x h = refl
  drop_append (suc n) [] x h = absurd (omega (arith, h))
  drop_append (suc n) (y ∷ ys) x h = drop_append n ys x (omega (arith, h))

  pub append_assoc : (xs ys zs : List A) → (xs ++ ys) ++ zs ≡ xs ++ (ys ++ zs)
  append_assoc [] ys zs = refl
  append_assoc (x ∷ xs) ys zs = ap (λ ws. x ∷ ws) (append_assoc xs ys zs)

  pub append_nil : (xs : List A) → xs ++ [] ≡ xs
  append_nil [] = refl
  append_nil (x ∷ xs) = ap (λ ws. x ∷ ws) (append_nil xs)

  pub length-last_of : (n : ℕ) (xs : List A) → length (last_of n xs) ≤ n
  unfolding last_of
  length-last_of n xs = omega (arith, length-drop (length xs - n) xs)

  -- A full deque of the last elements keeps being one.
  pub push_bounded-last_of :
      (n : ℕ) (xs : List A) (x : A)
      → 0 < n
      → push_bounded n (last_of n xs) x ≡ last_of n (xs ++ x ∷ [])
  unfolding push_bounded last_of
  push_bounded-last_of n xs x h =
      let k = length xs - n in
      let kept = length-drop k xs in
      let grown = length_append xs x in
      let moved = drop_append k xs x (omega arith) in
      elim (Bool-cases (leb (length (drop k xs) + 1) n)) [
        | inl room ↦
            let small = leb-le (length (drop k xs) + 1) n room in
            rw room
              (sym moved ∙ ap (λ j. drop j (xs ++ x ∷ [])) (omega (arith, kept, grown, small, h)))
        | inr full ↦
            let large = leb-lt (length (drop k xs) + 1) n full in
            rw full (
              ap (drop 1) (sym moved)
              ∙ drop-drop k 1 (xs ++ x ∷ [])
              ∙ ap (λ j. drop j (xs ++ x ∷ [])) (omega (arith, kept, grown, large, h)))
      ]

pub length-last_of_pos :
    {A : Type 0} (n : ℕ) (xs : List A) → 0 < n → 0 < length xs → 0 < length (last_of n xs)
unfolding last_of
length-last_of_pos n xs h l = omega (arith, length-drop (length xs - n) xs)
