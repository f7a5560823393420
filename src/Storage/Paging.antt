-- ===== src/Storage/Paging.antt =====
-- The pages that sim/api/storage/in_memory.py gives.
use tirrad_exchange_system.Prelude.{
  ℕ, zero, suc, ◌+◌, ◌≡◌, ◌⊎◌, refl, ap, Option, none, some, List, [], ◌∷◌, ◌++◌, take, drop, arith,
  ltb, if◌then◌else◌, sym, ◌∙◌,
}
use tirrad_exchange_system.Prelude.Int.{ℤ, pos, pos_part, ltb_ℤ, ◌<ℤ◌}
use tirrad_exchange_system.Json.{Fields}
use tirrad_exchange_system.Storage.Selection.{page}

module _ {A : Type 0} where
  take-drop : (n : ℕ) (xs : List A) → take n xs ++ drop n xs ≡ xs
  take-drop zero xs = refl
  take-drop (suc n) [] = refl
  take-drop (suc n) (x ∷ xs) = ap (λ ys. x ∷ ys) (take-drop n xs)

  pub drop-nil : (n : ℕ) → drop {A = A} n [] ≡ []
  drop-nil zero = refl
  drop-nil (suc n) = refl

  pub drop-drop : (m n : ℕ) (xs : List A) → drop n (drop m xs) ≡ drop (m + n) xs
  drop-drop zero n xs = let e : n ≡ 0 + n = omega arith in ap (λ k. drop k xs) e
  drop-drop (suc m) n [] = drop-nil n ∙ sym (drop-nil (suc m + n))
  drop-drop (suc m) n (x ∷ xs) =
      let e : suc (m + n) ≡ suc m + n = omega arith in
      drop-drop m n xs ∙ ap (λ k. drop k (x ∷ xs)) e

  -- xs[n], none out of range.
  abbrev pub entry : ℕ → List A → Option A
  entry n [] = none
  entry zero (x ∷ xs) = some x
  entry (suc n) (x ∷ xs) = entry n xs

  entry-drop : (m k : ℕ) (xs : List A) → entry k (drop m xs) ≡ entry (m + k) xs
  entry-drop zero k xs = let e : k ≡ 0 + k = omega arith in ap (λ n. entry n xs) e
  entry-drop (suc m) k [] = refl
  entry-drop (suc m) k (x ∷ xs) =
      let e : suc (m + k) ≡ suc m + k = omega arith in
      entry-drop m k xs ∙ ap (λ n. entry n (x ∷ xs)) e

  entry-take :
      (n k : ℕ) (xs : List A) → entry k (take n xs) ≡ (if ltb k n then entry k xs else none)
  entry-take zero k xs = ground arith
  entry-take (suc n) k [] = ground arith
  entry-take (suc n) zero (x ∷ xs) = ground arith
  entry-take (suc n) (suc k) (x ∷ xs) = ground (arith, entry-take n k xs)

-- The number that a limit or an offset stands for: a negative one for 0.
abbrev pub Clamps : ℤ → ℕ → Type 0
Clamps z n = (z ≡ pos n) ⊎ ((z <ℤ pos 0) × (n ≡ 0))

Clamps-pos_part : (z : ℤ) (n : ℕ) → Clamps z n → pos_part z ≡ n
Clamps-pos_part z n h = ground arith

ltb-pos_part : (k : ℕ) (z : ℤ) → ltb k (pos_part z) ≡ ltb_ℤ (pos k) z
ltb-pos_part k z = ground arith

-- For any limit and offset, negative ones included, which count as 0: the entry `k` of a page is the
-- entry that stands `k` after the offset where `k` is below the limit, and there is none from
-- the limit on; without a limit it is the entry that stands `k` after the offset. A page, followed by all the entries
-- from its end on, is all the entries from its offset: paging drops and repeats none.
pub page-append :
    (items : List Fields) (limit offset : ℤ) (most start k : ℕ)
    → Clamps limit most
    → Clamps offset start
    → (entry k (page items (some limit) offset)
        ≡ (if ltb_ℤ (pos k) limit then entry (start + k) items else none))
      × (entry k (page items none offset) ≡ entry (start + k) items)
      × (page items (some limit) offset ++ page items none (pos (start + most))
          ≡ page items none offset)
unfolding page
page-append items limit offset most start k cl co =
    let l = Clamps-pos_part limit most cl in
    let o = Clamps-pos_part offset start co in
    (
      rw (o, sym (ltb-pos_part k limit), sym (entry-drop start k items))
          (entry-take (pos_part limit) k (drop start items)),
      rw o (entry-drop start k items),
      rw (l, o, sym (drop-drop start most items)) (take-drop most (drop start items)),
    )
