-- ===== src/Prelude/Text.antt =====
-- The order of texts that SQLite's BINARY collation and Python's `sorted` use: by code points
-- (for UTF-8 the order of the bytes is the order of the code points).
use Prim.Native.Char.{code}
use Prim.Native.Nat.{ℕ}
use Prim.Native.String.{String}
use mathlib.Core.Path.{◌≡◌, refl}
use mathlib.Core.Logic.{◌⊎◌, inl, inr}
use mathlib.Core.Bool.{Bool, true, false}
use mathlib.Core.List.{List, [], ◌∷◌}
use native.Mathlib.Omega.{arith}
use tirrad_exchange_system.Prelude.Tests.{ltb, eqb, if◌then◌else◌}

abbrev pub codes : String → List ℕ
codes String.[] = []
codes (String.◌∷◌ c s) = code c ∷ codes s

unfoldable pub codes_leb : List ℕ → List ℕ → Bool
codes_leb [] ys = true
codes_leb (x ∷ xs) [] = false
codes_leb (x ∷ xs) (y ∷ ys) =
    let rest = codes_leb xs ys in if ltb x y then true else if eqb x y then rest else false

unfoldable pub text_leb : String → String → Bool
unfolding codes_leb
text_leb s t = codes_leb (codes s) (codes t)

codes_leb_total : (xs ys : List ℕ) → (codes_leb xs ys ≡ true) ⊎ (codes_leb ys xs ≡ true)
unfolding codes_leb
codes_leb_total [] ys = inl refl
codes_leb_total (x ∷ xs) [] = inr refl
codes_leb_total (x ∷ xs) (y ∷ ys) = ground (arith, codes_leb_total xs ys)

codes_leb_trans :
    (xs ys zs : List ℕ) → codes_leb xs ys ≡ true → codes_leb ys zs ≡ true → codes_leb xs zs ≡ true
unfolding codes_leb
codes_leb_trans [] ys zs h k = refl
codes_leb_trans (x ∷ xs) [] zs h k = cc
codes_leb_trans (x ∷ xs) (y ∷ ys) [] h k = cc
codes_leb_trans (x ∷ xs) (y ∷ ys) (z ∷ zs) h k = ground (arith, codes_leb_trans xs ys zs)

pub text_leb_total : (s t : String) → (text_leb s t ≡ true) ⊎ (text_leb t s ≡ true)
unfolding text_leb
text_leb_total s t = codes_leb_total (codes s) (codes t)

pub text_leb_trans :
    (s t u : String) → text_leb s t ≡ true → text_leb t u ≡ true → text_leb s u ≡ true
unfolding text_leb
text_leb_trans s t u = codes_leb_trans (codes s) (codes t) (codes u)
