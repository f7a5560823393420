-- ===== src/Floats.antt =====
-- The operators of Python's floats, which sim/api/tournaments.py and sim/tes_benchmarks/models.py use. A
-- float is its repr; the operators are taken not to raise on the sizes at hand.
use tirrad_exchange_system.Prelude.{Bool, List}
use tirrad_exchange_system.Prelude.Int.{ℤ}
use tirrad_exchange_system.Json.{Float}

pub record Floats : Type 0 where
  -- float(n), and the operators.
  pub of_int : ℤ → Float
  pub plus : Float → Float → Float
  pub minus : Float → Float → Float
  pub times : Float → Float → Float
  pub over : Float → Float → Float
  -- abs(x), x ** 2, x ** 0.5 and sum(xs) of a list that is not empty.
  pub absolute : Float → Float
  pub squared : Float → Float
  pub root : Float → Float
  pub sum_of : List Float → Float
  -- x < y and x == y.
  pub below : Float → Float → Bool
  pub same : Float → Float → Bool
