-- ===== src/Replay/Timeline.antt =====
-- `ReplayTimeline` of sim/tes_replay/playback.py. Steps are Python's integers.
pub mod Navigation
pub mod Bounds
use tirrad_exchange_system.Prelude.{
  Bool, true, false, not, ◌&&◌, ◌||◌, List, [], ◌∷◌, if◌then◌else◌, any, Option, none, some,
}
use tirrad_exchange_system.Prelude.Int.{ℤ, pos, ltb_ℤ, leb_ℤ, eqb_ℤ}
use tirrad_exchange_system.Prelude.Results.{Result, ok, err}

-- The ValueError of each check.
pub data PlaybackError : Type 0 where
  negative_step unsorted_steps bad_speed : PlaybackError

pub record ReplayTimeline : Type 0 where
  pub steps : List ℤ

-- sorted(set(steps))
unfoldable pub insert_step : ℤ → List ℤ → List ℤ
insert_step x [] = x ∷ []
insert_step x (y ∷ ys) =
    let rest = y ∷ insert_step x ys in
    if ltb_ℤ x y then x ∷ y ∷ ys else if eqb_ℤ x y then y ∷ ys else rest

unfoldable pub sorted_set : List ℤ → List ℤ
unfolding insert_step
sorted_set [] = []
sorted_set (x ∷ xs) = insert_step x (sorted_set xs)

unfoldable pub same_steps : List ℤ → List ℤ → Bool
same_steps [] [] = true
same_steps (x ∷ xs) (y ∷ ys) = eqb_ℤ x y && same_steps xs ys
same_steps _ _ = false

-- ReplayTimeline(steps): the constructor with its checks.
unfoldable pub make_timeline : List ℤ → Result PlaybackError ReplayTimeline
unfolding sorted_set same_steps
make_timeline steps =
    if any (λ step. ltb_ℤ step (pos 0)) steps
    then err negative_step
    else if not (same_steps (sorted_set steps) steps)
    then err unsorted_steps
    else ok (record { steps = steps })

abbrev pub first_of : List ℤ → ℤ
first_of [] = pos 0
first_of (x ∷ xs) = x

abbrev pub last_of : ℤ → List ℤ → ℤ
last_of d [] = d
last_of d (x ∷ xs) = last_of x xs

unfoldable pub first_step : ReplayTimeline → ℤ
first_step t = first_of t.steps

unfoldable pub last_step : ReplayTimeline → ℤ
last_step t = last_of (pos 0) t.steps

abbrev pub max_ℤ : ℤ → ℤ → ℤ
max_ℤ a b = if ltb_ℤ a b then b else a

abbrev pub min_ℤ : ℤ → ℤ → ℤ
min_ℤ a b = if ltb_ℤ b a then b else a

abbrev pub is_empty : List ℤ → Bool
is_empty [] = true
is_empty (x ∷ xs) = false

unfoldable pub clamp : ReplayTimeline → ℤ → ℤ
unfolding first_step last_step
clamp t step = if is_empty t.steps then pos 0 else min_ℤ (max_ℤ step (first_step t)) (last_step t)

-- The loop of `next_step`: the first candidate above `step`, else the default.
unfoldable pub next_above : ℤ → ℤ → List ℤ → ℤ
next_above d step [] = d
next_above d step (c ∷ cs) = let rest = next_above d step cs in if ltb_ℤ step c then c else rest

unfoldable pub next_step : ReplayTimeline → ℤ → ℤ
unfolding last_step next_above
next_step t step = next_above (last_step t) step t.steps

-- The loop of `previous_step`, with its variable `previous`.
unfoldable pub previous_below : ℤ → ℤ → List ℤ → ℤ
previous_below previous step [] = previous
previous_below previous step (c ∷ cs) =
    let rest = previous_below c step cs in if leb_ℤ step c then previous else rest

unfoldable pub previous_step : ReplayTimeline → ℤ → ℤ
unfolding first_step previous_below
previous_step t step = previous_below (first_step t) step t.steps
