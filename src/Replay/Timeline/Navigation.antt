-- ===== src/Replay/Timeline/Navigation.antt =====
-- What a checked timeline of sim/tes_replay/playback.py guarantees, and how its look-ups move.
use tirrad_exchange_system.Prelude.{
  ◌≡◌, ◌≢◌, refl, Bool, true, false, List, [], ◌∷◌, ◌++◌, All, any, arith, subst, Bool-cases, inl,
  inr, ◌⊎◌, In, All_at, if◌then◌else◌,
}
use tirrad_exchange_system.Prelude.Int.{ℤ, pos, ltb_ℤ, eqb_ℤ, ◌<ℤ◌, ◌≤ℤ◌, eq_of_parts}
use tirrad_exchange_system.Prelude.Results.{ok}
use tirrad_exchange_system.Replay.Timeline.{
  ReplayTimeline, insert_step, sorted_set, same_steps, make_timeline, first_of, last_of, first_step,
  last_step, clamp, next_above, next_step, is_empty, previous_below, previous_step, min_ℤ, max_ℤ,
}

-- Strictly increasing.
abbrev pub IsIncreasing : List ℤ → Type 0
IsIncreasing [] = Unit
IsIncreasing (x ∷ xs) = All (λ y. x <ℤ y) xs × IsIncreasing xs

All-insert_step : (P : ℤ → Type 0) (x : ℤ) (ys : List ℤ) → P x → All P ys → All P (insert_step x ys)
unfolding insert_step
All-insert_step P x [] px h = (px, tt)
All-insert_step P x (y ∷ ys) px h = ground (arith, All-insert_step P x ys px h.1)

below-All : (x y : ℤ) (ys : List ℤ) → x <ℤ y → All (λ z. y <ℤ z) ys → All (λ z. x <ℤ z) ys
below-All x y [] h k = tt
below-All x y (z ∷ zs) h k = (omega (arith, h, k.0), below-All x y zs h k.1)

insert_step-IsIncreasing : (x : ℤ) (ys : List ℤ) → IsIncreasing ys → IsIncreasing (insert_step x ys)
unfolding insert_step
insert_step-IsIncreasing x [] h = (tt, tt)
insert_step-IsIncreasing x (y ∷ ys) h = elim (Bool-cases (ltb_ℤ x y)) [
  | inl e ↦ rw e ((ground arith, below-All x y ys (ground arith) h.0), h)
  | inr e ↦ elim (Bool-cases (eqb_ℤ x y)) [
    | inl f ↦ rw (e, f) h
    | inr f ↦
        rw (e, f)
          (All-insert_step (λ z. y <ℤ z) x ys (ground arith) h.0, insert_step-IsIncreasing x ys h.1)
  ]
]

sorted_set-IsIncreasing : (xs : List ℤ) → IsIncreasing (sorted_set xs)
unfolding sorted_set
sorted_set-IsIncreasing [] = tt
sorted_set-IsIncreasing (x ∷ xs) =
    insert_step-IsIncreasing x (sorted_set xs) (sorted_set-IsIncreasing xs)

same_steps-eq : (xs ys : List ℤ) → same_steps xs ys ≡ true → xs ≡ ys
unfolding same_steps
same_steps-eq [] [] h = refl
same_steps-eq [] (y ∷ ys) h = cc
same_steps-eq (x ∷ xs) [] h = cc
same_steps-eq (x ∷ xs) (y ∷ ys) h = ground (arith, same_steps-eq xs ys, eq_of_parts x y)

not_any : (p : ℤ → Bool) (xs : List ℤ) → any p xs ≡ false → All (λ x. p x ≡ false) xs
not_any p [] h = tt
not_any p (x ∷ xs) h = ground (arith, not_any p xs)

pub In-middle : (a : ℤ) (xs ys : List ℤ) → In a (xs ++ a ∷ ys)
In-middle a [] ys = inl refl
In-middle a (x ∷ xs) ys = inr (In-middle a xs ys)

pub In-later : (b a : ℤ) (xs ys : List ℤ) → In b (xs ++ a ∷ b ∷ ys)
In-later b a [] ys = inr (inl refl)
In-later b a (x ∷ xs) ys = inr (In-later b a xs ys)

accepted :
    (steps : List ℤ) (t : ReplayTimeline)
    → make_timeline steps ≡ ok t
    → (any (λ s. ltb_ℤ s (pos 0)) steps ≡ false)
      × (same_steps (sorted_set steps) steps ≡ true)
      × (t.steps ≡ steps)
unfolding make_timeline
accepted steps t e = ground arith

-- A timeline that the constructor accepts holds the given steps, none negative, each below the next.
pub make_timeline-IsIncreasing :
    (steps : List ℤ) (t : ReplayTimeline)
    → make_timeline steps ≡ ok t
    → (t.steps ≡ steps) × IsIncreasing t.steps × All (λ s. ltb_ℤ s (pos 0) ≡ false) t.steps
make_timeline-IsIncreasing steps t e =
    let (positive, sorted, same) = accepted steps t e in
    (
      same,
      rw same (
          subst IsIncreasing (same_steps-eq (sorted_set steps) steps sorted)
            (sorted_set-IsIncreasing steps)),
      rw same (not_any (λ s. ltb_ℤ s (pos 0)) steps positive),
    )

-- The look-ups, at a pair of neighbours.
next_above-neighbour :
    (d a b : ℤ) (before after : List ℤ)
    → IsIncreasing (before ++ a ∷ b ∷ after)
    → next_above d a (before ++ a ∷ b ∷ after) ≡ b
unfolding next_above
next_above-neighbour d a b [] after h = ground arith
next_above-neighbour d a b (c ∷ before) after h =
    let low =
      All_at (λ y. c <ℤ y) a (before ++ a ∷ b ∷ after) h.0 (In-middle a before (b ∷ after)) in
    ground (arith, low, next_above-neighbour d a b before after h.1)

previous_below-neighbour :
    (p a b : ℤ) (before after : List ℤ)
    → IsIncreasing (before ++ a ∷ b ∷ after)
    → previous_below p b (before ++ a ∷ b ∷ after) ≡ a
unfolding previous_below
previous_below-neighbour p a b [] after h = ground arith
previous_below-neighbour p a b (c ∷ before) after h =
    let low = All_at (λ y. c <ℤ y) b (before ++ a ∷ b ∷ after) h.0 (In-later b a before after) in
    ground (arith, low, previous_below-neighbour c a b before after h.1)

-- From a step of the timeline `next_step` goes to the step after it, and from there `previous_step`
-- comes back.
pub next_step-neighbour :
    (t : ReplayTimeline) (a b : ℤ) (before after : List ℤ)
    → IsIncreasing t.steps
    → t.steps ≡ before ++ a ∷ b ∷ after
    → (next_step t a ≡ b) × (previous_step t b ≡ a)
unfolding next_step previous_step
next_step-neighbour t a b before after h e = rw e (
  next_above-neighbour _ a b before after (rw e at h),
  previous_below-neighbour _ a b before after (rw e at h),
)

next_above-default : (d s : ℤ) (cs : List ℤ) → All (λ c. c ≤ℤ s) cs → next_above d s cs ≡ d
unfolding next_above
next_above-default d s [] h = refl
next_above-default d s (c ∷ cs) h = ground (arith, next_above-default d s cs h.1)

pub below_last : (d : ℤ) (cs : List ℤ) → IsIncreasing cs → All (λ c. c ≤ℤ last_of d cs) cs
below_last d [] h = tt
below_last d (c ∷ []) h = (omega arith, tt)
below_last d (c ∷ e ∷ cs) h =
    let rest = below_last c (e ∷ cs) h.1 in (omega (arith, rest.0, h.0.0), rest)

-- At the ends the look-ups stay: the last step has no next, and the first no previous.
pub next_step-last :
    (t : ReplayTimeline)
    → IsIncreasing t.steps
    → (next_step t (last_step t) ≡ last_step t) × (previous_step t (first_step t) ≡ first_step t)
unfolding next_step previous_step first_step last_step
next_step-last t h = (next_above-default _ _ t.steps (below_last (pos 0) t.steps h), stays t.steps)
  where
    stays : (cs : List ℤ) → previous_below (first_of cs) (first_of cs) cs ≡ first_of cs
    stays [] = refl
    stays (c ∷ cs) = ground arith

IsNextOf : ℤ → ℤ → List ℤ → ℤ → Type 0
IsNextOf r s cs c = In r cs × (s <ℤ r) × (r ≤ℤ c)

least_here :
    (s x c : ℤ) (cs : List ℤ)
    → IsIncreasing (x ∷ cs)
    → In c (x ∷ cs)
    → s <ℤ x
    → IsNextOf x s (x ∷ cs) c
unfolding IsNextOf
least_here s x c cs h (inl e) l = (inl refl, l, ground (arith, e))
least_here s x c cs h (inr m) l =
    let low = All_at (λ y. x <ℤ y) c cs h.0 m in (inl refl, l, omega (arith, low))

least_there : (r s x c : ℤ) (cs : List ℤ) → IsNextOf r s cs c → IsNextOf r s (x ∷ cs) c
unfolding IsNextOf
least_there r s x c cs (m, above, below) = (inr m, above, below)

later : (s x c : ℤ) (cs : List ℤ) → ltb_ℤ s x ≡ false → In c (x ∷ cs) → s <ℤ c → In c cs
later s x c cs e (inl f) l = absurd (clash e (subst (λ y. s <ℤ y) f l))
  where
    clash : ltb_ℤ s x ≡ false → s <ℤ x → ⊥
    clash g k = ground (arith, g, k)
later s x c cs e (inr n) l = n

next_above-least :
    (d s : ℤ) (cs : List ℤ) (c : ℤ)
    → IsIncreasing cs
    → In c cs
    → s <ℤ c
    → IsNextOf (next_above d s cs) s cs c
unfolding next_above
next_above-least d s [] c h m l = absurd m
next_above-least d s (x ∷ cs) c h m l = elim (Bool-cases (ltb_ℤ s x)) [
  | inl e ↦ rw e (least_here s x c cs h m (ground arith))
  | inr e ↦ rw e (
      least_there (next_above d s cs) s x c cs
        (next_above-least d s cs c h.1 (later s x c cs e m l) l))
]

-- Whenever a step of the timeline lies above `s`, `next_step` gives the least of them.
pub next_step-least :
    (t : ReplayTimeline) (s c : ℤ)
    → IsIncreasing t.steps
    → In c t.steps
    → s <ℤ c
    → In (next_step t s) t.steps × (s <ℤ next_step t s) × (next_step t s ≤ℤ c)
unfolding next_step IsNextOf
next_step-least t s c h m l = next_above-least (last_step t) s t.steps c h m l

pub first_le_last : (x : ℤ) (cs : List ℤ) → IsIncreasing (x ∷ cs) → x ≤ℤ last_of x cs
first_le_last x cs h = (below_last x (x ∷ cs) h).0

pub clamp_range :
    (x s : ℤ) (cs : List ℤ)
    → IsIncreasing (x ∷ cs)
    → (x ≤ℤ min_ℤ (max_ℤ s x) (last_of x cs)) × (min_ℤ (max_ℤ s x) (last_of x cs) ≤ℤ last_of x cs)
clamp_range x s cs h = ground (arith, first_le_last x cs h)

between : (a b s : ℤ) → (min_ℤ (max_ℤ s a) b ≡ s) ⊎ (s <ℤ a) ⊎ (b <ℤ s)
between a b s = ground arith

-- On a timeline that has steps `clamp` gives a value between the first and the last of them, and
-- leaves a value that is between them as it is.
pub clamp_bounds :
    (t : ReplayTimeline) (s : ℤ)
    → IsIncreasing t.steps
    → t.steps ≢ []
    → (first_step t ≤ℤ clamp t s)
      × (clamp t s ≤ℤ last_step t)
      × ((clamp t s ≡ s) ⊎ (s <ℤ first_step t) ⊎ (last_step t <ℤ s))
unfolding clamp first_step last_step
clamp_bounds t s h n = split t.steps h n
  where
    split :
        (cs : List ℤ)
        → IsIncreasing cs
        → cs ≢ []
        → (first_of cs
            ≤ℤ (if is_empty cs then pos 0 else min_ℤ (max_ℤ s (first_of cs)) (last_of (pos 0) cs)))
          × ((if is_empty cs then pos 0 else min_ℤ (max_ℤ s (first_of cs)) (last_of (pos 0) cs))
              ≤ℤ last_of (pos 0) cs)
          × (((if is_empty cs then pos 0 else min_ℤ (max_ℤ s (first_of cs)) (last_of (pos 0) cs))
                ≡ s)
              ⊎ (s <ℤ first_of cs)
              ⊎ (last_of (pos 0) cs <ℤ s))
    split [] k m = absurd (m refl)
    split (x ∷ cs) k m =
        let (low, high) = clamp_range x s cs k in (low, high, between x (last_of x cs) s)
