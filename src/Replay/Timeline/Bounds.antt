-- ===== src/Replay/Timeline/Bounds.antt =====
-- The steps and the clamped steps of a checked timeline of sim/tes_replay/playback.py.
use tirrad_exchange_system.Prelude.{
  ◌≡◌, ◌≢◌, refl, false, List, [], ◌∷◌, All, arith, inl, inr, ◌⊎◌, In, All_at, if◌then◌else◌,
}
use tirrad_exchange_system.Prelude.Int.{ℤ, pos, ltb_ℤ, ◌<ℤ◌, ◌≤ℤ◌}
use tirrad_exchange_system.Prelude.Results.{ok}
use tirrad_exchange_system.Replay.Timeline.{
  ReplayTimeline, make_timeline, first_of, last_of, is_empty, first_step, last_step, clamp, min_ℤ,
  max_ℤ,
}
use tirrad_exchange_system.Replay.Timeline.Navigation.{
  IsIncreasing, make_timeline-IsIncreasing, clamp_range, clamp_bounds, below_last, first_le_last,
}

-- What a checked timeline gives.
unfoldable pub IsTimeline : ReplayTimeline → Type 0
IsTimeline t = IsIncreasing t.steps × All (λ s. ltb_ℤ s (pos 0) ≡ false) t.steps

pub make_timeline-IsTimeline :
    (steps : List ℤ) (t : ReplayTimeline) → make_timeline steps ≡ ok t → IsTimeline t
unfolding IsTimeline
make_timeline-IsTimeline steps t e = let (_, h, k) = make_timeline-IsIncreasing steps t e in (h, k)

first_bound :
    (cs : List ℤ) → All (λ s. ltb_ℤ s (pos 0) ≡ false) cs → ltb_ℤ (first_of cs) (pos 0) ≡ false
first_bound [] h = refl
first_bound (x ∷ cs) h = h.0

pub clamp_inside :
    (t : ReplayTimeline) (s : ℤ)
    → IsIncreasing t.steps
    → (first_step t ≤ℤ clamp t s) × (clamp t s ≤ℤ last_step t)
unfolding clamp first_step last_step
clamp_inside t s h = inside t.steps h
  where
    inside :
        (cs : List ℤ)
        → IsIncreasing cs
        → (first_of cs
            ≤ℤ (if is_empty cs then pos 0 else min_ℤ (max_ℤ s (first_of cs)) (last_of (pos 0) cs)))
          × ((if is_empty cs then pos 0 else min_ℤ (max_ℤ s (first_of cs)) (last_of (pos 0) cs))
              ≤ℤ last_of (pos 0) cs)
    inside [] k = (omega arith, omega arith)
    inside (x ∷ cs) k = clamp_range x s cs k

pub not_negative :
    (t : ReplayTimeline) (s : ℤ) → IsTimeline t → first_step t ≤ℤ s → ltb_ℤ s (pos 0) ≡ false
unfolding IsTimeline first_step
not_negative t s h low = above (first_of t.steps) s (first_bound t.steps h.1) low
  where
    above : (a b : ℤ) → ltb_ℤ a (pos 0) ≡ false → a ≤ℤ b → ltb_ℤ b (pos 0) ≡ false
    above a b k l = ground arith

pub ends :
    (t : ReplayTimeline)
    → IsTimeline t
    → (first_step t ≤ℤ first_step t) × (first_step t ≤ℤ last_step t)
unfolding IsTimeline first_step last_step
ends t h = (omega arith, at t.steps h.0)
  where
    at : (cs : List ℤ) → IsIncreasing cs → first_of cs ≤ℤ last_of (pos 0) cs
    at [] k = omega arith
    at (x ∷ cs) k = first_le_last x cs k

pub member_inside :
    (t : ReplayTimeline) (s : ℤ)
    → IsTimeline t
    → In s t.steps
    → (first_step t ≤ℤ s) × (s ≤ℤ last_step t)
unfolding IsTimeline first_step last_step
member_inside t s h m = (
  at t.steps h.0 m,
  All_at (λ c. c ≤ℤ last_of (pos 0) t.steps) s t.steps (below_last (pos 0) t.steps h.0) m,
)
  where
    at : (cs : List ℤ) → IsIncreasing cs → In s cs → first_of cs ≤ℤ s
    at [] k n = absurd n
    at (x ∷ cs) k (inl e) = rw e (omega arith)
    at (x ∷ cs) k (inr n) = let low = All_at (λ y. x <ℤ y) s cs k.0 n in omega (arith, low)

pub clamp_member : (t : ReplayTimeline) (s : ℤ) → IsTimeline t → In s t.steps → clamp t s ≡ s
unfolding IsTimeline
clamp_member t s h m = elim (clamped t s h.0 (some_step t.steps m)) [
  | inl e ↦ e
  | inr (inl e) ↦ absurd (apart (first_step t) s (member_inside t s h m).0 e)
  | inr (inr e) ↦ absurd (apart s (last_step t) (member_inside t s h m).1 e)
]
  where
    some_step : (cs : List ℤ) → In s cs → cs ≢ []
    some_step [] n e = absurd n
    some_step (x ∷ cs) n e = cc

    apart : (a b : ℤ) → a ≤ℤ b → b <ℤ a → ⊥
    apart a b k l = omega (arith, k, l)

    clamped :
        (u : ReplayTimeline) (r : ℤ)
        → IsIncreasing u.steps
        → u.steps ≢ []
        → (clamp u r ≡ r) ⊎ (r <ℤ first_step u) ⊎ (last_step u <ℤ r)
    clamped u r i n = let (_, _, k) = clamp_bounds u r i n in k
