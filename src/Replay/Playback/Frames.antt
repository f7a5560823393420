-- ===== src/Replay/Playback/Frames.antt =====
-- Where the operations of a playback controller of sim/tes_replay/playback.py move its cursor.
use tirrad_exchange_system.Prelude.{◌≡◌, refl, Bool, false, List, [], ◌∷◌, ◌++◌, All, In}
use tirrad_exchange_system.Prelude.Int.{ℤ, ◌≤ℤ◌}
use tirrad_exchange_system.Prelude.Results.{Result, ok, ◌>>=◌}
use tirrad_exchange_system.Replay.Timeline.{
  PlaybackError, ReplayTimeline, make_timeline, first_step, last_step, clamp, next_step,
  previous_step,
}
use tirrad_exchange_system.Replay.Timeline.Navigation.{
  In-middle, In-later, make_timeline-IsIncreasing, next_step-neighbour, next_step-neighbour,
}
use tirrad_exchange_system.Replay.Playback.{
  PlaybackState, playing, paused, ReplayPlaybackController, make_cursor, with_cursor, create, play,
  pause, seek, jump_to_step, jump_to_event, set_speed, next_frame, previous_frame,
}
use tirrad_exchange_system.Replay.Timeline.Bounds.{
  IsTimeline, make_timeline-IsTimeline, not_negative, clamp_inside, ends, member_inside,
  clamp_member,
}

module _ (Speed : Type 0) (at_most_zero : Speed → Bool) where
  abbrev pub Controller : Type 0
  Controller = ReplayPlaybackController Speed at_most_zero

  -- A playback of the timeline `t`: its cursor is between the first and the last step.
  abbrev pub IsPlayback : ReplayTimeline → Controller → Type 0
  IsPlayback t c =
      (c.timeline ≡ t)
      × (first_step t ≤ℤ c.cursor.step)
      × (c.cursor.step ≤ℤ last_step t)
      × (at_most_zero c.cursor.speed ≡ false)

  abbrev pub Continues : ReplayTimeline → Result PlaybackError Controller → Type 0
  Continues t r = (c : Controller) × (r ≡ ok c) × IsPlayback t c

  pub data Move : Type 0 where
    play_move pause_move next_move previous_move : Move
    seek_move step_move event_move : ℤ → Move
    speed_move : Speed → Move

  -- A speed that is set is positive.
  abbrev pub IsMove : Move → Type 0
  IsMove (speed_move v) = at_most_zero v ≡ false
  IsMove _ = Unit

  unfoldable pub apply_move : Move → Controller → Result PlaybackError Controller
  apply_move play_move c = play Speed at_most_zero c
  apply_move pause_move c = pause Speed at_most_zero c
  apply_move next_move c = next_frame Speed at_most_zero c
  apply_move previous_move c = previous_frame Speed at_most_zero c
  apply_move (seek_move s) c = seek Speed at_most_zero c s
  apply_move (step_move s) c = jump_to_step Speed at_most_zero c s
  apply_move (event_move s) c = jump_to_event Speed at_most_zero c s
  apply_move (speed_move v) c = set_speed Speed at_most_zero c v

  unfoldable pub run_moves : List Move → Controller → Result PlaybackError Controller
  unfolding apply_move
  run_moves [] c = ok c
  run_moves (m ∷ ms) c = apply_move m c >>= run_moves ms

  moved :
      (t : ReplayTimeline) (step : ℤ) (state : PlaybackState) (v : Speed)
      → IsTimeline t
      → first_step t ≤ℤ step
      → step ≤ℤ last_step t
      → at_most_zero v ≡ false
      → Continues t (with_cursor Speed at_most_zero t (make_cursor Speed at_most_zero step state v))
  unfolding with_cursor make_cursor
  moved t step state v h low high e = (
    record { timeline = t; cursor = record { step = step; state = state; speed = v } },
    rw (not_negative t step h low, e) refl,
    (refl, low, high, e),
  )

  sought :
      (t : ReplayTimeline) (c : Controller) (s : ℤ)
      → IsTimeline t
      → IsPlayback t c
      → Continues t (seek Speed at_most_zero c s)
  unfolding seek IsTimeline
  sought t c s h (same, _, _, e) =
      let (low, high) = clamp_inside t s h.0 in
      rw same (moved t (clamp t s) c.cursor.state c.cursor.speed h low high e)

  remade :
      (t : ReplayTimeline) (c : Controller) (state : PlaybackState) (v : Speed)
      → IsTimeline t
      → IsPlayback t c
      → at_most_zero v ≡ false
      → Continues t (
          with_cursor Speed at_most_zero c.timeline
            (make_cursor Speed at_most_zero c.cursor.step state v))
  remade t c state v h (same, low, high, _) e = rw same (moved t c.cursor.step state v h low high e)

  speed_of :
      (t : ReplayTimeline) (c : Controller) → IsPlayback t c → at_most_zero c.cursor.speed ≡ false
  speed_of t c (_, _, _, e) = e

  applied :
      (t : ReplayTimeline) (m : Move) (c : Controller)
      → IsTimeline t
      → IsMove m
      → IsPlayback t c
      → Continues t (apply_move m c)
  unfolding apply_move play pause set_speed next_frame previous_frame jump_to_step jump_to_event
  applied t next_move c h g k = sought t c (next_step c.timeline c.cursor.step) h k
  applied t previous_move c h g k = sought t c (previous_step c.timeline c.cursor.step) h k
  applied t (seek_move s) c h g k = sought t c s h k
  applied t (step_move s) c h g k = sought t c s h k
  applied t (event_move s) c h g k = sought t c s h k
  applied t play_move c h g k = remade t c playing c.cursor.speed h k (speed_of t c k)
  applied t pause_move c h g k = remade t c paused c.cursor.speed h k (speed_of t c k)
  applied t (speed_move v) c h g k = remade t c c.cursor.state v h k g

  ran :
      (t : ReplayTimeline) (ms : List Move) (c : Controller)
      → IsTimeline t
      → All IsMove ms
      → IsPlayback t c
      → Continues t (run_moves ms c)
  unfolding run_moves
  ran t [] c h g k = (c, refl, k)
  ran t (m ∷ ms) c h g k = let (d, e, l) = applied t m c h g.0 k in rw e (ran t ms d h g.1 l)

  -- From a new playback of a timeline that its constructor accepted, at a positive speed, no sequence
  -- of moves that sets only positive speeds raises: it ends in a playback of the same timeline with the
  -- cursor between the first and the last step.
  pub run_moves-IsPlayback :
      (steps : List ℤ) (t : ReplayTimeline) (v : Speed) (ms : List Move)
      → make_timeline steps ≡ ok t
      → at_most_zero v ≡ false
      → All IsMove ms
      → Continues t (create Speed at_most_zero t v >>= run_moves ms)
  unfolding create first_step
  run_moves-IsPlayback steps t v ms e p g =
      let h = make_timeline-IsTimeline steps t e in
      let (low, high) = ends t h in
      let (c, f, k) = moved t (first_step t) paused v h low high p in rw f (ran t ms c h g k)

  kept :
      (c : Controller) (s : ℤ)
      → IsTimeline c.timeline
      → In s c.timeline.steps
      → at_most_zero c.cursor.speed ≡ false
      → seek Speed at_most_zero c s
        ≡ ok (record {
          timeline = c.timeline;
          cursor = record { step = s; state = c.cursor.state; speed = c.cursor.speed };
        })
  unfolding seek make_cursor with_cursor
  kept c s h m e =
      rw
        (
          clamp_member c.timeline s h m,
          not_negative c.timeline s h (member_inside c.timeline s h m).0,
          e,
        )
        refl

  -- At a step of an accepted timeline that has a next one, `next_frame` moves to that step and changes
  -- nothing else, and `previous_frame` then gives the controller that was there before.
  pub previous_frame-next_frame :
      (c : Controller) (b : ℤ) (before after : List ℤ)
      → make_timeline (before ++ c.cursor.step ∷ b ∷ after) ≡ ok c.timeline
      → at_most_zero c.cursor.speed ≡ false
      → (next_frame Speed at_most_zero c
          ≡ ok (record {
            timeline = c.timeline;
            cursor = record { step = b; state = c.cursor.state; speed = c.cursor.speed };
          }))
        × ((next_frame Speed at_most_zero c >>= previous_frame Speed at_most_zero) ≡ ok c)
  unfolding next_frame previous_frame IsTimeline
  previous_frame-next_frame c b before after e p =
      let (same, up, low) =
        make_timeline-IsIncreasing (before ++ c.cursor.step ∷ b ∷ after) c.timeline e in
      let (forth, back) = next_step-neighbour c.timeline c.cursor.step b before after up same in
      let there = kept c b (up, low) (rw same (In-later b c.cursor.step before after)) p in
      let again =
        kept c c.cursor.step (up, low) (rw same (In-middle c.cursor.step before (b ∷ after))) p in
      rw (forth, there, back) (refl, again)
