-- ===== src/Replay/Playback.antt =====
-- `ReplayCursor` and `ReplayPlaybackController` of sim/tes_replay/playback.py. The speed is a Python
-- float that the code only compares with 0: its type and the test `<= 0` are parameters.
pub mod Frames
use tirrad_exchange_system.Prelude.{Bool, true, false, if◌then◌else◌}
use tirrad_exchange_system.Prelude.Int.{ℤ, pos, ltb_ℤ}
use tirrad_exchange_system.Prelude.Results.{Result, ok, err}
use tirrad_exchange_system.Replay.Timeline.{
  PlaybackError, ReplayTimeline, negative_step, bad_speed, first_step, clamp, next_step,
  previous_step,
}

pub data PlaybackState : Type 0 where
  playing paused : PlaybackState

module _ (Speed : Type 0) (at_most_zero : Speed → Bool) where
  pub record ReplayCursor : Type 0 where
    pub step : ℤ
    pub state : PlaybackState
    pub speed : Speed

  pub record ReplayPlaybackController : Type 0 where
    pub timeline : ReplayTimeline
    pub cursor : ReplayCursor

  -- ReplayCursor(...), which dataclasses.replace calls too: the checks of __post_init__.
  unfoldable pub make_cursor : ℤ → PlaybackState → Speed → Result PlaybackError ReplayCursor
  make_cursor step state speed =
      if ltb_ℤ step (pos 0)
      then err negative_step
      else if at_most_zero speed
      then err bad_speed
      else ok (record { step = step; state = state; speed = speed })

  unfoldable pub with_cursor :
      ReplayTimeline
      → Result PlaybackError ReplayCursor
      → Result PlaybackError ReplayPlaybackController
  with_cursor t (ok c) = ok (record { timeline = t; cursor = c })
  with_cursor t (err e) = err e

  unfoldable pub create : ReplayTimeline → Speed → Result PlaybackError ReplayPlaybackController
  unfolding make_cursor with_cursor
  create t speed = with_cursor t (make_cursor (first_step t) paused speed)

  unfoldable pub play : ReplayPlaybackController → Result PlaybackError ReplayPlaybackController
  unfolding make_cursor with_cursor
  play c = with_cursor c.timeline (make_cursor c.cursor.step playing c.cursor.speed)

  unfoldable pub pause : ReplayPlaybackController → Result PlaybackError ReplayPlaybackController
  unfolding make_cursor with_cursor
  pause c = with_cursor c.timeline (make_cursor c.cursor.step paused c.cursor.speed)

  unfoldable pub seek : ReplayPlaybackController → ℤ → Result PlaybackError ReplayPlaybackController
  unfolding make_cursor with_cursor
  seek c step =
      with_cursor c.timeline (make_cursor (clamp c.timeline step) c.cursor.state c.cursor.speed)

  unfoldable pub jump_to_step :
      ReplayPlaybackController → ℤ → Result PlaybackError ReplayPlaybackController
  unfolding seek
  jump_to_step c step = seek c step

  unfoldable pub jump_to_event :
      ReplayPlaybackController → ℤ → Result PlaybackError ReplayPlaybackController
  unfolding seek
  jump_to_event c event_step = seek c event_step

  unfoldable pub set_speed :
      ReplayPlaybackController → Speed → Result PlaybackError ReplayPlaybackController
  unfolding make_cursor with_cursor
  set_speed c speed = with_cursor c.timeline (make_cursor c.cursor.step c.cursor.state speed)

  unfoldable pub next_frame :
      ReplayPlaybackController → Result PlaybackError ReplayPlaybackController
  unfolding seek
  next_frame c = seek c (next_step c.timeline c.cursor.step)

  unfoldable pub previous_frame :
      ReplayPlaybackController → Result PlaybackError ReplayPlaybackController
  unfolding seek
  previous_frame c = seek c (previous_step c.timeline c.cursor.step)
