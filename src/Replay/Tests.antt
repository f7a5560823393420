-- ===== src/Replay/Tests.antt =====
-- The theorems on replay at concrete timelines. The speed is a number of per cent here.
use tirrad_exchange_system.Prelude.{ℕ, ◌≡◌, refl, Bool, List, [], ◌∷◌, eqb, inl, inr, In, arith}
use tirrad_exchange_system.Prelude.Int.{ℤ, pos, ◌<ℤ◌, ◌≤ℤ◌}
use tirrad_exchange_system.Prelude.Results.{ok, ◌>>=◌}
use tirrad_exchange_system.Replay.Timeline.{ReplayTimeline, make_timeline, next_step}
use tirrad_exchange_system.Replay.Timeline.Navigation.{IsIncreasing, next_step-least}
use tirrad_exchange_system.Replay.Playback.{
  ReplayPlaybackController, playing, create, next_frame, previous_frame,
}
use tirrad_exchange_system.Replay.Playback.Frames.{
  Continues, Move, play_move, next_move, seek_move, speed_move, run_moves, run_moves-IsPlayback,
  previous_frame-next_frame,
}

abbrev three_steps : List ℤ
three_steps = pos 2 ∷ pos 5 ∷ pos 9 ∷ []

abbrev three_timeline : ReplayTimeline
three_timeline = record { steps = three_steps }

abbrev is_stopped : ℕ → Bool
is_stopped v = eqb v 0

abbrev at_two : ReplayPlaybackController ℕ is_stopped
at_two = record {
  timeline = three_timeline;
  cursor = record { step = pos 2; state = playing; speed = 100 };
}

abbrev at_five : ReplayPlaybackController ℕ is_stopped
at_five = record {
  timeline = three_timeline;
  cursor = record { step = pos 5; state = playing; speed = 100 };
}

accepted_three : make_timeline three_steps ≡ ok three_timeline
unfolding make_timeline
accepted_three = refl

abbrev some_moves : List (Move ℕ is_stopped)
some_moves = play_move ∷ next_move ∷ seek_move (pos 100) ∷ speed_move 50 ∷ []

run_moves-IsPlayback_example :
    Continues ℕ is_stopped three_timeline
      (create ℕ is_stopped three_timeline 100 >>= run_moves ℕ is_stopped some_moves)
run_moves-IsPlayback_example =
    run_moves-IsPlayback ℕ is_stopped three_steps three_timeline 100 some_moves accepted_three refl
      (tt, (tt, (tt, (refl, tt))))

previous_frame-next_frame_example :
    (next_frame ℕ is_stopped at_two ≡ ok at_five)
    × ((next_frame ℕ is_stopped at_two >>= previous_frame ℕ is_stopped) ≡ ok at_two)
previous_frame-next_frame_example =
    previous_frame-next_frame ℕ is_stopped at_two (pos 5) [] (pos 9 ∷ []) accepted_three refl

three_up : IsIncreasing three_steps
three_up = ground arith

next_step-least_example :
    In (next_step three_timeline (pos 3)) three_timeline.steps
    × (pos 3 <ℤ next_step three_timeline (pos 3))
    × (next_step three_timeline (pos 3) ≤ℤ pos 9)
next_step-least_example =
    next_step-least three_timeline (pos 3) (pos 9) three_up (inr (inr (inl refl))) (ground arith)
