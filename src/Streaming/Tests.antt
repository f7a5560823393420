-- ===== src/Streaming/Tests.antt =====
-- The theorem on the messages kept, at a service that keeps two.
use tirrad_exchange_system.Prelude.{◌≡◌, ◌≤◌, String, true, none, List, [], ◌∷◌, length, arith}
use tirrad_exchange_system.Prelude.Int.{pos}
use tirrad_exchange_system.Prelude.Results.{ok}
use tirrad_exchange_system.Json.{text, field, end}
use tirrad_exchange_system.Storage.Records.{InMemoryRunStore}
use tirrad_exchange_system.Streaming.Messages.{StreamMessage, Outside, MessageDict}
use tirrad_exchange_system.Streaming.{new_service, last_of, replay_recent}
use tirrad_exchange_system.Streaming.Recent.{
  Step, publishes, publishes_dict, subscribes, takes, leaves, closes, run_steps, published_to,
  replay_recent-published,
}

abbrev said : String → String → StreamMessage
said run_id kind = record {
  run_id = run_id;
  timestamp = 10;
  step = none;
  category = "status";
  type = kind;
  payload = end;
}

abbrev plain : Outside
plain = record {
  str_of = λ v. "v";
  isoformat = λ t. "now";
  fromisoformat = λ s. none;
  dump = λ m. end;
  validate = λ fs. none;
}

abbrev no_runs : InMemoryRunStore
no_runs = record { records = []; tournaments = []; tournament_children = [] }

-- A dict with no key but its category.
abbrev logged : String → MessageDict
logged c = record { fields = field "category" (text c) end; timestamp = none }

-- The message of run "b" is refused where it is published to "a", and so is the dict of an unknown
-- category.
abbrev some_steps : List Step
some_steps =
    subscribes "a"
    ∷ publishes "a" (said "a" "one") true
    ∷ publishes "a" (said "b" "other") true
    ∷ publishes "a" (said "a" "two") true
    ∷ publishes_dict "a" 15 (logged "log") true
    ∷ publishes_dict "a" 16 (logged "gossip") true
    ∷ takes 0
    ∷ publishes "b" (said "b" "other") true
    ∷ closes "a"
    ∷ publishes "a" (said "a" "three") true
    ∷ leaves "a" 0
    ∷ []

replay_recent-published_example :
    let s = run_steps plain (new_service no_runs (pos 2)) some_steps in
    (replay_recent plain s "a" 20 (pos 5)
      ≡ ok (last_of 5 (last_of 2 (published_to plain "a" some_steps))))
    × (length (s.recent "a") ≤ 2)
unfolding published_to
replay_recent-published_example =
    replay_recent-published plain no_runs (pos 2) (pos 5) "a" 20 some_steps (omega arith)
      (omega arith)
