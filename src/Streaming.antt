-- ===== src/Streaming.antt =====
-- `StreamService` of sim/api/services/stream_service.py: messages of a run to its subscribers, and the
-- last of them in memory. Each subscriber has its own queue. An operation is one step here; in the code
-- the queues are filled after the lock is released, so the item of another thread may come before.
pub mod Bounded
pub mod Messages
pub mod Recent
pub mod Tests
use tirrad_exchange_system.Prelude.{
  ℕ, suc, ◌+◌, ◌-◌, String, Bool, true, false, not, Option, none, some, List, [], ◌∷◌, ◌++◌, length,
  drop, leb, eqb, select, ◌==◌, if◌then◌else◌,
}
use tirrad_exchange_system.Prelude.Int.{ℤ, pos, pos_part}
use tirrad_exchange_system.Prelude.Results.{Result, ok, err, ◌>>=◌}
use tirrad_exchange_system.Json.{Fields}
use tirrad_exchange_system.Storage.Records.{InMemoryRunStore}
use tirrad_exchange_system.Storage.InMemory.{append_log, get_logs}
use tirrad_exchange_system.Streaming.Messages.{
  StreamMessage, StreamError, run_id_mismatch, Outside, MessageDict, coerce_dict, to_log, from_log,
}

-- What a subscriber's queue holds; the sentinel ends the subscription.
pub data Item : Type 0 where
  message : StreamMessage → Item
  sentinel : Item

-- A dict is a function from its keys. A queue is known by its number.
pub record StreamService : Type 0 where
  pub store : InMemoryRunStore
  pub recent_limit : ℕ
  pub recent : String → List StreamMessage
  pub subscribers : String → List ℕ
  pub closed : String → Bool
  pub queues : ℕ → List Item
  pub next_queue : ℕ

-- StreamService(store, recent_limit=n)
abbrev pub new_service : InMemoryRunStore → ℤ → StreamService
new_service store n = record {
  store = store;
  recent_limit = if leb 1 (pos_part n) then pos_part n else 1;
  recent = λ run_id. [];
  subscribers = λ run_id. [];
  closed = λ run_id. false;
  queues = λ q. [];
  next_queue = 0;
}

abbrev pub set_at {ℓ} : {A : Type ℓ} → String → A → (String → A) → String → A
set_at key a d k = if k == key then a else d k

-- deque.append with a length of at most `limit`: a full deque loses its first element.
unfoldable pub push_bounded : {A : Type 0} → ℕ → List A → A → List A
push_bounded limit xs x = if leb (length xs + 1) limit then xs ++ x ∷ [] else drop 1 (xs ++ x ∷ [])

abbrev pub put_in : ℕ → Item → (ℕ → List Item) → ℕ → List Item
put_in queue item queues q = if eqb q queue then queues q ++ item ∷ [] else queues q

-- for subscriber in subscribers: subscriber.put(item)
unfoldable pub deliver : List ℕ → Item → (ℕ → List Item) → ℕ → List Item
deliver [] item queues = queues
deliver (queue ∷ rest) item queues = deliver rest item (put_in queue item queues)

-- The effect of a message that has been checked.
unfoldable pub publish_message :
    Outside → StreamService → String → StreamMessage → Bool → StreamService
unfolding push_bounded deliver append_log to_log
publish_message o s run_id m persist = record s {
  recent = set_at run_id (push_bounded s.recent_limit (s.recent run_id) m) s.recent;
  queues = deliver (s.subscribers run_id) (message m) s.queues;
  store = if persist then (append_log s.store run_id (to_log o m)).0 else s.store;
}

abbrev checked : String → StreamMessage → Result StreamError StreamMessage
checked run_id m = if m.run_id == run_id then ok m else err run_id_mismatch

abbrev pub published :
    Outside
    → StreamService
    → String
    → Bool
    → Result StreamError StreamMessage
    → StreamService × Result StreamError StreamMessage
published o s run_id persist (err e) = (s, err e)
published o s run_id persist (ok m) = (publish_message o s run_id m persist, ok m)

-- publish, of a StreamMessage and of a dict.
unfoldable pub publish :
    Outside
    → StreamService
    → String
    → StreamMessage
    → Bool
    → StreamService × Result StreamError StreamMessage
unfolding publish_message
publish o s run_id m persist = published o s run_id persist (checked run_id m)

unfoldable pub publish_dict :
    Outside
    → StreamService
    → String
    → ℕ
    → MessageDict
    → Bool
    → StreamService × Result StreamError StreamMessage
unfolding publish_message coerce_dict
publish_dict o s run_id now d persist = published o s run_id persist (coerce_dict o run_id now d)

-- The start of a subscription: the new queue, or none if the run is closed.
unfoldable pub subscribe : StreamService → String → StreamService × Option ℕ
subscribe s run_id =
    let s' = record s { next_queue = s.next_queue + 1 } in
    if s.closed run_id then (s', none) else (
      record s' {
        subscribers = set_at run_id (s.subscribers run_id ++ s.next_queue ∷ []) s.subscribers;
      },
      some s.next_queue,
    )

-- queue.get() where the queue is not empty.
unfoldable pub taken_from : StreamService → ℕ → List Item → StreamService × Option Item
taken_from s queue [] = (s, none)
taken_from s queue (item ∷ rest) =
    (record s { queues = λ q. if eqb q queue then rest else s.queues q }, some item)

unfoldable pub next_item : StreamService → ℕ → StreamService × Option Item
unfolding taken_from
next_item s queue = taken_from s queue (s.queues queue)

-- The finally clause of a subscription.
unfoldable pub unsubscribe : StreamService → String → ℕ → StreamService
unsubscribe s run_id queue = record s {
  subscribers =
      set_at run_id (select (λ q. not (eqb q queue)) (s.subscribers run_id)) s.subscribers;
}

unfoldable pub close : StreamService → String → StreamService
unfolding deliver
close s run_id = record s {
  closed = set_at run_id true s.closed;
  subscribers = set_at run_id [] s.subscribers;
  queues = deliver (s.subscribers run_id) sentinel s.queues;
}

-- xs[-n:] for a positive n.
unfoldable pub last_of : {A : Type 0} → ℕ → List A → List A
last_of n xs = drop (length xs - n) xs

-- [parsed for log in logs if (parsed := from_log(run_id, log)) is not None]
unfoldable pub from_logs :
    Outside → String → ℕ → List Fields → Result StreamError (List StreamMessage)
unfolding from_log
from_logs o run_id now [] = ok []
from_logs o run_id now (log ∷ logs) = do
  parsed ← from_log o run_id now log
  rest ← from_logs o run_id now logs
  ok (elim parsed [ none ↦ rest | some m ↦ m ∷ rest ])

abbrev replay_logs :
    Outside → String → ℕ → ℕ → Option (List Fields) → Result StreamError (List StreamMessage)
replay_logs o run_id now n none = ok []
replay_logs o run_id now n (some logs) = from_logs o run_id now (last_of n logs)

abbrev pub replay_of :
    Outside
    → StreamService
    → String
    → ℕ
    → ℕ
    → List StreamMessage
    → Result StreamError (List StreamMessage)
replay_of o s run_id now n [] =
    replay_logs o run_id now n (get_logs s.store run_id (some (pos n)) (pos 0))
replay_of o s run_id now n (m ∷ ms) = ok (last_of n (m ∷ ms))

unfoldable pub replay_recent :
    Outside → StreamService → String → ℕ → ℤ → Result StreamError (List StreamMessage)
unfolding last_of from_logs get_logs
replay_recent o s run_id now limit =
    let n = pos_part limit in
    if eqb n 0 then ok [] else replay_of o s run_id now n (s.recent run_id)

unfoldable pub is_closed : StreamService → String → Bool
is_closed s run_id = s.closed run_id
