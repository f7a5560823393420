-- ===== src/Streaming/Recent.antt =====
-- The messages that StreamService (sim/api/services/stream_service.py) keeps of a run and replays, over
-- any history of its operations.
use tirrad_exchange_system.Prelude.{
  ℕ, ◌-◌, ◌≤◌, ◌<◌, ◌≡◌, refl, sym, ap, ◌∙◌, String, Bool, false, List, [], ◌∷◌, ◌++◌, length, eqb,
  eq_iff, arith, Bool-cases, inl, inr, ◌&&◌, ◌==◌, if◌then◌else◌,
}
use tirrad_exchange_system.Prelude.Int.{ℤ, pos_part}
use tirrad_exchange_system.Prelude.Results.{Result, ok, err}
use tirrad_exchange_system.Storage.Records.{InMemoryRunStore}
use tirrad_exchange_system.Storage.Paging.{drop-nil}
use tirrad_exchange_system.Streaming.Messages.{
  StreamMessage, StreamError, Outside, MessageDict, coerce_dict,
}
use tirrad_exchange_system.Streaming.Bounded.{
  append_assoc, append_nil, length-last_of, push_bounded-last_of, length-last_of_pos,
}
use tirrad_exchange_system.Streaming.{
  StreamService, Item, new_service, publish_message, publish, publish_dict, published, subscribe,
  next_item, taken_from, unsubscribe, close, last_of, replay_recent, replay_of,
}

-- An operation on the service.
pub data Step : Type 0 where
  publishes : String → StreamMessage → Bool → Step
  publishes_dict : String → ℕ → MessageDict → Bool → Step
  subscribes : String → Step
  takes : ℕ → Step
  leaves : String → ℕ → Step
  closes : String → Step

unfoldable pub apply_step : Outside → StreamService → Step → StreamService
apply_step o s (publishes run_id m persist) = (publish o s run_id m persist).0
apply_step o s (publishes_dict run_id now d persist) = (publish_dict o s run_id now d persist).0
apply_step o s (subscribes run_id) = (subscribe s run_id).0
apply_step o s (takes queue) = (next_item s queue).0
apply_step o s (leaves run_id queue) = unsubscribe s run_id queue
apply_step o s (closes run_id) = close s run_id

unfoldable pub run_steps : Outside → StreamService → List Step → StreamService
unfolding apply_step
run_steps o s [] = s
run_steps o s (c ∷ cs) = run_steps o (apply_step o s c) cs

-- The message of a call that is not refused.
abbrev pub accepted : Result StreamError StreamMessage → List StreamMessage
accepted (ok m) = m ∷ []
accepted (err e) = []

-- The messages published to a run and not refused, in order.
abbrev pub published_by : Outside → String → Step → List StreamMessage
published_by o r (publishes run_id m persist) =
    if (m.run_id == run_id) && (r == run_id) then m ∷ [] else []
published_by o r (publishes_dict run_id now d persist) =
    if r == run_id then accepted (coerce_dict o run_id now d) else []
published_by o r _ = []

unfoldable pub published_to : Outside → String → List Step → List StreamMessage
published_to o r [] = []
published_to o r (c ∷ cs) = published_by o r c ++ published_to o r cs

module _ (limit : ℕ) (positive : 0 < limit) where
  -- What is kept of the messages `ms` of a run.
  abbrev Keeps : StreamService → String → List StreamMessage → Type 0
  Keeps s r ms = (s.recent_limit ≡ limit) × (s.recent r ≡ last_of limit ms)

  unchanged-Keeps :
      (s s' : StreamService) (r : String) (ms : List StreamMessage)
      → s'.recent_limit ≡ s.recent_limit
      → s'.recent r ≡ s.recent r
      → Keeps s r ms
      → Keeps s' r (ms ++ [])
  unchanged-Keeps s s' r ms l e h = rw (append_nil ms, l, e) h

  subscribe-Keeps :
      (s : StreamService) (i r : String) (ms : List StreamMessage)
      → Keeps s r ms
      → Keeps (subscribe s i).0 r (ms ++ [])
  unfolding subscribe
  subscribe-Keeps s i r ms h = elim (Bool-cases (s.closed i)) [
    | inl e ↦
        unchanged-Keeps s (subscribe s i).0 r ms (rw (subscribe, e) refl) (rw (subscribe, e) refl) h
    | inr e ↦
        unchanged-Keeps s (subscribe s i).0 r ms (rw (subscribe, e) refl) (rw (subscribe, e) refl) h
  ]

  taken_from-Keeps :
      (s : StreamService) (q : ℕ) (items : List Item) (r : String) (ms : List StreamMessage)
      → Keeps s r ms
      → Keeps (taken_from s q items).0 r (ms ++ [])
  unfolding taken_from
  taken_from-Keeps s q [] r ms h = unchanged-Keeps s s r ms refl refl h
  taken_from-Keeps s q (item ∷ rest) r ms h =
      unchanged-Keeps s (taken_from s q (item ∷ rest)).0 r ms refl refl h

  publish_message-Keeps :
      (o : Outside) (s : StreamService) (i r : String) (m : StreamMessage) (persist : Bool)
      (ms : List StreamMessage)
      → Keeps s r ms
      → Keeps (publish_message o s i m persist) r (ms ++ (if r == i then m ∷ [] else []))
  unfolding publish_message
  publish_message-Keeps o s i r m persist ms (l, e) = elim (Bool-cases (r == i)) [
    | inl same ↦
        let here = sym (ap s.recent ((eq_iff r i).0 same)) ∙ e in
        rw (publish_message, same) (l, rw (l, here) (push_bounded-last_of limit ms m positive))
    | inr other ↦ rw (publish_message, other) (unchanged-Keeps s s r ms refl refl (l, e))
  ]

  publish-Keeps :
      (o : Outside) (s : StreamService) (i r : String) (m : StreamMessage) (persist : Bool)
      (ms : List StreamMessage)
      → Keeps s r ms
      → Keeps
          (publish o s i m persist).0
          r
          (ms ++ (if (m.run_id == i) && (r == i) then m ∷ [] else []))
  unfolding publish
  publish-Keeps o s i r m persist ms h = elim (Bool-cases (m.run_id == i)) [
    | inl e ↦ rw (publish, e) (publish_message-Keeps o s i r m persist ms h)
    | inr e ↦ rw (publish, e) (unchanged-Keeps s s r ms refl refl h)
  ]

  published-Keeps :
      (o : Outside) (s : StreamService) (i r : String) (persist : Bool)
      (given : Result StreamError StreamMessage) (ms : List StreamMessage)
      → Keeps s r ms
      → Keeps (published o s i persist given).0 r (ms ++ (if r == i then accepted given else []))
  published-Keeps o s i r persist (ok m) ms h = publish_message-Keeps o s i r m persist ms h
  published-Keeps o s i r persist (err e) ms h = elim (Bool-cases (r == i)) [
    | inl same ↦ rw same (unchanged-Keeps s s r ms refl refl h)
    | inr other ↦ rw other (unchanged-Keeps s s r ms refl refl h)
  ]

  apply_step-Keeps :
      (o : Outside) (s : StreamService) (r : String) (ms : List StreamMessage) (c : Step)
      → Keeps s r ms
      → Keeps (apply_step o s c) r (ms ++ published_by o r c)
  unfolding apply_step next_item unsubscribe close publish_dict
  apply_step-Keeps o s r ms (publishes run_id m persist) h =
      publish-Keeps o s run_id r m persist ms h
  apply_step-Keeps o s r ms (publishes_dict run_id now d persist) h =
      published-Keeps o s run_id r persist (coerce_dict o run_id now d) ms h
  apply_step-Keeps o s r ms (subscribes run_id) h = subscribe-Keeps s run_id r ms h
  apply_step-Keeps o s r ms (takes queue) h = taken_from-Keeps s queue (s.queues queue) r ms h
  apply_step-Keeps o s r ms (leaves run_id queue) h = rw (append_nil ms) h
  apply_step-Keeps o s r ms (closes run_id) h = rw (append_nil ms) h

  run_steps-Keeps :
      (o : Outside) (s : StreamService) (r : String) (ms : List StreamMessage) (cs : List Step)
      → Keeps s r ms
      → Keeps (run_steps o s cs) r (ms ++ published_to o r cs)
  unfolding run_steps published_to
  run_steps-Keeps o s r ms [] h = rw (append_nil ms) h
  run_steps-Keeps o s r ms (c ∷ cs) h =
      rw (sym (append_assoc ms (published_by o r c) (published_to o r cs))) (
        run_steps-Keeps o (apply_step o s c) r (ms ++ published_by o r c) cs
          (apply_step-Keeps o s r ms c h))

replay_of-last_of :
    (o : Outside) (s : StreamService) (r : String) (now n : ℕ) (ms : List StreamMessage)
    → 0 < length ms
    → replay_of o s r now n ms ≡ ok (last_of n ms)
replay_of-last_of o s r now n [] h = absurd (omega (arith, h))
replay_of-last_of o s r now n (m ∷ ms) h = refl

-- After any history of a new service with the limit `n`, of messages published as objects and as dicts,
-- of subscriptions and closings, a run to which messages were published is
-- replayed as the last of them: at most as many as are asked for, and at most `n`, or one if `n` is
-- not positive. The service keeps no more of them than that.
pub replay_recent-published :
    (o : Outside) (store : InMemoryRunStore) (n limit : ℤ) (r : String) (now : ℕ) (cs : List Step)
    → 0 < length (published_to o r cs)
    → 0 < pos_part limit
    → let kept = (new_service store n).recent_limit in
      let s = run_steps o (new_service store n) cs in
      (replay_recent o s r now limit
        ≡ ok (last_of (pos_part limit) (last_of kept (published_to o r cs))))
      × (length (s.recent r) ≤ kept)
unfolding replay_recent
replay_recent-published o store n limit r now cs h l =
    let kept = (new_service store n).recent_limit in
    let s = run_steps o (new_service store n) cs in
    let positive : 0 < kept = ground arith in
    let (same, e) =
      run_steps-Keeps kept positive o (new_service store n) r [] cs
        (refl, unfold last_of in sym (drop-nil (0 - kept))) in
    let some_kept = length-last_of_pos kept (published_to o r cs) positive h in
    let asked : eqb (pos_part limit) 0 ≡ false = ground arith in
    (
      rw (replay_recent, asked, e)
          (replay_of-last_of o s r now (pos_part limit) (last_of kept (published_to o r cs))
            some_kept),
      rw e (length-last_of kept (published_to o r cs)),
    )
