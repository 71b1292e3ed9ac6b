-- ===== src/Outbox/Worker.antt =====
-- `AbstractOutboxWorkerService.processOutbox` of libs/outbox/abstracts/outbox-worker.abstract.ts, with
-- the methods that `OutboxWorkerService` of user-service and of transaction-service give it. One call
-- is one tick of the cron job. What the broker and the database answer in the tick is an argument.
use nestjs_homework.Base.{ℕ, Bool, false, List, [], ◌∷◌, ◌++◌, ◌==◌, length, if◌then◌else◌}
use nestjs_homework.Contracts.{Uuid, Time, Topic, Payload}
use nestjs_homework.Outbox.{OutboxEvent, find_unprocessed_events, mark_events_as_processed}

-- What `publishEvent` sends: the key is a fresh `uuidv7()` at each call.
pub record Message : Type 0 where
  pub key : Uuid
  pub topic : Topic
  pub value : Payload
  pub idempotency_key : Uuid

-- The answers of one tick: whether the two queries and the sending of an event succeed, the fresh
-- key of an event's message, and the time.
pub record Answers : Type 0 where
  pub find_ok : Bool
  pub publish_ok : OutboxEvent → Bool
  pub fresh_key : OutboxEvent → Uuid
  pub mark_ok : Bool
  pub now : Time

pub record Worker : Type 0 where
  pub is_processing : Bool
  pub events : List OutboxEvent
  pub sent : List Message

unfoldable pub publish_event : Answers → OutboxEvent → Message
publish_event env e = record {
  key = e.id;
  topic = e.topic;
  value = e.payload;
  idempotency_key = env.fresh_key e;
}

-- The loop: the messages sent, and `processedIds`.
unfoldable pub publish_all : Answers → List OutboxEvent → List Message × List Uuid
unfolding publish_event
publish_all env [] = ([], [])
publish_all env (e ∷ es) =
    let (messages, ids) = publish_all env es in
    if env.publish_ok e then (publish_event env e ∷ messages, e.id ∷ ids) else (messages, ids)

-- The body of the `try`: the new events and what was sent.
unfoldable pub attempt : Answers → ℕ → List OutboxEvent → List OutboxEvent × List Message
unfolding publish_all
attempt env limit events =
    if env.find_ok
    then (let batch = find_unprocessed_events limit events in
        let (messages, ids) = publish_all env batch in
        if length batch == 0
        then (events, [])
        else if length ids == 0
        then (events, messages)
        else if env.mark_ok
        then (mark_events_as_processed ids env.now events, messages)
        else (events, messages))
    else (events, [])

-- The flag is set before the body and cleared in the `finally`.
unfoldable pub process_outbox : Answers → ℕ → Worker → Worker
unfolding attempt
process_outbox env limit w =
    if w.is_processing
    then w
    else (let (events, messages) = attempt env limit w.events in
        record { is_processing = false; events = events; sent = w.sent ++ messages })
