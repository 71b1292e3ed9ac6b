-- ===== src/Outbox.antt =====
-- The outbox of both services: the table `outbox_events` with `findUnprocessedEvents` and
-- `markEventsAsProcessed` of the two repositories, and the worker of
-- libs/outbox/abstracts/outbox-worker.abstract.ts.
pub mod Worker
pub mod Batch
mod Tests
use nestjs_homework.Base.{
  ℕ, Bool, true, false, not, ◌||◌, ◌==◌, Option, none, some, List, [], ◌∷◌, leb, elem, filter, take,
  if◌then◌else◌,
}
use nestjs_homework.Base.Table.{update_many}
use nestjs_homework.Contracts.{Uuid, Time, Topic, Payload}

-- `owner_id` is `balance_id` in user-service and `transaction_id` in transaction-service.
pub record OutboxEvent : Type 0 where
  pub id : Uuid
  pub owner_id : Uuid
  pub topic : Topic
  pub payload : Payload
  pub processed : Bool
  pub created_at : Time
  pub processed_at : Option Time

-- The columns that `outboxEvent.create` leaves to their defaults.
abbrev pub new_event : Uuid → Uuid → Topic → Payload → Time → OutboxEvent
new_event id owner topic payload now = record {
  id = id;
  owner_id = owner;
  topic = topic;
  payload = payload;
  processed = false;
  created_at = now;
  processed_at = none;
}

-- The table of the events that a service has handled; both columns but the topic are unique.
pub record ProcessedEvent : Type 0 where
  pub id : Uuid
  pub idempotency_key : Uuid
  pub topic : Topic

abbrev pub has_key : Uuid → ProcessedEvent → Bool
has_key key e = e.idempotency_key == key

abbrev pub same_processed : ProcessedEvent → ProcessedEvent → Bool
same_processed e x = x.id == e.id || x.idempotency_key == e.idempotency_key

-- The primary key of `outbox_events`.
abbrev pub same_event : OutboxEvent → OutboxEvent → Bool
same_event e x = x.id == e.id

-- `orderBy: { createdAt: 'asc' }`, a stable sort.
unfoldable pub insert_by_created : OutboxEvent → List OutboxEvent → List OutboxEvent
insert_by_created e [] = e ∷ []
insert_by_created e (x ∷ xs) =
    if leb e.created_at x.created_at then e ∷ x ∷ xs else x ∷ insert_by_created e xs

unfoldable pub order_by_created : List OutboxEvent → List OutboxEvent
unfolding insert_by_created
order_by_created [] = []
order_by_created (x ∷ xs) = insert_by_created x (order_by_created xs)

unfoldable pub find_unprocessed_events : ℕ → List OutboxEvent → List OutboxEvent
unfolding order_by_created
find_unprocessed_events limit events =
    take limit (order_by_created (filter (λ e. not e.processed) events))

unfoldable pub mark_events_as_processed : List Uuid → Time → List OutboxEvent → List OutboxEvent
mark_events_as_processed ids now =
    update_many (λ e. elem e.id ids) (λ e. record e { processed = true; processed_at = some now })
