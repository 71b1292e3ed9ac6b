-- ===== src/Outbox/Batch.antt =====
-- What the worker takes, sends and marks.
use mathlib.Core.Path.{ap₂}
use nestjs_homework.Base.{
  ◌∙◌, ℕ, zero, suc, true, false, not, List, [], ◌∷◌, ◌++◌, ◌≤◌, ◌≡◌, ◌⊎◌, refl, arith, ◌==◌, leb,
  elem, filter, map, take, length, length-take, All, All-take, inl, inr, Bool-cases,
}
use nestjs_homework.Base.Table.{update_many}
use nestjs_homework.Contracts.{Uuid, Time}
use nestjs_homework.Outbox.{
  OutboxEvent, insert_by_created, order_by_created, find_unprocessed_events,
  mark_events_as_processed,
}
use nestjs_homework.Outbox.Worker.{
  Answers, Worker, Message, publish_event, publish_all, process_outbox,
}

abbrev pub IsUnprocessed : OutboxEvent → Type 0
IsUnprocessed e = e.processed ≡ false

-- In the order of creation, the oldest first.
abbrev pub IsOrdered : List OutboxEvent → Type 0
IsOrdered [] = Unit
IsOrdered (e ∷ es) = All (λ x. e.created_at ≤ x.created_at) es × IsOrdered es

filter-IsUnprocessed :
    (es : List OutboxEvent) → All IsUnprocessed (filter (λ e. not e.processed) es)
filter-IsUnprocessed [] = tt
filter-IsUnprocessed (e ∷ es) = ground (arith, filter-IsUnprocessed es)

module _ (P : OutboxEvent → Type 0) where
  All-insert_by_created :
      (e : OutboxEvent) (es : List OutboxEvent) → P e → All P es → All P (insert_by_created e es)
  unfolding insert_by_created
  All-insert_by_created e [] p h = (p, tt)
  All-insert_by_created e (x ∷ es) p h = ground (arith, All-insert_by_created e es p h.1)

  All-order_by_created : (es : List OutboxEvent) → All P es → All P (order_by_created es)
  unfolding order_by_created
  All-order_by_created [] h = tt
  All-order_by_created (e ∷ es) h =
      All-insert_by_created e (order_by_created es) h.0 (All-order_by_created es h.1)

All-le_trans :
    (m n : ℕ) (es : List OutboxEvent)
    → m ≤ n
    → All (λ x. n ≤ x.created_at) es
    → All (λ x. m ≤ x.created_at) es
All-le_trans m n [] h k = tt
All-le_trans m n (e ∷ es) h k = (omega arith, All-le_trans m n es h k.1)

insert_by_created-IsOrdered :
    (e : OutboxEvent) (es : List OutboxEvent) → IsOrdered es → IsOrdered (insert_by_created e es)
unfolding insert_by_created
insert_by_created-IsOrdered e [] h = (tt, tt)
insert_by_created-IsOrdered e (x ∷ es) h = elim (Bool-cases (leb e.created_at x.created_at)) [
  | inl le ↦ rw le ((ground arith, All-le_trans e.created_at x.created_at es (ground arith) h.0), h)
  | inr gt ↦ rw gt (
    All-insert_by_created (λ y. x.created_at ≤ y.created_at) e es (ground arith) h.0,
    insert_by_created-IsOrdered e es h.1,
  )
]

order_by_created-IsOrdered : (es : List OutboxEvent) → IsOrdered (order_by_created es)
unfolding order_by_created
order_by_created-IsOrdered [] = tt
order_by_created-IsOrdered (e ∷ es) =
    insert_by_created-IsOrdered e (order_by_created es) (order_by_created-IsOrdered es)

take-IsOrdered : (n : ℕ) (es : List OutboxEvent) → IsOrdered es → IsOrdered (take n es)
take-IsOrdered zero es h = tt
take-IsOrdered (suc n) [] h = tt
take-IsOrdered (suc n) (e ∷ es) h =
    (All-take (λ x. e.created_at ≤ x.created_at) n es h.0, take-IsOrdered n es h.1)

-- A batch has at most `limit` events, all of them unprocessed, in the order of their creation.
pub find_unprocessed_events_batch :
    (limit : ℕ) (events : List OutboxEvent)
    → (length (find_unprocessed_events limit events) ≤ limit)
      × All IsUnprocessed (find_unprocessed_events limit events)
      × IsOrdered (find_unprocessed_events limit events)
unfolding find_unprocessed_events
find_unprocessed_events_batch limit events =
    let waiting = filter (λ e. not e.processed) events in
    (
      length-take limit (order_by_created waiting),
      All-take IsUnprocessed limit (order_by_created waiting)
          (All-order_by_created IsUnprocessed waiting (filter-IsUnprocessed events)),
      take-IsOrdered limit (order_by_created waiting) (order_by_created-IsOrdered waiting),
    )

-- Whatever fails in a tick, the flag is free again after it.
pub process_outbox_releases :
    (env : Answers) (limit : ℕ) (w : Worker)
    → w.is_processing ≡ false
    → (process_outbox env limit w).is_processing ≡ false
unfolding process_outbox
process_outbox_releases env limit w h = ground arith

-- Some event of the list was published, and has the id.
abbrev pub Published : Answers → List OutboxEvent → Uuid → Type 0
Published env [] id = ⊥
Published env (e ∷ es) id = ((e.id ≡ id) × (env.publish_ok e ≡ true)) ⊎ Published env es id

elem-publish_all :
    (env : Answers) (id : Uuid) (es : List OutboxEvent)
    → elem id (publish_all env es).1 ≡ true
    → Published env es id
unfolding publish_all
elem-publish_all env id [] h = cc
elem-publish_all env id (e ∷ es) h = elim (Bool-cases (env.publish_ok e)) [
  | inl sent ↦ elim (Bool-cases (id == e.id)) [
    | inl same ↦ inl (ground arith, sent)
    | inr other ↦ inr (elem-publish_all env id es (ground arith))
  ]
  | inr lost ↦ inr (elem-publish_all env id es (ground arith))
]

-- Two tables of the same events, where an event is newly processed only if it was published.
abbrev pub MarkedOnly : Answers → List OutboxEvent → List OutboxEvent → List OutboxEvent → Type 0
MarkedOnly env batch [] [] = Unit
MarkedOnly env batch [] (y ∷ ys) = ⊥
MarkedOnly env batch (x ∷ xs) [] = ⊥
MarkedOnly env batch (x ∷ xs) (y ∷ ys) =
    ((y ≡ x)
      ⊎ (Published env batch x.id
          × (y.processed ≡ true)
          × (y.id ≡ x.id)
          × (y.topic ≡ x.topic)
          × (y.payload ≡ x.payload)))
    × MarkedOnly env batch xs ys

MarkedOnly-refl : (env : Answers) (batch xs : List OutboxEvent) → MarkedOnly env batch xs xs
MarkedOnly-refl env batch [] = tt
MarkedOnly-refl env batch (x ∷ xs) = (inl refl, MarkedOnly-refl env batch xs)

mark-MarkedOnly :
    (env : Answers) (now : Time) (batch xs : List OutboxEvent)
    → MarkedOnly env batch xs (mark_events_as_processed (publish_all env batch).1 now xs)
unfolding mark_events_as_processed update_many
mark-MarkedOnly env now batch [] = tt
mark-MarkedOnly env now batch (x ∷ xs) = elim (Bool-cases (elem x.id (publish_all env batch).1)) [
  | inl hit ↦ rw hit (
    inr (elem-publish_all env x.id batch hit, refl, refl, refl, refl),
    mark-MarkedOnly env now batch xs,
  )
  | inr miss ↦ rw miss (inl refl, mark-MarkedOnly env now batch xs)
]

events-process_outbox :
    (env : Answers) (limit : ℕ) (w : Worker)
    → ((process_outbox env limit w).events ≡ w.events)
      ⊎ ((process_outbox env limit w).events
          ≡ mark_events_as_processed
              (publish_all env (find_unprocessed_events limit w.events)).1
              env.now
              w.events)
unfolding process_outbox
events-process_outbox env limit w = ground arith

publish_all_none :
    (env : Answers) (es : List OutboxEvent) → length es ≡ 0 → (publish_all env es).0 ≡ []
unfolding publish_all
publish_all_none env [] h = refl
publish_all_none env (e ∷ es) h = absurd (omega arith)

sent-process_outbox :
    (env : Answers) (limit : ℕ) (w : Worker)
    → w.is_processing ≡ false
    → env.find_ok ≡ true
    → (process_outbox env limit w).sent
      ≡ w.sent ++ (publish_all env (find_unprocessed_events limit w.events)).0
unfolding process_outbox
sent-process_outbox env limit w free f =
    ground (arith, publish_all_none env (find_unprocessed_events limit w.events))

process_outbox_unmarked :
    (env : Answers) (limit : ℕ) (w : Worker)
    → w.is_processing ≡ false
    → env.find_ok ≡ true
    → env.mark_ok ≡ false
    → (process_outbox env limit w).events ≡ w.events
unfolding process_outbox
process_outbox_unmarked env limit w free f m = ground arith

-- No event is lost: after a tick the table has the same events, and one that was not processed before
-- is processed only if the broker took an event of the batch with its id.
pub process_outbox_loses_nothing :
    (env : Answers) (limit : ℕ) (w : Worker)
    → MarkedOnly env
        (find_unprocessed_events limit w.events)
        w.events
        (process_outbox env limit w).events
process_outbox_loses_nothing env limit w = elim (events-process_outbox env limit w) [
  | inl same ↦ rw same (MarkedOnly-refl env (find_unprocessed_events limit w.events) w.events)
  | inr marked ↦
      rw marked (mark-MarkedOnly env env.now (find_unprocessed_events limit w.events) w.events)
]

-- The message of an event under a key.
abbrev pub sent_under : (OutboxEvent → Uuid) → OutboxEvent → Message
sent_under key e = record {
  key = e.id;
  topic = e.topic;
  value = e.payload;
  idempotency_key = key e;
}

-- What a tick sends of a batch: the events that the broker takes, under the keys drawn in the tick.
abbrev pub sent_of : Answers → List OutboxEvent → List Message
sent_of env batch = map (sent_under env.fresh_key) (filter env.publish_ok batch)

sent_of-publish_all :
    (env : Answers) (es : List OutboxEvent) → (publish_all env es).0 ≡ sent_of env es
unfolding publish_all publish_event
sent_of-publish_all env [] = refl
sent_of-publish_all env (e ∷ es) = ground (arith, sent_of-publish_all env es)

-- When the marking fails after the sending, the table is as it was, so the next tick takes the same
-- batch: each tick sends every event of that batch that the broker takes, in the order of the batch, with the
-- event's id, topic and payload, and under the key that this tick draws for it.
pub process_outbox_resends :
    (env env' : Answers) (limit : ℕ) (w : Worker)
    → w.is_processing ≡ false
    → env.find_ok ≡ true
    → env'.find_ok ≡ true
    → env.mark_ok ≡ false
    → (process_outbox env' limit (process_outbox env limit w)).sent
      ≡ (w.sent ++ sent_of env (find_unprocessed_events limit w.events))
        ++ sent_of env' (find_unprocessed_events limit w.events)
process_outbox_resends env env' limit w free f f' m =
    let first = process_outbox_unmarked env limit w free f m in
    let batch = find_unprocessed_events limit w.events in
    sent-process_outbox env' limit _ (process_outbox_releases env limit w free) f'
    ∙ ap₂
        (λ (l : List Message) (es : List OutboxEvent).
          l ++ (publish_all env' (find_unprocessed_events limit es)).0)
        (sent-process_outbox env limit w free f) first
    ∙ ap₂ (λ l k. (w.sent ++ l) ++ k) (sent_of-publish_all env batch)
        (sent_of-publish_all env' batch)
