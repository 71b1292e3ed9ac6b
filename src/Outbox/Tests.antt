-- ===== src/Outbox/Tests.antt =====
-- The worker on a table of three events.
use nestjs_homework.Base.{true, false, List, [], ◌∷◌, ◌++◌, ◌≤◌, ◌≡◌, refl, length, All}
use nestjs_homework.Contracts.{deposit_paid_success, json_null}
use nestjs_homework.Outbox.{
  OutboxEvent, new_event, insert_by_created, order_by_created, find_unprocessed_events,
  mark_events_as_processed,
}
use nestjs_homework.Outbox.Worker.{
  Answers, Worker, publish_event, publish_all, attempt, process_outbox,
}
use nestjs_homework.Outbox.Batch.{
  IsUnprocessed, IsOrdered, MarkedOnly, find_unprocessed_events_batch, process_outbox_loses_nothing,
  sent_of, process_outbox_resends,
}

abbrev late_event : OutboxEvent
late_event = new_event 1 10 deposit_paid_success json_null 8

abbrev early_event : OutboxEvent
early_event = new_event 2 10 deposit_paid_success json_null 5

abbrev old_event : OutboxEvent
old_event = record (new_event 3 10 deposit_paid_success json_null 2) { processed = true }

abbrev events : List OutboxEvent
events = late_event ∷ old_event ∷ early_event ∷ []

-- Everything succeeds.
abbrev fine : Answers
fine = record {
  find_ok = true;
  publish_ok = λ e. true;
  fresh_key = λ e. 70;
  mark_ok = true;
  now = 9;
}

-- The marking fails after the sending.
abbrev unmarked : Answers
unmarked = record {
  find_ok = true;
  publish_ok = λ e. true;
  fresh_key = λ e. 60;
  mark_ok = false;
  now = 8;
}

abbrev worker : Worker
worker = record { is_processing = false; events = events; sent = [] }

the_early_first : find_unprocessed_events 5 events ≡ early_event ∷ late_event ∷ []
unfolding find_unprocessed_events order_by_created insert_by_created
the_early_first = refl

a_tick : (process_outbox fine 1 worker).sent ≡ publish_event fine early_event ∷ []
unfolding process_outbox attempt publish_all publish_event find_unprocessed_events order_by_created
    insert_by_created mark_events_as_processed
a_tick = refl

find_unprocessed_events_batch_example :
    (length (find_unprocessed_events 1 events) ≤ 1)
    × All IsUnprocessed (find_unprocessed_events 1 events)
    × IsOrdered (find_unprocessed_events 1 events)
find_unprocessed_events_batch_example = find_unprocessed_events_batch 1 events

process_outbox_loses_nothing_example :
    MarkedOnly fine (find_unprocessed_events 5 events) events (process_outbox fine 5 worker).events
process_outbox_loses_nothing_example = process_outbox_loses_nothing fine 5 worker

process_outbox_resends_example :
    (process_outbox fine 5 (process_outbox unmarked 5 worker)).sent
    ≡ ([] ++ sent_of unmarked (find_unprocessed_events 5 events))
      ++ sent_of fine (find_unprocessed_events 5 events)
process_outbox_resends_example = process_outbox_resends unmarked fine 5 worker refl refl refl refl
