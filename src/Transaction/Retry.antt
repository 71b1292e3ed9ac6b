-- ===== src/Transaction/Retry.antt =====
-- `recreateOutboxEvent`: what comes of a failed crediting, and how often it is tried again.
use nestjs_homework.Base.{
  ℕ, Bool, true, false, none, some, List, [], ◌∷◌, ◌++◌, ◌+◌, ◌<◌, ◌≤◌, ◌≡◌, ◌≢◌, ◌==◌, find, any,
  arith, ltb, Option-cases, inl, inr, Bool-cases,
}
use nestjs_homework.Base.Result.{Result, ok, err, transact, Result-cases}
use nestjs_homework.Base.Table.{create, update_first, find-update_first}
use nestjs_homework.Contracts.{Uuid, Topic, failed, is_null}
use nestjs_homework.Outbox.{OutboxEvent, new_event}
use nestjs_homework.Transaction.{
  Transaction, TransactionDb, TransactionFault, retries_exhausted, transaction_not_found,
  event_not_found, payload_not_found, unique_violation,
}
use nestjs_homework.Transaction.Queries.{
  has_id, with_status, retried, find_transaction, find_processed, find_event, create_outbox,
  create_processed, update_transaction,
}
use nestjs_homework.Transaction.Settled.{IsTaken}
use nestjs_homework.Transaction.Retries.{
  RetryIds, republish, throw_exhausted, recreate_outbox_event,
}

abbrev pub bumped : Uuid → TransactionDb → List Transaction
bumped id db = update_first (has_id id) retried db.transactions

-- Why an event is not published once more.
pub data CopyRefusal (ids : RetryIds) (key event_id : Uuid) (db : TransactionDb)
    : TransactionFault → Type 0 where
  no_event : find_event event_id db ≡ none → CopyRefusal ids key event_id db event_not_found
  no_payload :
      (event : OutboxEvent)
      → find_event event_id db ≡ some event
      → is_null event.payload ≡ true
      → CopyRefusal ids key event_id db payload_not_found
  id_clash :
      any (λ e. e.id == ids.outbox_id) db.outbox_events ≡ true
      → CopyRefusal ids key event_id db unique_violation
  key_clash : IsTaken ids.processed_id key db → CopyRefusal ids key event_id db unique_violation

-- What may come of a retry.
pub data RetryOutcome (ids : RetryIds) (key id event_id : Uuid) (max_retry : ℕ) (topic : Topic)
    (db : TransactionDb) : Result TransactionFault (Unit {0}) × TransactionDb → Type 0 where
  duplicate :
      find_processed key db ≢ none → RetryOutcome ids key id event_id max_retry topic db (ok tt, db)
  unknown :
      find_processed key db ≡ none
      → find_transaction id db ≡ none
      → RetryOutcome ids key id event_id max_retry topic db (err transaction_not_found, db)
  refused :
      (t : Transaction) (e : TransactionFault)
      → find_processed key db ≡ none
      → find_transaction id db ≡ some t
      → t.retry_count + 1 < max_retry
      → CopyRefusal ids key event_id db e
      → RetryOutcome ids key id event_id max_retry topic db (err e, db)
  republished :
      (t : Transaction) (event : OutboxEvent)
      → find_processed key db ≡ none
      → find_transaction id db ≡ some t
      → t.retry_count + 1 < max_retry
      → find_event event_id db ≡ some event
      → RetryOutcome ids key id event_id max_retry topic db (
        ok tt,
        record {
          transactions = bumped id db;
          processed_events =
              db.processed_events
              ++ record { id = ids.processed_id; idempotency_key = key; topic = topic } ∷ [];
          outbox_events =
              db.outbox_events
              ++ new_event ids.outbox_id event.owner_id event.topic event.payload ids.now ∷ [];
        },
      )
  exhausted :
      (t : Transaction)
      → find_processed key db ≡ none
      → find_transaction id db ≡ some t
      → max_retry ≤ t.retry_count + 1
      → RetryOutcome ids key id event_id max_retry topic db (
        err retries_exhausted,
        record db { transactions = update_first (has_id id) (with_status failed) (bumped id db) },
      )

module _ (ids : RetryIds) (key id event_id : Uuid) (max_retry : ℕ) (topic : Topic)
    (db : TransactionDb) where
  abbrev result : Result TransactionFault (Unit {0}) × TransactionDb
  result = recreate_outbox_event ids key id event_id max_retry topic db

  found_bumped :
      (t : Transaction)
      → find_transaction id db ≡ some t
      → find (has_id id) (bumped id db) ≡ some (retried t)
  unfolding find_transaction
  found_bumped t h =
      find-update_first (has_id id) retried db.transactions t h (found_id db.transactions h)
    where
      found_id :
          (rows : List Transaction) → find (has_id id) rows ≡ some t → has_id id (retried t) ≡ true
      found_id [] e = cc
      found_id (x ∷ rows) e = ground (arith, found_id rows)

  result_old : find_processed key db ≢ none → result ≡ (ok tt, db)
  unfolding recreate_outbox_event transact
  result_old h = ground arith

  result_lost :
      find_processed key db ≡ none
      → find_transaction id db ≡ none
      → result ≡ (err transaction_not_found, db)
  unfolding recreate_outbox_event transact
  result_lost h k = ground arith

  result_exhausted :
      (t : Transaction)
      → find_processed key db ≡ none
      → find_transaction id db ≡ some t
      → ltb (t.retry_count + 1) max_retry ≡ false
      → result ≡ (
        err retries_exhausted,
        record db { transactions = update_first (has_id id) (with_status failed) (bumped id db) },
      )
  unfolding recreate_outbox_event transact update_transaction find_transaction
  result_exhausted t h k more = ground (arith, found_bumped t k)

  abbrev again : Result TransactionFault (Bool × TransactionDb)
  again = republish ids key event_id topic (record db { transactions = bumped id db })

  result-again :
      (t : Transaction)
      → find_processed key db ≡ none
      → find_transaction id db ≡ some t
      → ltb (t.retry_count + 1) max_retry ≡ true
      → result ≡ elim again [ ok (b, s) ↦ throw_exhausted (ok b, s) | err e ↦ (err e, db) ]
  unfolding recreate_outbox_event transact update_transaction find_transaction
  result-again t h k more = ground (arith, found_bumped t k)

  again_ok :
      (p : Bool × TransactionDb)
      → again ≡ ok p
      → (event : OutboxEvent) × (find_event event_id db ≡ some event)
        × (p ≡ (
          false,
          record {
            transactions = bumped id db;
            processed_events =
                db.processed_events
                ++ record { id = ids.processed_id; idempotency_key = key; topic = topic } ∷ [];
            outbox_events =
                db.outbox_events
                ++ new_event ids.outbox_id event.owner_id event.topic event.payload ids.now ∷ [];
          },
        ))
  unfolding republish create_outbox create_processed create find_event
  again_ok p h = elim (Option-cases (find (λ e. e.id == event_id) db.outbox_events)) [
    | inl e ↦ absurd (ground arith)
    | inr (event, e) ↦ (event, e, ground arith)
  ]

  again_refused : (e : TransactionFault) → again ≡ err e → CopyRefusal ids key event_id db e
  unfolding republish create_outbox create_processed create find_event
  again_refused e h = elim (Option-cases (find (λ e. e.id == event_id) db.outbox_events)) [
    | inl gone ↦ let same : e ≡ event_not_found = ground arith in rw same (no_event gone)
    | inr (event, at) ↦ elim (Bool-cases (is_null event.payload)) [
      | inl null ↦
          let same : e ≡ payload_not_found = ground arith in rw same (no_payload event at null)
      | inr there ↦ elim (Bool-cases (any (λ e. e.id == ids.outbox_id) db.outbox_events)) [
        | inl taken ↦ let same : e ≡ unique_violation = ground arith in rw same (id_clash taken)
        | inr free ↦
            let (same, taken) : (e ≡ unique_violation) × IsTaken ids.processed_id key db =
              ground arith in
            rw same (key_clash taken)
      ]
    ]
  ]

-- A retry of a failed crediting whose key is recorded does nothing. Under a new key it throws and changes nothing where
-- there is no such transaction. Otherwise it counts the attempt: with fewer than `maxRetry` attempts, this one
-- included, it publishes a copy of the event and records the key, all at once, and throws and
-- changes nothing only where the event or its payload is missing or an id that is drawn is taken; with no attempt
-- left it fails the transaction and throws.
pub recreate_outbox_event_outcome :
    (ids : RetryIds) (key id event_id : Uuid) (max_retry : ℕ) (topic : Topic) (db : TransactionDb)
    → RetryOutcome ids key id event_id max_retry topic db
        (recreate_outbox_event ids key id event_id max_retry topic db)
recreate_outbox_event_outcome ids key id event_id max_retry topic db =
    elim (Option-cases (find_processed key db)) [
      | inr (v, old) ↦
          rw (result_old ids key id event_id max_retry topic db (λ h. cc)) (duplicate (λ h. cc))
      | inl new ↦ elim (Option-cases (find_transaction id db)) [
        | inl lost ↦
            rw (result_lost ids key id event_id max_retry topic db new lost) (unknown new lost)
        | inr (t, found) ↦ elim (Bool-cases (ltb (t.retry_count + 1) max_retry)) [
          | inr more ↦
              rw (result_exhausted ids key id event_id max_retry topic db t new found more)
                (exhausted t new found (ground arith))
          | inl room ↦
              rw (result-again ids key id event_id max_retry topic db t new found room)
                (elim (Result-cases (again ids key id event_id max_retry topic db)) [
                  | inl (p, e) ↦
                      let (event, at, same) = again_ok ids key id event_id max_retry topic db p e in
                      rw (e, same) (republished t event new found (ground arith) at)
                  | inr (x, e) ↦ rw e (
                      refused t x new found (ground arith)
                        (again_refused ids key id event_id max_retry topic db x e))
                ])
        ]
      ]
    ]
