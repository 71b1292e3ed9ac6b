-- ===== src/Transaction/Retries.antt =====
-- `recreateOutboxEvent` and `recreateTransferOutboxEvent` of
-- apps/transaction-service/src/core/repositories/transaction.repository.ts: an event that failed is
-- published again, up to a number of attempts.
use nestjs_homework.Base.{ℕ, Bool, true, false, find, filter, length, ltb, is_some, if◌then◌else◌}
use nestjs_homework.Base.Result.{
  Result, ok, err, pure, gets, or_throw, throw_if, transact, ◌>>=◌, ◌>>◌,
}
use nestjs_homework.Contracts.{Uuid, Time, Topic, failed, is_null}
use nestjs_homework.Outbox.{new_event}
use nestjs_homework.Transaction.{
  TransactionDb, TransactionFault, transaction_not_found, event_not_found, payload_not_found,
  retries_exhausted, record_not_found,
}
use nestjs_homework.Transaction.Queries.{
  Body, create_processed, create_outbox, with_status, retried, update_transaction, find_transaction,
  find_processed, find_event, in_pair, update_pair,
}

-- `uuidv7()` for the two rows of a retry, and the time.
pub record RetryIds : Type 0 where
  pub outbox_id : Uuid
  pub processed_id : Uuid
  pub now : Time

-- The branch of both retries that publishes the event once more.
unfoldable pub republish : RetryIds → Uuid → Uuid → Topic → Body Bool
republish ids key event_id topic = do
  event ← or_throw (← gets (find_event event_id)) event_not_found
  throw_if (is_null event.payload) payload_not_found
  create_outbox (new_event ids.outbox_id event.owner_id event.topic event.payload ids.now)
  create_processed ids.processed_id key topic
  pure false

-- What follows the transaction of a retry: it has committed when the exhaustion is thrown.
abbrev pub throw_exhausted :
    Result TransactionFault Bool × TransactionDb
    → Result TransactionFault (Unit {0}) × TransactionDb
throw_exhausted (ok true, db) = (err retries_exhausted, db)
throw_exhausted (ok false, db) = (ok tt, db)
throw_exhausted (err e, db) = (err e, db)

unfoldable pub recreate_outbox_event :
    RetryIds
    → Uuid
    → Uuid
    → Uuid
    → ℕ
    → Topic
    → TransactionDb
    → Result TransactionFault (Unit {0}) × TransactionDb
recreate_outbox_event ids key transaction_id event_id max_retry topic db = throw_exhausted (
    transact
      (do
        already_exist ← gets (find_processed key)
        if is_some already_exist then pure false else (do
          transaction ← or_throw (← gets (find_transaction transaction_id)) transaction_not_found
          update_transaction transaction_id retried
          updated ← or_throw (← gets (find_transaction transaction_id)) record_not_found
          if ltb updated.retry_count max_retry
              then republish ids key event_id topic
              else (do update_transaction transaction_id (with_status failed); pure true)))
      db)

unfoldable pub recreate_transfer_outbox_event :
    RetryIds
    → Uuid
    → Uuid
    → Uuid
    → Uuid
    → ℕ
    → Topic
    → TransactionDb
    → Result TransactionFault (Unit {0}) × TransactionDb
recreate_transfer_outbox_event ids key out_id in_id event_id max_retry topic db = throw_exhausted (
    transact
      (do
        already_exist ← gets (find_processed key)
        if is_some already_exist then pure false else (do
          txs ← gets (λ s. filter (in_pair out_id in_id) s.transactions)
          throw_if (ltb (length txs) 2) transaction_not_found
          update_pair out_id in_id retried
          updated ←
              or_throw (← gets (λ s. find (in_pair out_id in_id) s.transactions)) record_not_found
          if ltb updated.retry_count max_retry
              then republish ids key event_id topic
              else (do update_pair out_id in_id (with_status failed); pure true)))
      db)
