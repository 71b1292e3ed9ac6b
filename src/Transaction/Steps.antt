-- ===== src/Transaction/Steps.antt =====
-- The database of transactions over time: every method of the repository, in any order.
use nestjs_homework.Base.{ℕ, List}
use nestjs_homework.Contracts.{Uuid, Time, Topic}
use nestjs_homework.Transaction.{Transaction, TransactionDb}
use nestjs_homework.Transaction.Queries.{find_payment, find_processed}
use nestjs_homework.Transaction.Repository.{
  create_transaction, TransferIds, NewTransfer, create_transfer,
  set_status_completed_and_create_outbox_event, set_status_timeout, mark_events_as_processed,
  set_status_updated_and_create_processed_event,
  set_status_updated_by_ids_and_create_processed_event,
}
use nestjs_homework.Transaction.Retries.{
  RetryIds, recreate_outbox_event, recreate_transfer_outbox_event,
}
use nestjs_homework.Transaction.Advance.{Advance, Advance-refl, Advance-trans}
use nestjs_homework.Transaction.Calls.{
  create_transaction-Advance, create_transfer-Advance, set_status_completed-Advance,
  set_status_timeout-Advance, set_status_updated-Advance, recreate_outbox_event-Advance,
  recreate_transfer_outbox_event-Advance, set_status_updated_by_ids-Advance,
}

-- One call of the repository that writes.
pub data Step (db : TransactionDb) : TransactionDb → Type 0 where
  make : (t : Transaction) → Step db (create_transaction t db).1
  transfer : (ids : TransferIds) (a : NewTransfer) → Step db (create_transfer ids a db).1
  pay :
      (event_id : Uuid) (now : Time) (payment : Uuid)
      → Step db (set_status_completed_and_create_outbox_event event_id now payment db).1
  expire : (payment : Uuid) → Step db (set_status_timeout payment db).1
  mark : (ids : List Uuid) (now : Time) → Step db (mark_events_as_processed ids now db)
  credited :
      (id key transaction : Uuid)
      → Step db (set_status_updated_and_create_processed_event id key transaction db).1
  retry :
      (ids : RetryIds) (key transaction event : Uuid) (max_retry : ℕ) (topic : Topic)
      → Step db (recreate_outbox_event ids key transaction event max_retry topic db).1
  retry_transfer :
      (ids : RetryIds) (key out_id in_id event : Uuid) (max_retry : ℕ) (topic : Topic)
      → Step db (recreate_transfer_outbox_event ids key out_id in_id event max_retry topic db).1
  transferred :
      (id key out_id in_id : Uuid)
      → Step db (set_status_updated_by_ids_and_create_processed_event id key out_id in_id db).1

pub data Reach (db : TransactionDb) : TransactionDb → Type 0 where
  here : Reach db db
  next : {db' db'' : TransactionDb} → Reach db db' → Step db' db'' → Reach db db''

Step-Advance : {db db' : TransactionDb} → Step db db' → Advance db db'
unfolding mark_events_as_processed find_payment find_processed
Step-Advance {db} (make t) = create_transaction-Advance t db
Step-Advance {db} (transfer ids a) = create_transfer-Advance ids a db
Step-Advance {db} (pay event_id now payment) = set_status_completed-Advance event_id now payment db
Step-Advance {db} (expire payment) = set_status_timeout-Advance payment db
Step-Advance (mark ids now) = record { ids = λ h. h; settled = λ p h. h; keys = λ k h. h }
Step-Advance {db} (credited id key transaction) = set_status_updated-Advance id key transaction db
Step-Advance {db} (retry ids key transaction event max_retry topic) =
    recreate_outbox_event-Advance ids key transaction event max_retry topic db
Step-Advance {db} (retry_transfer ids key out_id in_id event max_retry topic) =
    recreate_transfer_outbox_event-Advance ids key out_id in_id event max_retry topic db
Step-Advance {db} (transferred id key out_id in_id) =
    set_status_updated_by_ids-Advance id key out_id in_id db

pub Reach-Advance : {db db' : TransactionDb} → Reach db db' → Advance db db'
Reach-Advance {db} here = Advance-refl db
Reach-Advance (next r s) = Advance-trans _ _ _ (Reach-Advance r) (Step-Advance s)
