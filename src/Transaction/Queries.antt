-- ===== src/Transaction/Queries.antt =====
-- The queries of apps/transaction-service/src/core/repositories/transaction.repository.ts inside its
-- transactions: how rows are found, inserted and updated.
use nestjs_homework.Base.{
  Bool, false, Option, none, some, [], ◌∷◌, ◌+◌, ◌==◌, ◌||◌, find, elem, Text, same_text,
}
use nestjs_homework.Base.Result.{ok, err, Tx}
use nestjs_homework.Base.Table.{create, update_first, update_many}
use nestjs_homework.Contracts.{Uuid, Topic, TransactionStatus}
use nestjs_homework.Outbox.{OutboxEvent, ProcessedEvent, has_key, same_processed, same_event}
use nestjs_homework.Transaction.{
  Transaction, TransactionDb, TransactionFault, unique_violation, record_not_found,
}

abbrev pub Body : Type 0 → Type 0
Body = Tx TransactionFault TransactionDb

abbrev pub has_id : Uuid → Transaction → Bool
has_id id t = t.id == id

abbrev pub has_text : Text → Transaction → Bool
has_text key t = same_text t.idempotency_key key

abbrev pub is_payment : Uuid → Transaction → Bool
is_payment payment t = elim t.provider_payment_id [ none ↦ false | some p ↦ p == payment ]

-- The unique columns `id`, `idempotencyKey` and `providerPaymentId`; a null is equal to nothing.
abbrev pub same_transaction : Transaction → Transaction → Bool
same_transaction t x =
    has_id t.id x
    || has_text t.idempotency_key x
    || elim t.provider_payment_id [ none ↦ false | some p ↦ is_payment p x ]

-- `tx.transaction.create`
unfoldable pub insert_transaction : Transaction → Body Transaction
insert_transaction t db = elim (create same_transaction t db.transactions) [
  | none ↦ err unique_violation
  | some rows ↦ ok (t, record db { transactions = rows })
]

-- `tx.processedEvent.create`
unfoldable pub create_processed : Uuid → Uuid → Topic → Body (Unit {0})
create_processed id key topic db =
    elim (create same_processed (record { id = id; idempotency_key = key; topic = topic })
      db.processed_events) [
        | none ↦ err unique_violation
        | some rows ↦ ok (tt, record db { processed_events = rows })
      ]

-- `tx.outboxEvent.create`
unfoldable pub create_outbox : OutboxEvent → Body (Unit {0})
create_outbox event db = elim (create same_event event db.outbox_events) [
  | none ↦ err unique_violation
  | some rows ↦ ok (tt, record db { outbox_events = rows })
]

abbrev pub with_status : TransactionStatus → Transaction → Transaction
with_status s t = record t { status = s }

abbrev pub retried : Transaction → Transaction
retried t = record t { retry_count = t.retry_count + 1 }

-- `tx.transaction.update({ where: { id }, data })`
unfoldable pub update_transaction : Uuid → (Transaction → Transaction) → Body (Unit {0})
update_transaction id change db = elim (find (has_id id) db.transactions) [
  | none ↦ err record_not_found
  | some t ↦ ok (tt, record db { transactions = update_first (has_id id) change db.transactions })
]

unfoldable pub find_transaction : Uuid → TransactionDb → Option Transaction
find_transaction id db = find (has_id id) db.transactions

unfoldable pub find_payment : Uuid → TransactionDb → Option Transaction
find_payment payment db = find (is_payment payment) db.transactions

unfoldable pub find_processed : Uuid → TransactionDb → Option ProcessedEvent
find_processed key db = find (has_key key) db.processed_events

unfoldable pub find_event : Uuid → TransactionDb → Option OutboxEvent
find_event id db = find (λ e. e.id == id) db.outbox_events

abbrev pub in_pair : Uuid → Uuid → Transaction → Bool
in_pair out_id in_id t = elem t.id (out_id ∷ in_id ∷ [])

-- `updateMany({ where: { id: { in: [outId, inId] } }, data })`
unfoldable pub update_pair : Uuid → Uuid → (Transaction → Transaction) → Body (Unit {0})
update_pair out_id in_id change db =
    ok (tt, record db { transactions = update_many (in_pair out_id in_id) change db.transactions })
