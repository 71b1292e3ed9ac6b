-- ===== src/Transaction/Repository.antt =====
-- apps/transaction-service/src/core/repositories/transaction.repository.ts, one function for each
-- method but the two retries. What `uuidv7()` and the clock return are arguments.
use nestjs_homework.Base.{
  ℕ, Option, none, some, List, [], ◌∷◌, ◌++◌, ◌==◌, not, find, filter, length, is_some, Text,
  if◌then◌else◌,
}
use nestjs_homework.Base.Int.{ℤ, neg}
use nestjs_homework.Base.Result.{Result, pure, gets, or_throw, throw_if, transact, ◌>>=◌, ◌>>◌}
use nestjs_homework.Contracts.{
  Uuid, Time, CurrencyCode, pending, completed, balance_updated, timeout, is_pending, is_completed,
  transfer_in, transfer_out, deposit_paid_success, tranfer_inited, deposit_crediting_success,
  tranfer_success, deposit_paid, inited,
}
use nestjs_homework.Outbox
use nestjs_homework.Outbox.{
  OutboxEvent, ProcessedEvent, has_key, same_processed, same_event, new_event,
}
use nestjs_homework.Transaction.{
  Transaction, TransactionDb, TransactionFault, transaction_not_found, status_mismatch,
}
use nestjs_homework.Transaction.Queries.{
  Body, has_text, insert_transaction, create_processed, create_outbox, with_status,
  update_transaction, find_transaction, find_payment, find_processed, in_pair,
}

abbrev pub or_insert : Transaction → Option Transaction → Body Uuid
or_insert t (some x) = pure x.id
or_insert t none = do made ← insert_transaction t; pure made.id

-- `create`: the id of the transaction that has the key, old or new.
unfoldable pub create_transaction :
    Transaction → TransactionDb → Result TransactionFault Uuid × TransactionDb
create_transaction t = transact (do
  existing ← gets (λ db. find (has_text t.idempotency_key) db.transactions)
  or_insert t existing)

pub record TransferIds : Type 0 where
  pub out_id : Uuid
  pub in_id : Uuid
  pub event_id : Uuid
  pub now : Time

pub record NewTransfer : Type 0 where
  pub from_account_id : Uuid
  pub to_account_id : Uuid
  pub amount : ℤ
  pub currency : CurrencyCode
  pub idempotency_key : Text

-- `${idempotencyKey}_in`
abbrev pub in_key : Text → Text
in_key key = key ++ b'_' ∷ b'i' ∷ b'n' ∷ []

abbrev pub out_transaction : TransferIds → NewTransfer → Transaction
out_transaction ids a = record {
  id = ids.out_id;
  account_id = a.from_account_id;
  amount = neg a.amount;
  currency = a.currency;
  type = transfer_out;
  status = pending;
  idempotency_key = a.idempotency_key;
  retry_count = 0;
  provider_payment_id = none;
  reference_id = some ids.in_id;
}

abbrev pub in_transaction : TransferIds → NewTransfer → Transaction
in_transaction ids a = record {
  id = ids.in_id;
  account_id = a.to_account_id;
  amount = a.amount;
  currency = a.currency;
  type = transfer_in;
  status = pending;
  idempotency_key = in_key a.idempotency_key;
  retry_count = 0;
  provider_payment_id = none;
  reference_id = some ids.out_id;
}

abbrev pub inited_event : TransferIds → NewTransfer → OutboxEvent
inited_event ids a =
    new_event ids.event_id ids.out_id tranfer_inited
      (inited (record {
        event_id = ids.event_id;
        out_id = ids.out_id;
        in_id = ids.in_id;
        from_account_id = a.from_account_id;
        to_account_id = a.to_account_id;
        currency = a.currency;
        amount = some a.amount;
      }))
      ids.now

abbrev pub or_insert_transfer : TransferIds → NewTransfer → Option Transaction → Body Transaction
or_insert_transfer ids a (some x) = pure x
or_insert_transfer ids a none = do
  tx_out ← insert_transaction (out_transaction ids a)
  insert_transaction (in_transaction ids a)
  create_outbox (inited_event ids a)
  pure tx_out

unfoldable pub create_transfer :
    TransferIds → NewTransfer → TransactionDb → Result TransactionFault Transaction × TransactionDb
create_transfer ids a = transact (do
  existing ← gets (λ db. find (has_text a.idempotency_key) db.transactions)
  or_insert_transfer ids a existing)

abbrev pub paid_event : Uuid → Time → Transaction → OutboxEvent
paid_event event_id now t =
    new_event event_id t.id deposit_paid_success
      (deposit_paid (record {
        event_id = event_id;
        transaction_id = t.id;
        account_id = t.account_id;
        currency = t.currency;
        amount = some t.amount;
      }))
      now

unfoldable pub set_status_completed_and_create_outbox_event :
    Uuid → Time → Uuid → TransactionDb → Result TransactionFault Uuid × TransactionDb
set_status_completed_and_create_outbox_event event_id now payment = transact (do
  row ← or_throw (← gets (find_payment payment)) transaction_not_found
  throw_if (not (is_pending row.status)) (status_mismatch row.status)
  update_transaction row.id (with_status completed)
  create_outbox (paid_event event_id now row)
  pure row.id)

unfoldable pub set_status_timeout :
    Uuid → TransactionDb → Result TransactionFault Uuid × TransactionDb
set_status_timeout payment = transact (do
  row ← or_throw (← gets (find_payment payment)) transaction_not_found
  throw_if (not (is_pending row.status)) (status_mismatch row.status)
  update_transaction row.id (with_status timeout)
  pure row.id)

unfoldable pub find_unprocessed_events : ℕ → TransactionDb → List OutboxEvent
find_unprocessed_events limit db = Outbox.find_unprocessed_events limit db.outbox_events

unfoldable pub mark_events_as_processed : List Uuid → Time → TransactionDb → TransactionDb
mark_events_as_processed ids now db = record db {
  outbox_events = Outbox.mark_events_as_processed ids now db.outbox_events;
}

unfoldable pub set_status_updated_and_create_processed_event :
    Uuid → Uuid → Uuid → TransactionDb → Result TransactionFault (Unit {0}) × TransactionDb
set_status_updated_and_create_processed_event processed_id key transaction_id = transact (do
  already_exist ← gets (find_processed key)
  if is_some already_exist then pure tt else (do
    row ← or_throw (← gets (find_transaction transaction_id)) transaction_not_found
    throw_if (not (is_completed row.status)) (status_mismatch row.status)
    update_transaction row.id (with_status balance_updated)
    create_processed processed_id key deposit_crediting_success))

unfoldable pub set_status_updated_by_ids_and_create_processed_event :
    Uuid → Uuid → Uuid → Uuid → TransactionDb → Result TransactionFault (Unit {0}) × TransactionDb
set_status_updated_by_ids_and_create_processed_event processed_id key out_id in_id = transact (do
  already_exist ← gets (find_processed key)
  if is_some already_exist then pure tt else (do
    rows ← gets (λ s. filter (in_pair out_id in_id) s.transactions)
    throw_if (length rows == 0) transaction_not_found
    update_transaction out_id (with_status balance_updated)
    update_transaction in_id (with_status balance_updated)
    create_processed processed_id key tranfer_success))
