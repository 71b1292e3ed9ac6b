-- ===== src/Transaction/Tests.antt =====
-- The repository of transactions and its callers on a small database.
use nestjs_homework.Base.{
  ℕ, List, length, ◌==◌, if◌then◌else◌, Option, none, some, Text, [], ◌∷◌, ◌≡◌, refl,
}
use nestjs_homework.Base.Int.{ℤ, pos, ◌-ℤ◌}
use nestjs_homework.Base.Result.{Result, ok, err, transact}
use nestjs_homework.Base.Table.{create, update_first}
use nestjs_homework.Contracts.{
  Uuid, CurrencyCode, rub, pending, deposit, completed, failed, deposit_crediting_failed,
  TransactionStatus,
}
use nestjs_homework.Grpc.{GrpcStatus}
use nestjs_homework.Transaction.{Transaction, TransactionDb, status_mismatch}
use nestjs_homework.Transaction.Queries.{
  find_event, find_transaction, find_processed, create_processed, find_payment, insert_transaction,
  create_outbox, update_transaction,
}
use nestjs_homework.Transaction.Repository.{
  set_status_updated_and_create_processed_event,
  set_status_updated_by_ids_and_create_processed_event, TransferIds, NewTransfer, out_transaction,
  create_transfer, set_status_completed_and_create_outbox_event, set_status_timeout,
  mark_events_as_processed,
}
use nestjs_homework.Transaction.Retries.{RetryIds, republish, recreate_outbox_event}
use nestjs_homework.Transaction.Steps.{here, next, mark}
use nestjs_homework.Transaction.Payment.{completed_once, timeout_once}
use nestjs_homework.Transaction.Retry.{RetryOutcome, recreate_outbox_event_outcome}
use nestjs_homework.Transaction.Exhaust.{FailedEvent, retry_all, Retried, retry_all-Retried}
use nestjs_homework.Transaction.Transfer.{create_transfer_idempotent}
use nestjs_homework.Transaction.Settled.{Credited, crediting_success_outcome}
use nestjs_homework.Transaction.Settled.Pair.{Settled, transfer_success_outcome}
use nestjs_homework.Transaction.Webhook.{PaymentObject, succeeded, payment_succeeded, processing}
use nestjs_homework.Transaction.Verified.{WebhookOutcome, processing_outcome}
use nestjs_homework.Transaction.GrpcProcess.{DepositRubRequest, TransferRubRequest, CreatedPayment}

abbrev key : Text
key = 107 ∷ 49 ∷ []

abbrev unpaid : Transaction
unpaid = record {
  id = 1;
  account_id = 10;
  amount = pos 500;
  currency = rub;
  type = deposit;
  status = pending;
  idempotency_key = key;
  retry_count = 0;
  provider_payment_id = some 77;
  reference_id = none;
}

abbrev ledger : TransactionDb
ledger = record { transactions = unpaid ∷ []; processed_events = []; outbox_events = [] }

abbrev settled : TransactionDb
settled = (set_status_completed_and_create_outbox_event 50 9 77 ledger).1

abbrev expired : TransactionDb
expired = (set_status_timeout 77 ledger).1

completion : (set_status_completed_and_create_outbox_event 50 9 77 ledger).0 ≡ ok 1
unfolding set_status_completed_and_create_outbox_event transact find_payment update_transaction
    update_first create_outbox create
completion = refl

expiry : (set_status_timeout 77 ledger).0 ≡ ok 1
unfolding set_status_timeout transact find_payment update_transaction update_first
expiry = refl

completed_once_example :
    let db = mark_events_as_processed (50 ∷ []) 10 settled in
    (s : TransactionStatus) × (set_status_completed_and_create_outbox_event 51 11 77 db
      ≡ (err (status_mismatch s), db))
    × (set_status_timeout 77 db ≡ (err (status_mismatch s), db))
completed_once_example =
    completed_once 50 51 9 11 77 ledger (refl, tt) completion (next here (mark (50 ∷ []) 10))

timeout_once_example :
    (s : TransactionStatus) × (set_status_completed_and_create_outbox_event 51 11 77 expired
      ≡ (err (status_mismatch s), expired))
    × (set_status_timeout 77 expired ≡ (err (status_mismatch s), expired))
timeout_once_example = timeout_once 51 11 77 ledger (refl, tt) expiry here

abbrev retry_ids : RetryIds
retry_ids = record { processed_id = 80; outbox_id = 81; now = 12 }

recreate_outbox_event_outcome_example :
    RetryOutcome retry_ids 7 1 50 3 deposit_crediting_failed settled
      (recreate_outbox_event retry_ids 7 1 50 3 deposit_crediting_failed settled)
recreate_outbox_event_outcome_example =
    recreate_outbox_event_outcome retry_ids 7 1 50 3 deposit_crediting_failed settled

abbrev failures : List FailedEvent
failures =
    record { ids = retry_ids; key = 7; event_id = 50; topic = deposit_crediting_failed }
    ∷ record {
      ids = record { processed_id = 82; outbox_id = 83; now = 13 };
      key = 8;
      event_id = 81;
      topic = deposit_crediting_failed;
    }
    ∷ record {
      ids = record { processed_id = 84; outbox_id = 85; now = 14 };
      key = 9;
      event_id = 83;
      topic = deposit_crediting_failed;
    }
    ∷ []

abbrev paid : Transaction
paid = record unpaid { status = completed }

-- Two copies of event 50 are published, and the third failure fails the transaction.
retried_twice :
    let db = retry_all 1 3 failures settled in
    (length db.outbox_events ≡ 3)
    × (find_transaction 1 db ≡ some (record paid { status = failed; retry_count = 3 }))
unfolding retry_all recreate_outbox_event republish create_outbox create_processed create find_event
    set_status_completed_and_create_outbox_event transact find_payment update_transaction
    update_first find_transaction find_processed
retried_twice = (refl, refl)

found_paid : find_transaction 1 settled ≡ some paid
unfolding set_status_completed_and_create_outbox_event transact find_payment update_transaction
    update_first create_outbox create find_transaction
found_paid = refl

retry_all-Retried_example : Retried 1 3 paid settled (retry_all 1 3 failures settled)
retry_all-Retried_example = retry_all-Retried 1 3 failures settled paid found_paid

abbrev ids : TransferIds
ids = record { out_id = 20; in_id = 21; event_id = 22; now = 5 }

abbrev ids_again : TransferIds
ids_again = record { out_id = 30; in_id = 31; event_id = 32; now = 6 }

abbrev transfer : NewTransfer
transfer = record {
  from_account_id = 10;
  to_account_id = 11;
  amount = pos 40;
  currency = rub;
  idempotency_key = 107 ∷ [];
}

transfer_stored : (create_transfer ids transfer ledger).0 ≡ ok (out_transaction ids transfer)
unfolding create_transfer transact insert_transaction create_outbox create ◌-ℤ◌
transfer_stored = refl

create_transfer_idempotent_example :
    create_transfer ids_again transfer (create_transfer ids transfer ledger).1
    ≡ (ok (out_transaction ids transfer), (create_transfer ids transfer ledger).1)
create_transfer_idempotent_example =
    create_transfer_idempotent ids ids_again transfer transfer ledger transfer_stored refl

-- YooKassa knows payment 77, which succeeded.
abbrev get_payment : Uuid → Option PaymentObject
get_payment payment = if payment == 77 then some (record { id = 77; status = succeeded }) else none

processing_outcome_example :
    WebhookOutcome get_payment 50 9 77 ledger payment_succeeded
      (processing get_payment 50 9 payment_succeeded 77 ledger)
processing_outcome_example = processing_outcome get_payment 50 9 payment_succeeded 77 ledger

-- User-service answers a balance of 100 for every account.
abbrev hundred : Uuid → CurrencyCode → Result GrpcStatus ℤ
hundred account currency = ok (pos 100)

abbrev link : ℕ → Text → Option CreatedPayment
link amount text = some (record { id = some 78; confirmation_url = some (104 ∷ []) })

abbrev deposit_request : DepositRubRequest
deposit_request = record { account_id = 10; idempotency_key = 100 ∷ []; amount = 900 }

abbrev transfer_request : TransferRubRequest
transfer_request = record {
  account_id = 10;
  idempotency_key = 107 ∷ [];
  amount = 40;
  to_account_id = 11;
}

crediting_success_outcome_example :
    Credited 90 7 1 settled (set_status_updated_and_create_processed_event 90 7 1 settled)
crediting_success_outcome_example = crediting_success_outcome 90 7 1 settled

abbrev transferring : TransactionDb
transferring = (create_transfer ids transfer ledger).1

transfer_success_outcome_example :
    Settled 90 7 20 21 transferring
      (set_status_updated_by_ids_and_create_processed_event 90 7 20 21 transferring)
transfer_success_outcome_example = transfer_success_outcome 90 7 20 21 transferring
