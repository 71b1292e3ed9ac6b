-- ===== src/Transaction/KafkaService.antt =====
-- apps/transaction-service/src/processes/kafka/kafka-process.service.ts: what becomes of a transaction
-- when user-service answers. Each handler logs what is thrown and returns normally, so that the
-- message counts as consumed.
use nestjs_homework.Base.{ℕ, Option, none, some}
use nestjs_homework.Base.Result.{Result}
use nestjs_homework.Contracts.{
  Uuid, DepositCreditingPayload, TransferResultPayload, deposit_crediting_failed, tranfer_failed,
}
use nestjs_homework.Transaction.{TransactionDb, TransactionFault}
use nestjs_homework.Transaction.Repository.{
  set_status_updated_and_create_processed_event,
  set_status_updated_by_ids_and_create_processed_event,
}
use nestjs_homework.Transaction.Retries.{
  RetryIds, recreate_outbox_event, recreate_transfer_outbox_event,
}

-- `try { … } catch { log }` around a call that needs the header `idempotencyKey`.
abbrev pub logged :
    Option Uuid
    → (Uuid → TransactionDb → Result TransactionFault (Unit {0}) × TransactionDb)
    → TransactionDb
    → TransactionDb
logged none call db = db
logged (some key) call db = (call key db).1

unfoldable pub processing_crediting_success :
    Uuid → Option Uuid → DepositCreditingPayload → TransactionDb → TransactionDb
processing_crediting_success processed_id header p =
    logged header
      (λ key. set_status_updated_and_create_processed_event processed_id key p.transaction_id)

unfoldable pub processing_crediting_failed :
    ℕ → RetryIds → Option Uuid → DepositCreditingPayload → TransactionDb → TransactionDb
processing_crediting_failed max_retry ids header p = logged header (λ key.
    recreate_outbox_event ids key p.transaction_id p.event_id max_retry deposit_crediting_failed)

unfoldable pub processing_transfer_success :
    Uuid → Option Uuid → TransferResultPayload → TransactionDb → TransactionDb
processing_transfer_success processed_id header p =
    logged header (λ key.
      set_status_updated_by_ids_and_create_processed_event processed_id key p.out_id p.in_id)

unfoldable pub processing_transfer_failed :
    ℕ → RetryIds → Option Uuid → TransferResultPayload → TransactionDb → TransactionDb
processing_transfer_failed max_retry ids header p = logged header (λ key.
    recreate_transfer_outbox_event ids key p.out_id p.in_id p.event_id max_retry tranfer_failed)
