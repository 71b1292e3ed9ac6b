-- ===== src/Transaction/Webhook.antt =====
-- apps/transaction-service/src/processes/webhook/yookassa-webhook.service.ts, with `checkPaymentStatus`
-- of libs/payments/yookassa/services/yookassa.service.ts. What YooKassa answers to `GET /payments/:id`
-- is a parameter: the payment, or nothing where the request throws.
use nestjs_homework.Base.{Bool, true, false, Option, none, some, if◌then◌else◌}
use nestjs_homework.Base.Result.{Result, ok, err}
use nestjs_homework.Contracts.{Uuid, Time}
use nestjs_homework.Transaction.{TransactionDb, TransactionFault}
use nestjs_homework.Transaction.Repository.{
  set_status_completed_and_create_outbox_event, set_status_timeout,
}

-- `YookassaPaymentStatus`
pub data PaymentStatus : Type 0 where
  payment_pending waiting_for_capture succeeded canceled : PaymentStatus

-- `payment.status === status`
abbrev pub same_status : PaymentStatus → PaymentStatus → Bool
same_status payment_pending payment_pending = true
same_status waiting_for_capture waiting_for_capture = true
same_status succeeded succeeded = true
same_status canceled canceled = true
same_status _ _ = false

pub record PaymentObject : Type 0 where
  pub id : Uuid
  pub status : PaymentStatus

-- The `event` of a notification.
pub data WebhookEvent : Type 0 where
  payment_succeeded payment_canceled unknown_event : WebhookEvent

-- How the handler ends. `reference_error`: the `catch` reads `tx` before its initialisation, so
-- the `BadRequestException` below it is not reached.
pub data WebhookReply : Type 0 where
  accepted bad_request reference_error : WebhookReply

module _ (get_payment : Uuid → Option PaymentObject) where
  unfoldable pub check_payment_status : Uuid → PaymentStatus → Option PaymentObject
  check_payment_status payment status = elim (get_payment payment) [
    | none ↦ none
    | some object ↦ if same_status object.status status then some object else none
  ]

  abbrev pub after_update :
      Result TransactionFault Uuid × TransactionDb → WebhookReply × TransactionDb
  after_update (ok id, db) = (accepted, db)
  after_update (err e, db) = (reference_error, db)

  unfoldable pub on_succeeded : Uuid → Time → Uuid → TransactionDb → WebhookReply × TransactionDb
  on_succeeded event_id now payment db = elim (check_payment_status payment succeeded) [
    | none ↦ (bad_request, db)
    | some object ↦
        after_update (set_status_completed_and_create_outbox_event event_id now object.id db)
  ]

  unfoldable pub on_canceled : Uuid → TransactionDb → WebhookReply × TransactionDb
  on_canceled payment db = elim (check_payment_status payment canceled) [
    | none ↦ (bad_request, db)
    | some object ↦ after_update (set_status_timeout payment db)
  ]

  unfoldable pub processing :
      Uuid → Time → WebhookEvent → Uuid → TransactionDb → WebhookReply × TransactionDb
  processing event_id now payment_succeeded payment db = on_succeeded event_id now payment db
  processing event_id now payment_canceled payment db = on_canceled payment db
  processing event_id now unknown_event payment db = (accepted, db)
