-- ===== src/Transaction/Verified.antt =====
-- What a webhook can do to the table of transactions, and to what YooKassa must agree first.
use nestjs_homework.Base.{true, none, some, ◌≡◌, ◌≢◌, inl, inr, arith, Option, Option-cases}
use nestjs_homework.Base.Result.{err, Result-cases}
use nestjs_homework.Contracts.{Uuid, Time}
use nestjs_homework.Transaction.{TransactionDb, TransactionFault}
use nestjs_homework.Transaction.Repository.{
  set_status_completed_and_create_outbox_event, set_status_timeout,
}
use nestjs_homework.Transaction.Payment.{
  Completed, webhook_completes, completed_rollback, timeout_effect, timeout_rollback, TimedOut,
}
use nestjs_homework.Transaction.Webhook.{
  PaymentStatus, PaymentObject, succeeded, canceled, WebhookEvent, payment_succeeded,
  payment_canceled, unknown_event, WebhookReply, accepted, bad_request, reference_error,
  same_status, check_payment_status, on_succeeded, on_canceled, processing,
}

-- What may come of a webhook for a payment, by its event.
pub data WebhookOutcome (get_payment : Uuid → Option PaymentObject) (event_id : Uuid) (now : Time)
    (payment : Uuid) (db : TransactionDb)
    : WebhookEvent → WebhookReply × TransactionDb → Type 0 where
  ignored : WebhookOutcome get_payment event_id now payment db unknown_event (accepted, db)
  not_paid :
      ((object : PaymentObject) → get_payment payment ≡ some object → object.status ≢ succeeded)
      → WebhookOutcome get_payment event_id now payment db payment_succeeded (bad_request, db)
  not_cancelled :
      ((object : PaymentObject) → get_payment payment ≡ some object → object.status ≢ canceled)
      → WebhookOutcome get_payment event_id now payment db payment_canceled (bad_request, db)
  paid :
      (object : PaymentObject) (db' : TransactionDb)
      → get_payment payment ≡ some object
      → object.status ≡ succeeded
      → Completed event_id now object.id db db'
      → WebhookOutcome get_payment event_id now payment db payment_succeeded (accepted, db')
  paid_failed :
      (object : PaymentObject) (e : TransactionFault)
      → get_payment payment ≡ some object
      → (set_status_completed_and_create_outbox_event event_id now object.id db).0 ≡ err e
      → WebhookOutcome get_payment event_id now payment db payment_succeeded (reference_error, db)
  cancelled :
      (object : PaymentObject) (db' : TransactionDb)
      → get_payment payment ≡ some object
      → object.status ≡ canceled
      → TimedOut payment db db'
      → WebhookOutcome get_payment event_id now payment db payment_canceled (accepted, db')
  cancelled_failed :
      (object : PaymentObject) (e : TransactionFault)
      → get_payment payment ≡ some object
      → (set_status_timeout payment db).0 ≡ err e
      → WebhookOutcome get_payment event_id now payment db payment_canceled (reference_error, db)

module _ (get_payment : Uuid → Option PaymentObject) where
  checked :
      (payment : Uuid) (status : PaymentStatus) (object : PaymentObject)
      → check_payment_status get_payment payment status ≡ some object
      → (get_payment payment ≡ some object) × (same_status object.status status ≡ true)
  unfolding check_payment_status
  checked payment status object h = ground arith

  unchecked :
      (payment : Uuid) (status : PaymentStatus) (object : PaymentObject)
      → check_payment_status get_payment payment status ≡ none
      → ((s : PaymentStatus) → s ≡ status → same_status s status ≡ true)
      → get_payment payment ≡ some object
      → object.status ≢ status
  unfolding check_payment_status
  unchecked payment status object h same got eq = ground (arith, same object.status eq)

  succeeded_same : (s : PaymentStatus) → s ≡ succeeded → same_status s succeeded ≡ true
  succeeded_same s h = ground arith

  canceled_same : (s : PaymentStatus) → s ≡ canceled → same_status s canceled ≡ true
  canceled_same s h = ground arith

  same_succeeded : (s : PaymentStatus) → same_status s succeeded ≡ true → s ≡ succeeded
  same_succeeded s h = ground arith

  same_canceled : (s : PaymentStatus) → same_status s canceled ≡ true → s ≡ canceled
  same_canceled s h = ground arith

  on_succeeded-Outcome :
      (event_id : Uuid) (now : Time) (payment : Uuid) (db : TransactionDb)
      → WebhookOutcome get_payment event_id now payment db payment_succeeded
          (on_succeeded get_payment event_id now payment db)
  unfolding on_succeeded
  on_succeeded-Outcome event_id now payment db =
      elim (Option-cases (check_payment_status get_payment payment succeeded)) [
        | inl e ↦
            rw (on_succeeded, e)
              (not_paid (λ object. unchecked payment succeeded object e succeeded_same))
        | inr (object, e) ↦
            let (got, same) = checked payment succeeded object e in
            let call = set_status_completed_and_create_outbox_event event_id now object.id db in
            rw (on_succeeded, e)
              (elim (Result-cases call.0) [
                | inl (id, h) ↦ rw (h) (
                    paid object call.1 got (same_succeeded object.status same)
                      (webhook_completes event_id now object.id db h))
                | inr (x, h) ↦
                    rw (h, completed_rollback event_id now object.id db h)
                      (paid_failed object x got h)
              ])
      ]

  on_canceled-Outcome :
      (event_id : Uuid) (now : Time) (payment : Uuid) (db : TransactionDb)
      → WebhookOutcome get_payment event_id now payment db payment_canceled
          (on_canceled get_payment payment db)
  unfolding on_canceled
  on_canceled-Outcome event_id now payment db =
      elim (Option-cases (check_payment_status get_payment payment canceled)) [
        | inl e ↦
            rw (on_canceled, e)
              (not_cancelled (λ object. unchecked payment canceled object e canceled_same))
        | inr (object, e) ↦
            let (got, same) = checked payment canceled object e in
            let call = set_status_timeout payment db in
            rw (on_canceled, e)
              (elim (Result-cases call.0) [
                | inl (id, h) ↦ rw (h) (
                    cancelled object call.1 got (same_canceled object.status same)
                      (timeout_effect payment db h))
                | inr (x, h) ↦
                    rw (h, timeout_rollback payment db h) (cancelled_failed object x got h)
              ])
      ]

  -- A webhook of the event `payment.succeeded` completes the pending transaction of the payment, with its event, where
  -- YooKassa, asked for the payment, reports that it succeeded; one of the event `payment.canceled` makes it time out where
  -- YooKassa reports that it was cancelled. Where YooKassa reports another status or nothing, the webhook is
  -- refused; where the repository refuses the update, the handler fails; both change nothing. Any
  -- other event is accepted and changes nothing.
  pub processing_outcome :
      (event_id : Uuid) (now : Time) (event : WebhookEvent) (payment : Uuid) (db : TransactionDb)
      → WebhookOutcome get_payment event_id now payment db event
          (processing get_payment event_id now event payment db)
  unfolding processing
  processing_outcome event_id now payment_succeeded payment db =
      on_succeeded-Outcome event_id now payment db
  processing_outcome event_id now payment_canceled payment db =
      on_canceled-Outcome event_id now payment db
  processing_outcome event_id now unknown_event payment db = ignored
