-- ===== src/Balance/KafkaService.antt =====
-- apps/user-service/src/feat/balance/balance-kafka.service.ts: the consumers of deposits and transfers.
-- A notification is what `emit` hands to the queue; its amount is kept in cents.
use nestjs_homework.Base.{Option, none, some, List, [], ◌∷◌, ◌++◌}
use nestjs_homework.Base.Int.{ℤ}
use nestjs_homework.Base.Result.{Result, ok, err}
use nestjs_homework.Contracts.{
  Uuid, Time, CurrencyCode, Topic, Payload, deposit_crediting_failed, tranfer_failed, crediting,
  transferred, DepositPaidSuccessPayload, TransferInitedPayload, Notification, deposit_credited,
  transfer_completed,
}
use nestjs_homework.Balance.{BalanceDb, Fault, header_missing, bad_amount}
use nestjs_homework.Balance.Repository.{
  Fresh, DepositArgs, TransferArgs, deposit_and_create_outbox_event,
  transfer_and_create_outbox_event, create_outbox_event,
}

pub record Consumer : Type 0 where
  pub db : BalanceDb
  pub notifications : List Notification

-- What is generated for one message: the rows of the call, and the row of the failure event.
pub record Draws : Type 0 where
  pub fresh : Fresh
  pub failed_id : Uuid
  pub failed_at : Time

abbrev pub emit : Notification → Consumer → Consumer
emit n c = record c { notifications = c.notifications ++ n ∷ [] }

-- The `catch`: announce the failure; what that throws is thrown on.
unfoldable pub announce_failure :
    Draws → Uuid → CurrencyCode → Topic → Payload → Consumer → Result Fault (Unit {0}) × Consumer
announce_failure draws account currency topic payload c =
    let (r, db') =
      create_outbox_event draws.failed_id draws.failed_at account currency topic payload c.db in
    (elim r [ ok e ↦ ok tt | err e ↦ err e ], record c { db = db' })

unfoldable pub deposit_args : Uuid → ℤ → DepositPaidSuccessPayload → DepositArgs
deposit_args key amount p = record {
  idempotency_key = key;
  currency = p.currency;
  amount = amount;
  account_id = p.account_id;
  transaction_id = p.transaction_id;
  event_id = p.event_id;
}

-- The `try`: the header, the amount, the repository, the notification.
unfoldable pub try_deposit :
    Draws → Option Uuid → DepositPaidSuccessPayload → Consumer → Result Fault (Unit {0}) × Consumer
unfolding deposit_args
try_deposit draws none p c = (err header_missing, c)
try_deposit draws (some key) p c = elim p.amount [
  | none ↦ (err bad_amount, c)
  | some amount ↦
      let (r, db') = deposit_and_create_outbox_event draws.fresh (deposit_args key amount p) c.db in
      elim r [
        | ok u ↦ (
          ok tt,
          emit (deposit_credited p.transaction_id p.account_id amount p.currency)
              (record c { db = db' }),
        )
        | err e ↦ (err e, record c { db = db' })
      ]
]

abbrev pub rescue :
    Result Fault (Unit {0}) × Consumer
    → (Consumer → Result Fault (Unit {0}) × Consumer)
    → Result Fault (Unit {0}) × Consumer
rescue (ok u, c) handler = (ok tt, c)
rescue (err e, c) handler = handler c

unfoldable pub deposit_to_balance :
    Draws → Option Uuid → DepositPaidSuccessPayload → Consumer → Result Fault (Unit {0}) × Consumer
deposit_to_balance draws key p c = rescue (try_deposit draws key p c) (
    announce_failure draws p.account_id p.currency deposit_crediting_failed
      (crediting (record { event_id = p.event_id; transaction_id = p.transaction_id })))

unfoldable pub transfer_args : Uuid → ℤ → TransferInitedPayload → TransferArgs
transfer_args key amount p = record {
  idempotency_key = key;
  from_account_id = p.from_account_id;
  to_account_id = p.to_account_id;
  currency = p.currency;
  amount = amount;
  event_id = p.event_id;
  out_id = p.out_id;
  in_id = p.in_id;
}

unfoldable pub try_transfer :
    Draws → Option Uuid → TransferInitedPayload → Consumer → Result Fault (Unit {0}) × Consumer
unfolding transfer_args
try_transfer draws none p c = (err header_missing, c)
try_transfer draws (some key) p c = elim p.amount [
  | none ↦ (err bad_amount, c)
  | some amount ↦
      let (r, db') =
        transfer_and_create_outbox_event draws.fresh (transfer_args key amount p) c.db in
      elim r [
        | ok u ↦ (
          ok tt,
          emit
              (transfer_completed p.out_id p.in_id p.from_account_id p.to_account_id amount
                p.currency)
              (record c { db = db' }),
        )
        | err e ↦ (err e, record c { db = db' })
      ]
]

unfoldable pub transfer_to_account :
    Draws → Option Uuid → TransferInitedPayload → Consumer → Result Fault (Unit {0}) × Consumer
transfer_to_account draws key p c = rescue (try_transfer draws key p c) (
    announce_failure draws p.from_account_id p.currency tranfer_failed
      (transferred (record { event_id = p.event_id; out_id = p.out_id; in_id = p.in_id })))
