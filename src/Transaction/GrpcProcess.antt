-- ===== src/Transaction/GrpcProcess.antt =====
-- apps/transaction-service/src/processes/grpc/grpc-process.service.ts: the gRPC calls that start a
-- deposit and a transfer in roubles. The answers of user-service (`validationAccount`) and of YooKassa
-- (`createPayment`) are parameters. An amount is a `uint64` of cents.
use nestjs_homework.Base.{ℕ, Bool, Option, none, some, Text, ◌==◌, if◌then◌else◌}
use nestjs_homework.Base.Int.{ℤ, pos, ltb_ℤ}
use nestjs_homework.Base.Result.{Result, ok, err}
use nestjs_homework.Contracts.{Uuid, CurrencyCode, rub, pending, deposit}
use nestjs_homework.Grpc.{GrpcStatus, unavailable, deadline_exceeded, internal, invalid_argument}
use nestjs_homework.Transaction.{Transaction, TransactionDb, TransactionFault}
use nestjs_homework.Transaction.Repository.{
  create_transaction, TransferIds, NewTransfer, create_transfer,
}

-- What the handlers throw: an `RpcException` with its code, or what the repository throws.
pub data Rejection : Type 0 where
  rpc : GrpcStatus → Rejection
  database : TransactionFault → Rejection

pub record DepositRubRequest : Type 0 where
  pub account_id : Uuid
  pub idempotency_key : Text
  pub amount : ℕ

pub record TransferRubRequest : Type 0 where
  pub account_id : Uuid
  pub idempotency_key : Text
  pub amount : ℕ
  pub to_account_id : Uuid

-- The fields of a created payment that are read; `none` is one that is missing or empty.
pub record CreatedPayment : Type 0 where
  pub id : Option Uuid
  pub confirmation_url : Option Text

-- The `catch` of a validation.
abbrev pub validation_error : GrpcStatus → GrpcStatus
validation_error unavailable = unavailable
validation_error deadline_exceeded = unavailable
validation_error code = code

abbrev pub deposit_transaction : Uuid → DepositRubRequest → Uuid → Transaction
deposit_transaction id request payment = record {
  id = id;
  account_id = request.account_id;
  amount = pos request.amount;
  currency = rub;
  type = deposit;
  status = pending;
  idempotency_key = request.idempotency_key;
  retry_count = 0;
  provider_payment_id = some payment;
  reference_id = none;
}

-- `Promise.all` of two calls: both answers, or the error of the one that is rejected first.
abbrev pub both_answers :
    Bool → Result GrpcStatus ℤ → Result GrpcStatus ℤ → Result GrpcStatus (ℤ × ℤ)
both_answers left_first (ok x) (ok y) = ok (x, y)
both_answers left_first (ok x) (err e) = err e
both_answers left_first (err e) (ok y) = err e
both_answers left_first (err e) (err e') = err (if left_first then e else e')

pub data TransferReply : Type 0 where
  not_enough_funds in_process : TransferReply

abbrev pub new_transfer : TransferRubRequest → NewTransfer
new_transfer request = record {
  from_account_id = request.account_id;
  to_account_id = request.to_account_id;
  amount = pos request.amount;
  currency = rub;
  idempotency_key = request.idempotency_key;
}

module _ (validation_account : Uuid → CurrencyCode → Result GrpcStatus ℤ) where
  -- The last step of `depositRub`, with the payment's id and link.
  abbrev pub store_deposit :
      Uuid → DepositRubRequest → Uuid → Text → TransactionDb → Result Rejection Text × TransactionDb
  store_deposit id request payment url db =
      let (r, db') = create_transaction (deposit_transaction id request payment) db in
      (elim r [ ok t ↦ ok url | err e ↦ err (database e) ], db')

  -- The guards on the payment.
  abbrev pub with_payment :
      Uuid
      → DepositRubRequest
      → Option CreatedPayment
      → TransactionDb
      → Result Rejection Text × TransactionDb
  with_payment id request none db = (err (rpc unavailable), db)
  with_payment id request (some payment) db = elim payment.id [
    | none ↦ (err (rpc internal), db)
    | some payment_id ↦ elim payment.confirmation_url [
      | none ↦ (err (rpc internal), db)
      | some url ↦ store_deposit id request payment_id url db
    ]
  ]

  unfoldable pub deposit_rub :
      (ℕ → Text → Option CreatedPayment)
      → Uuid
      → DepositRubRequest
      → TransactionDb
      → Result Rejection Text × TransactionDb
  deposit_rub create_payment id request db = elim (validation_account request.account_id rub) [
    | err e ↦ (err (rpc (validation_error e)), db)
    | ok a ↦ with_payment id request (create_payment request.amount request.idempotency_key) db
  ]

  unfoldable pub transfer_rub :
      Bool
      → TransferIds
      → TransferRubRequest
      → TransactionDb
      → Result Rejection TransferReply × TransactionDb
  transfer_rub left_first ids request db =
      if request.account_id == request.to_account_id
      then (err (rpc invalid_argument), db)
      else elim (both_answers left_first (validation_account request.account_id rub)
          (validation_account request.to_account_id rub)) [
            | err e ↦ (err (rpc (validation_error e)), db)
            | ok (balance_out, balance_in) ↦
                if ltb_ℤ balance_out (pos request.amount)
                then (ok not_enough_funds, db)
                else (let (r, db') = create_transfer ids (new_transfer request) db in
                    (elim r [ ok t ↦ ok in_process | err e ↦ err (database e) ], db'))
          ]
