-- ===== src/Transaction/Requests.antt =====
-- What the gRPC calls that start a deposit or a transfer store, and under which conditions.
use nestjs_homework.Base.{
  Bool, true, false, Option, none, some, Text, [], ◌∷◌, ◌++◌, ◌==◌, ◌≡◌, ◌≢◌, inl, inr, arith, ℕ,
  Option-cases, Bool-cases,
}
use nestjs_homework.Base.Int.{ℤ, pos, ltb_ℤ}
use nestjs_homework.Base.Result.{Result, ok, err, transact, Result-cases, transact_cases}
use nestjs_homework.Base.Table.{create}
use nestjs_homework.Contracts.{Uuid, CurrencyCode, rub}
use nestjs_homework.Grpc.{GrpcStatus}
use nestjs_homework.Transaction.{Transaction, TransactionDb, TransactionFault}
use nestjs_homework.Transaction.Queries.{insert_transaction}
use nestjs_homework.Transaction.Repository.{or_insert, create_transaction, TransferIds}
use nestjs_homework.Transaction.Transfer.{
  find_key, TransferOutcome, create_transfer_outcome, known, made, refused,
}
use nestjs_homework.Transaction.GrpcProcess.{
  Rejection, database, DepositRubRequest, TransferRubRequest, CreatedPayment, deposit_transaction,
  both_answers, TransferReply, not_enough_funds, in_process, new_transfer, transfer_rub,
}

-- What may come of `create`.
pub data Stored (t : Transaction) (db : TransactionDb)
    : Result TransactionFault Uuid × TransactionDb → Type 0 where
  existing : (x : Transaction) → find_key t.idempotency_key db ≡ some x → Stored t db (ok x.id, db)
  rejected : (e : TransactionFault) → Stored t db (err e, db)
  stored :
      find_key t.idempotency_key db ≡ none
      → Stored t db (ok t.id, record db { transactions = db.transactions ++ t ∷ [] })

module _ (t : Transaction) (db : TransactionDb) where
  returns_existing :
      (x : Transaction)
      → find_key t.idempotency_key db ≡ some x
      → create_transaction t db ≡ (ok x.id, db)
  unfolding create_transaction transact
  returns_existing x e = ground arith

  runs_insert :
      find_key t.idempotency_key db ≡ none
      → create_transaction t db ≡ transact (or_insert t none) db
  unfolding create_transaction transact
  runs_insert e = ground arith

  inserts :
      (p : Uuid × TransactionDb)
      → or_insert t none db ≡ ok p
      → p ≡ (t.id, record db { transactions = db.transactions ++ t ∷ [] })
  unfolding insert_transaction create
  inserts p h = ground arith

  pub create_transaction-Stored : Stored t db (create_transaction t db)
  create_transaction-Stored = elim (Option-cases (find_key t.idempotency_key db)) [
    | inr (x, e) ↦ rw (returns_existing x e) (existing x e)
    | inl new ↦ rw (runs_insert new) (elim (transact_cases (or_insert t none) db) [
      | inl (p, e, run) ↦ rw (run, inserts p e) (stored new)
      | inr (x, e, run) ↦ rw run (rejected x)
    ])
  ]

module _ (validation_account : Uuid → CurrencyCode → Result GrpcStatus ℤ) where
  -- What may come of `depositRub`.
  pub data DepositStarted (create_payment : ℕ → Text → Option CreatedPayment) (id : Uuid)
      (request : DepositRubRequest) (db : TransactionDb)
      : Result Rejection Text × TransactionDb → Type 0 where
    not_started : (e : Rejection) → DepositStarted create_payment id request db (err e, db)
    started :
        (balance : ℤ) (payment : CreatedPayment) (payment_id : Uuid) (url : Text) (t : Uuid)
        (db' : TransactionDb)
        → validation_account request.account_id rub ≡ ok balance
        → create_payment request.amount request.idempotency_key ≡ some payment
        → payment.id ≡ some payment_id
        → payment.confirmation_url ≡ some url
        → Stored (deposit_transaction id request payment_id) db (ok t, db')
        → DepositStarted create_payment id request db (ok url, db')

  -- What may come of `transferRub`.
  pub data TransferStarted (ids : TransferIds) (request : TransferRubRequest) (db : TransactionDb)
      : Result Rejection TransferReply × TransactionDb → Type 0 where
    not_transferred : (e : Rejection) → TransferStarted ids request db (err e, db)
    short :
        (balance : ℤ)
        → validation_account request.account_id rub ≡ ok balance
        → ltb_ℤ balance (pos request.amount) ≡ true
        → TransferStarted ids request db (ok not_enough_funds, db)
    being_processed :
        (balance balance_in : ℤ) (t : Transaction) (db' : TransactionDb)
        → request.account_id ≢ request.to_account_id
        → validation_account request.account_id rub ≡ ok balance
        → validation_account request.to_account_id rub ≡ ok balance_in
        → ltb_ℤ balance (pos request.amount) ≡ false
        → TransferOutcome ids (new_transfer request) db (ok t, db')
        → TransferStarted ids request db (ok in_process, db')

  both_ok :
      (left_first : Bool) (x y : Result GrpcStatus ℤ) (p : ℤ × ℤ)
      → both_answers left_first x y ≡ ok p
      → (x ≡ ok p.0) × (y ≡ ok p.1)
  both_ok left_first x y p h = ground arith

  transferring :
      (ids : TransferIds) (request : TransferRubRequest) (db : TransactionDb)
      (balance balance_in : ℤ) (out : Result TransactionFault Transaction × TransactionDb)
      → request.account_id ≢ request.to_account_id
      → validation_account request.account_id rub ≡ ok balance
      → validation_account request.to_account_id rub ≡ ok balance_in
      → ltb_ℤ balance (pos request.amount) ≡ false
      → TransferOutcome ids (new_transfer request) db out
      → TransferStarted ids request db
          (elim out.0 [ ok t ↦ ok in_process | err e ↦ err (database e) ], out.1)
  transferring ids request db balance balance_in _ ne v w enough (refused e) =
      not_transferred (database e)
  transferring ids request db balance balance_in _ ne v w enough (known t k) =
      being_processed balance balance_in t db ne v w enough (known t k)
  transferring ids request db balance balance_in _ ne v w enough (made new) =
      being_processed balance balance_in _ _ ne v w enough (made new)

  pub transfer_rub_outcome :
      (left_first : Bool) (ids : TransferIds) (request : TransferRubRequest) (db : TransactionDb)
      → TransferStarted ids request db (transfer_rub validation_account left_first ids request db)
  unfolding transfer_rub
  transfer_rub_outcome left_first ids request db =
      elim (Bool-cases (request.account_id == request.to_account_id)) [
        | inl same ↦ rw (transfer_rub, same) (not_transferred _)
        | inr differ ↦
            elim (Result-cases (
              both_answers left_first (validation_account request.account_id rub)
                (validation_account request.to_account_id rub))) [
                  | inr (e, v) ↦ rw (transfer_rub, differ, v) (not_transferred _)
                  | inl (p, v) ↦
                      let (from_ok, to_ok) = both_ok left_first _ _ p v in
                      elim (Bool-cases (ltb_ℤ p.0 (pos request.amount))) [
                        | inl less ↦ rw (transfer_rub, differ, v, less) (short p.0 from_ok less)
                        | inr enough ↦
                            rw (transfer_rub, differ, v, enough)
                              (transferring ids request db p.0 p.1 _ (ground arith) from_ok to_ok
                                enough (create_transfer_outcome ids (new_transfer request) db))
                      ]
                ]
      ]
