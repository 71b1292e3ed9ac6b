-- ===== src/Flow.antt =====
-- A transfer through both services: from `transferRub` of transaction-service, which asks
-- `validationAccount` of user-service, to `transferToAccount` of user-service, which consumes the event.
mod Checks
mod Tests
use nestjs_homework.Base.{
  Bool, true, false, Option, none, some, List, [], ◌∷◌, ◌++◌, ◌≡◌, ◌≢◌, refl, sym, subst, arith,
  find, is_some, All, Option-cases, inl, inr, ◌∙◌,
}
use nestjs_homework.Base.Int.{ℤ, pos, neg, ◌+ℤ◌, ◌≤ℤ◌, ltb_ℤ}
use nestjs_homework.Base.Result.{Result, ok, err, Result-cases}
use nestjs_homework.Contracts.{
  Uuid, CurrencyCode, rub, TransferInitedPayload, inited, Notification, transfer_completed,
  tranfer_inited,
}
use nestjs_homework.Account.{Account, find_by, found_id}
use nestjs_homework.Grpc.{GrpcStatus, unauthenticated}
use nestjs_homework.Balance.{Balance, BalanceDb, Fault}
use nestjs_homework.Balance.Repository.{
  of_account, add_amount, TransferArgs, amount_ok, find_balance, transfer_and_create_outbox_event,
}
use nestjs_homework.Balance.Rows.{DistinctIds}
use nestjs_homework.Balance.Effects.{Cleared}
use nestjs_homework.Balance.Keeps.{AmountsOk}
use nestjs_homework.Balance.Ready.{IsFresh, transfer_succeeds, find_processed-IsFresh}
use nestjs_homework.Balance.Funds.{transfer_moves_funds}
use nestjs_homework.Balance.Service.{live_account, validation_account}
use nestjs_homework.Balance.KafkaService.{
  Consumer, Draws, emit, transfer_args, try_transfer, transfer_to_account,
}
use nestjs_homework.Transaction.{Transaction, TransactionDb, TransactionFault}
use nestjs_homework.Transaction.Repository.{TransferIds, NewTransfer, inited_event}
use nestjs_homework.Transaction.Transfer.{find_key, TransferOutcome, known, refused, made}
use nestjs_homework.Outbox.{new_event}
use nestjs_homework.Transaction.GrpcProcess.{
  Rejection, TransferReply, not_enough_funds, in_process, TransferRubRequest, new_transfer,
  transfer_rub,
}
use nestjs_homework.Transaction.Requests.{
  TransferStarted, not_transferred, short, being_processed, transfer_rub_outcome,
}
use nestjs_homework.Flow.Checks.{stored_event, validated, row_ok}

-- The message that a request asks for.
abbrev message : TransferIds → TransferRubRequest → TransferInitedPayload
message ids request = record {
  event_id = ids.event_id;
  out_id = ids.out_id;
  in_id = ids.in_id;
  from_account_id = request.account_id;
  to_account_id = request.to_account_id;
  currency = rub;
  amount = some (pos request.amount);
}

module _ (left_first : Bool) (ids : TransferIds) (request : TransferRubRequest)
    (accounts : List Account) (transactions : TransactionDb) (db : BalanceDb) where
  -- The request, with user-service's answers at a time when its tables are `db`.
  abbrev pub accept : Result Rejection TransferReply × TransactionDb
  accept =
      transfer_rub (λ id currency. validation_account id currency accounts db) left_first ids
        request transactions

  -- What a request that is accepted says of the two balances, and the event that it stores under a new key.
  pub record IsAccepted (out : TransactionDb) : Type 0 where
    pub sender : Balance
    pub receiver : Balance
    pub differ : request.account_id ≢ request.to_account_id
    pub cleared :
        (key : Uuid)
        → Cleared (transfer_args key (pos request.amount) (message ids request)) db sender receiver
    pub stored :
        find_key request.idempotency_key transactions ≡ none
        → out.outbox_events
          ≡ transactions.outbox_events ++ inited_event ids (new_transfer request) ∷ []

  started-IsAccepted :
      (out : Result Rejection TransferReply × TransactionDb)
      → TransferStarted
          (λ id currency. validation_account id currency accounts db)
          ids
          request
          transactions
          out
      → out.0 ≡ ok in_process
      → IsAccepted out.1
  unfolding transfer_args
  started-IsAccepted _ (not_transferred e) h = cc
  started-IsAccepted _ (short balance v less) h = cc
  started-IsAccepted _ (being_processed balance balance_in t db' differ from_ok to_ok enough stored)
        h =
      let (s, fs, open_s, amount_s) =
        validated request.account_id rub accounts db balance from_ok in
      let (r, fr, open_r, amount_r) =
        validated request.to_account_id rub accounts db balance_in to_ok in
      record {
        sender = s;
        receiver = r;
        differ = differ;
        cleared = λ key. record {
          sender = fs;
          receiver = fr;
          sender_open = open_s;
          receiver_open = open_r;
          covered = ground arith;
        };
        stored = stored_event ids (new_transfer request) t transactions _ stored refl;
      }

  pub accept-IsAccepted : accept.0 ≡ ok in_process → IsAccepted accept.1
  accept-IsAccepted h =
      started-IsAccepted _
        (transfer_rub_outcome (λ id currency. validation_account id currency accounts db) left_first
          ids request transactions)
        h

  module _ (draws : Draws) (key : Uuid) (notifications : List Notification) where
    abbrev pub args : TransferArgs
    args = transfer_args key (pos request.amount) (message ids request)

    -- What the consumer makes of a message.
    abbrev pub consumed : TransferInitedPayload → Result Fault (Unit {0}) × Consumer
    consumed m =
        transfer_to_account draws (some key) m (record { db = db; notifications = notifications })

    done_consumed :
        (transfer_and_create_outbox_event draws.fresh args db).0 ≡ ok tt
        → consumed (message ids request) ≡ (
          ok tt,
          record {
            db = (transfer_and_create_outbox_event draws.fresh args db).1;
            notifications =
                notifications
                ++ transfer_completed ids.out_id ids.in_id request.account_id request.to_account_id
                    (pos request.amount)
                    rub
                  ∷ [];
          },
        )
    unfolding transfer_to_account try_transfer
    done_consumed h = rw (transfer_to_account, try_transfer, h) refl

    -- A transfer that `transferRub` accepts under a new idempotency key stores one event, and the message of this very event,
    -- under a new key of its own, succeeds when it meets the balances as they were checked and the receiver's has
    -- room: the requested amount goes from the requesting account's balance to the other account's, and one
    -- notification says so.
    pub accepted_transfer_completes :
        DistinctIds db.balances
        → AmountsOk db.balances
        → ((r : Balance)
            → find_balance request.to_account_id rub db ≡ some r
            → amount_ok (r.amount +ℤ pos request.amount) ≡ true)
        → IsFresh draws.fresh key db
        → find_key request.idempotency_key transactions ≡ none
        → accept.0 ≡ ok in_process
        → (m : TransferInitedPayload) × (accept.1.outbox_events
            ≡ transactions.outbox_events
              ++ new_event ids.event_id ids.out_id tranfer_inited (inited m) ids.now ∷ [])
          × (((consumed m).0 ≡ ok tt)
              × ((consumed m).1.notifications
                  ≡ notifications
                    ++ transfer_completed ids.out_id ids.in_id request.account_id
                        request.to_account_id
                        (pos request.amount)
                        rub
                      ∷ [])
              × ((s : Balance) × (r : Balance) × (find_balance request.account_id rub db ≡ some s)
                  × (find_balance request.to_account_id rub db ≡ some r)
                  × (find_balance request.account_id rub (consumed m).1.db
                      ≡ some (add_amount (neg (pos request.amount)) s))
                  × (find_balance request.to_account_id rub (consumed m).1.db
                      ≡ some (add_amount (pos request.amount) r))))
    unfolding transfer_args find_balance
    accepted_transfer_completes d amounts room new first h =
        let a = accept-IsAccepted h in
        let c = a.cleared key in
        let succeeds =
          transfer_succeeds draws.fresh args db a.sender a.receiver d a.differ c (omega arith)
            (row_ok request.account_id rub db.balances a.sender c.sender amounts)
            (room a.receiver c.receiver) new in
        let (s, r, cleared, from_row, to_row) =
          transfer_moves_funds draws.fresh args db d a.differ
            (find_processed-IsFresh draws.fresh key db new) succeeds in
        (
          message ids request,
          a.stored first,
          rw (done_consumed succeeds)
              (refl, refl, (s, r, cleared.sender, cleared.receiver, from_row, to_row)),
        )
