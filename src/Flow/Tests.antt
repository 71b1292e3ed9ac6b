-- ===== src/Flow/Tests.antt =====
-- A transfer of 200 from the request to the receiver's balance.
use nestjs_homework.Base.{true, none, some, List, [], ◌∷◌, ◌≡◌, refl, arith}
use nestjs_homework.Base.Int.{pos, neg, ◌+ℤ◌, ◌-ℤ◌, fits_int8}
use nestjs_homework.Base.Result.{Result, ok, transact}
use nestjs_homework.Base.Table.{create}
use nestjs_homework.Contracts.{
  rub, user, transfer_completed, tranfer_inited, TransferInitedPayload, inited,
}
use nestjs_homework.Outbox.{new_event}
use nestjs_homework.Account.{Account, find_by}
use nestjs_homework.Balance.{Balance, BalanceDb, Fault}
use nestjs_homework.Balance.Repository.{find_balance, add_amount, amount_ok}
use nestjs_homework.Balance.Rows.{DistinctIds}
use nestjs_homework.Balance.Keeps.{AmountsOk}
use nestjs_homework.Balance.Service.{live_account, validation_account}
use nestjs_homework.Balance.KafkaService.{Draws, Consumer}
use nestjs_homework.Transaction.{TransactionDb}
use nestjs_homework.Transaction.Queries.{insert_transaction, create_outbox}
use nestjs_homework.Transaction.Repository.{TransferIds, create_transfer}
use nestjs_homework.Transaction.GrpcProcess.{TransferRubRequest, transfer_rub, in_process}
use nestjs_homework.Flow.{accept, consumed, accepted_transfer_completes}

abbrev alice : Account
alice = record {
  id = 20;
  email = 1;
  username = 1;
  password = 3;
  is_verified = true;
  role = user;
  created_at = 1;
  deleted_at = none;
}

abbrev bob : Account
bob = record {
  id = 10;
  email = 2;
  username = 2;
  password = 4;
  is_verified = true;
  role = user;
  created_at = 1;
  deleted_at = none;
}

abbrev accounts : List Account
accounts = alice ∷ bob ∷ []

abbrev rich : Balance
rich = record { id = 1; amount = pos 500; currency = rub; account_id = 20; blocked_at = none }

abbrev poor : Balance
poor = record { id = 2; amount = pos 100; currency = rub; account_id = 10; blocked_at = none }

abbrev bank : BalanceDb
bank = record { balances = rich ∷ poor ∷ []; processed_events = []; outbox_events = [] }

abbrev ledger : TransactionDb
ledger = record { transactions = []; processed_events = []; outbox_events = [] }

abbrev ids : TransferIds
ids = record { out_id = 20; in_id = 21; event_id = 22; now = 5 }

abbrev wish : TransferRubRequest
wish = record { account_id = 20; idempotency_key = 107 ∷ []; amount = 200; to_account_id = 10 }

abbrev draws : Draws
draws = record {
  fresh = record { processed_id = 100; outbox_id = 101; now = 9 };
  failed_id = 104;
  failed_at = 12;
}

wish_accepted : (accept true ids wish accounts ledger bank).0 ≡ ok in_process
unfolding transfer_rub validation_account live_account find_by find_balance create_transfer transact
    insert_transaction create_outbox create ◌-ℤ◌
wish_accepted = refl

bank-DistinctIds : DistinctIds bank.balances
bank-DistinctIds = (refl, (refl, tt))

bank-AmountsOk : AmountsOk bank.balances
unfolding fits_int8
bank-AmountsOk = (refl, (refl, tt))

poor_found : find_balance 10 rub bank ≡ some poor
unfolding find_balance
poor_found = refl

poor_has_room : amount_ok (pos 100 +ℤ pos 200) ≡ true
unfolding fits_int8 ◌+ℤ◌
poor_has_room = refl

room : (r : Balance) → find_balance 10 rub bank ≡ some r → amount_ok (r.amount +ℤ pos 200) ≡ true
room r h = ground (arith, poor_found, poor_has_room)

-- What the consumer has left of a message.
abbrev left : TransferInitedPayload → Result Fault (Unit {0}) × Consumer
left m = consumed true ids wish accounts ledger bank draws 8 [] m

accepted_transfer_completes_example :
    (m : TransferInitedPayload) × ((accept true ids wish accounts ledger bank).1.outbox_events
      ≡ new_event 22 20 tranfer_inited (inited m) 5 ∷ [])
    × (((left m).0 ≡ ok tt)
        × ((left m).1.notifications ≡ transfer_completed 20 21 20 10 (pos 200) rub ∷ [])
        × ((s : Balance) × (r : Balance) × (find_balance 20 rub bank ≡ some s)
            × (find_balance 10 rub bank ≡ some r)
            × (find_balance 20 rub (left m).1.db ≡ some (add_amount (neg (pos 200)) s))
            × (find_balance 10 rub (left m).1.db ≡ some (add_amount (pos 200) r))))
accepted_transfer_completes_example =
    accepted_transfer_completes true ids wish accounts ledger bank draws 8 [] bank-DistinctIds
      bank-AmountsOk room (record { new_processed = refl; new_event_id = refl }) refl wish_accepted
