-- ===== src/Balance/Tests.antt =====
-- The repository of balances and its consumers on a small database.
use nestjs_homework.Base.{codes, digits, none, some, [], ◌∷◌, ◌≡◌, refl, arith}
use nestjs_homework.Base.Int.{pos, neg, ◌+ℤ◌, ◌-ℤ◌, fits_int8}
use nestjs_homework.Base.Result.{ok, err, transact}
use nestjs_homework.Base.Table.{create, update_first}
use nestjs_homework.Contracts.{rub, DepositPaidSuccessPayload, TransferInitedPayload}
use nestjs_homework.Balance.{Balance, insufficient_funds, one_account_missing}
use nestjs_homework.Balance.Repository.{
  find_balance, add_amount, increment_amount, find_processed, create_processed, create_outbox,
  credit, deposit_body, deposit_and_create_outbox_event, insert_by_account, order_by_account,
  locked_balances, move_funds, checked_pair, transfer_body, transfer_and_create_outbox_event,
}
use nestjs_homework.Balance.Samples.{
  alice, bob, carol, bank, fresh, fresh_again, payment, payment_again, move, move_again, moved,
  paid, bank-DistinctIds,
}
use nestjs_homework.Balance.Effects.{Cleared}
use nestjs_homework.Balance.Total.{total}
use nestjs_homework.Balance.Keeps.{AmountsOk}
use nestjs_homework.Balance.Funds.{transfer_moves_funds, transfer_conserves}
use nestjs_homework.Balance.Deposit.{DepositOutcome, deposit_outcome}
use nestjs_homework.Balance.Steps.{here, next, deposit, transfer}
use nestjs_homework.Balance.Once.{deposit_once, transfer_once}
use nestjs_homework.Balance.KafkaService.{Consumer, Draws, deposit_to_balance, transfer_to_account}
use nestjs_homework.Balance.Consumed.{DepositConsumed, deposit_to_balance_outcome}
use nestjs_homework.Balance.TransferConsumed.{transfer_to_account_conserves}
use nestjs_homework.Balance.Money.{
  dollars_of, to_dollars_str, read_dollars, read_dollars-to_dollars_str,
}

moved_balances :
    moved.balances
    ≡ record alice { amount = pos 300 } ∷ record bob { amount = pos 300 } ∷ carol ∷ []
unfolding transfer_and_create_outbox_event transfer_body checked_pair move_funds increment_amount
    create_processed create_outbox create update_first locked_balances order_by_account
    insert_by_account find_processed transact fits_int8 ◌+ℤ◌ ◌-ℤ◌
moved_balances = refl

too_much :
    (transfer_and_create_outbox_event fresh (record move { amount = pos 501 }) bank).0
    ≡ err insufficient_funds
unfolding transfer_and_create_outbox_event transfer_body checked_pair locked_balances
    order_by_account insert_by_account find_processed transact
too_much = refl

-- The rows of one account are one row, so a transfer from an account to itself is refused.
to_self :
    (transfer_and_create_outbox_event fresh (record move { to_account_id = 20 }) bank).0
    ≡ err one_account_missing
unfolding transfer_and_create_outbox_event transfer_body checked_pair locked_balances
    order_by_account insert_by_account find_processed transact
to_self = refl

bank-AmountsOk : AmountsOk bank.balances
unfolding fits_int8
bank-AmountsOk = (refl, (refl, (refl, tt)))

move_succeeds : (transfer_and_create_outbox_event fresh move bank).0 ≡ ok tt
unfolding transfer_and_create_outbox_event transfer_body checked_pair move_funds increment_amount
    create_processed create_outbox create update_first locked_balances order_by_account
    insert_by_account find_processed transact fits_int8 ◌+ℤ◌ ◌-ℤ◌
move_succeeds = refl

payment_succeeds : (deposit_and_create_outbox_event fresh payment bank).0 ≡ ok tt
unfolding deposit_and_create_outbox_event deposit_body credit increment_amount create_processed
    create_outbox create update_first find_processed find_balance transact fits_int8 ◌+ℤ◌ ◌-ℤ◌
payment_succeeds = refl

bank-new_key : find_processed 8 bank ≡ none
unfolding find_processed
bank-new_key = refl

transfer_moves_funds_example :
    (s : Balance) × (r : Balance) × Cleared move bank s r
    × (find_balance 20 rub moved ≡ some (add_amount (neg (pos 200)) s))
    × (find_balance 10 rub moved ≡ some (add_amount (pos 200) r))
transfer_moves_funds_example =
    transfer_moves_funds fresh move bank bank-DistinctIds (λ h. omega (arith, h)) bank-new_key
      move_succeeds

transfer_conserves_example : total moved ≡ total bank
transfer_conserves_example = transfer_conserves fresh move bank

deposit_outcome_example :
    DepositOutcome fresh payment bank (deposit_and_create_outbox_event fresh payment bank)
deposit_outcome_example = deposit_outcome fresh payment bank

deposit_once_example :
    (deposit_and_create_outbox_event fresh_again payment_again
      (transfer_and_create_outbox_event fresh_again move paid).1).1
    ≡ (transfer_and_create_outbox_event fresh_again move paid).1
deposit_once_example =
    deposit_once fresh fresh_again payment payment_again bank payment_succeeds
      (next here (transfer fresh_again move)) refl

transfer_once_example :
    transfer_and_create_outbox_event fresh_again move_again
      (deposit_and_create_outbox_event fresh_again payment moved).1
    ≡ (ok tt, (deposit_and_create_outbox_event fresh_again payment moved).1)
transfer_once_example =
    transfer_once fresh fresh_again move move_again bank move_succeeds
      (next here (deposit fresh_again payment)) refl

abbrev draws : Draws
draws = record { fresh = fresh; failed_id = 104; failed_at = 12 }

abbrev paid_message : DepositPaidSuccessPayload
paid_message = record {
  event_id = 61;
  transaction_id = 60;
  account_id = 10;
  currency = rub;
  amount = some (pos 50);
}

abbrev inited_message : TransferInitedPayload
inited_message = record {
  event_id = 61;
  out_id = 62;
  in_id = 63;
  from_account_id = 20;
  to_account_id = 10;
  currency = rub;
  amount = some (pos 501);
}

abbrev consumer : Consumer
consumer = record { db = bank; notifications = [] }

deposit_to_balance_outcome_example :
    DepositConsumed draws
      (some 7)
      paid_message
      consumer
      (deposit_to_balance draws (some 7) paid_message consumer)
deposit_to_balance_outcome_example = deposit_to_balance_outcome draws (some 7) paid_message consumer

transfer_to_account_conserves_example :
    total (transfer_to_account draws (some 8) inited_message consumer).1.db ≡ total bank
transfer_to_account_conserves_example =
    transfer_to_account_conserves draws (some 8) inited_message consumer

minus_1205 : to_dollars_str (neg (pos 1205)) ≡ codes "-12.05"
unfolding to_dollars_str dollars_of ◌-ℤ◌ digits
minus_1205 = refl

read_dollars-to_dollars_str_example :
    read_dollars (to_dollars_str (neg (pos 1205))) ≡ some (neg (pos 1205))
read_dollars-to_dollars_str_example = read_dollars-to_dollars_str (neg (pos 1205))
