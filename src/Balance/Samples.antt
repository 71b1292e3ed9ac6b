-- ===== src/Balance/Samples.antt =====
-- A small database of balances and a few calls, for the tests.
use nestjs_homework.Base.{none, some, [], ◌∷◌, refl}
use nestjs_homework.Base.Int.{pos}
use nestjs_homework.Contracts.{rub}
use nestjs_homework.Balance.{Balance, BalanceDb}
use nestjs_homework.Balance.Repository.{
  Fresh, DepositArgs, deposit_and_create_outbox_event, TransferArgs,
  transfer_and_create_outbox_event,
}
use nestjs_homework.Balance.Rows.{DistinctIds}

abbrev pub alice : Balance
alice = record { id = 1; amount = pos 500; currency = rub; account_id = 20; blocked_at = none }

abbrev pub bob : Balance
bob = record { id = 2; amount = pos 100; currency = rub; account_id = 10; blocked_at = none }

abbrev pub carol : Balance
carol = record { id = 3; amount = pos 0; currency = rub; account_id = 30; blocked_at = some 5 }

abbrev pub bank : BalanceDb
bank = record { balances = alice ∷ bob ∷ carol ∷ []; processed_events = []; outbox_events = [] }

abbrev pub fresh : Fresh
fresh = record { processed_id = 100; outbox_id = 101; now = 9 }

abbrev pub fresh_again : Fresh
fresh_again = record { processed_id = 102; outbox_id = 103; now = 10 }

abbrev pub payment : DepositArgs
payment = record {
  idempotency_key = 7;
  currency = rub;
  amount = pos 50;
  account_id = 10;
  transaction_id = 60;
  event_id = 61;
}

abbrev pub payment_again : DepositArgs
payment_again = record payment { amount = pos 9 }

abbrev pub move : TransferArgs
move = record {
  idempotency_key = 8;
  from_account_id = 20;
  to_account_id = 10;
  currency = rub;
  amount = pos 200;
  event_id = 61;
  out_id = 62;
  in_id = 63;
}

abbrev pub move_again : TransferArgs
move_again = record move { amount = pos 1 }

abbrev pub moved : BalanceDb
moved = (transfer_and_create_outbox_event fresh move bank).1

abbrev pub paid : BalanceDb
paid = (deposit_and_create_outbox_event fresh payment bank).1

pub bank-DistinctIds : DistinctIds bank.balances
bank-DistinctIds = (refl, (refl, (refl, tt)))
