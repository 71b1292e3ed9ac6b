-- ===== src/Balance/Ledger/Tests.antt =====
-- A sequence of calls on a small database, and its replay in the ledger.
use nestjs_homework.Base.{Bool, true, false, List, [], ◌∷◌, ◌≡◌, refl}
use nestjs_homework.Base.Int.{fits_int8, ◌+ℤ◌, ◌-ℤ◌, pos}
use nestjs_homework.Base.Result.{transact}
use nestjs_homework.Base.Table.{create, update_first}
use nestjs_homework.Balance.Repository.{
  find_balance, increment_amount, find_processed, create_processed, create_outbox, credit,
  deposit_body, deposit_and_create_outbox_event, insert_by_account, order_by_account,
  locked_balances, move_funds, checked_pair, transfer_body, transfer_and_create_outbox_event,
  reset_all_balances,
}
use nestjs_homework.Balance.Samples.{bank, fresh, fresh_again, payment, move, bank-DistinctIds}
use nestjs_homework.Balance.Ledger.{Ledger, ledger_of}
use nestjs_homework.Balance.Ledger.Guards.{OnePerAccount}
use nestjs_homework.Balance.Ledger.Calls.{
  Call, deposit, transfer, reset, perform_all, perform_all_in, AllDrawNew,
}
use nestjs_homework.Balance.Ledger.Replay.{replay}

-- The second transfer repeats a key, and the third asks for more than there is.
abbrev calls : List Call
calls =
    deposit fresh payment
    ∷ transfer fresh_again move
    ∷ transfer (record { processed_id = 104; outbox_id = 105; now = 11 }) move
    ∷ transfer (record { processed_id = 106; outbox_id = 107; now = 12 })
        (record move { idempotency_key = 9; amount = pos 999 })
    ∷ reset
    ∷ []

bank-OnePerAccount : OnePerAccount bank.balances
bank-OnePerAccount = (refl, (refl, (refl, tt)))

calls-AllDrawNew : AllDrawNew calls bank
unfolding deposit_and_create_outbox_event deposit_body credit transfer_and_create_outbox_event
    transfer_body checked_pair move_funds increment_amount create_processed create_outbox create
    update_first locked_balances order_by_account insert_by_account find_processed find_balance
    transact fits_int8 ◌+ℤ◌ ◌-ℤ◌
calls-AllDrawNew = (
  record { new_processed = refl; new_event_id = refl },
  (
    record { new_processed = refl; new_event_id = refl },
    (
      record { new_processed = refl; new_event_id = refl },
      (record { new_processed = refl; new_event_id = refl }, (tt, tt)),
    ),
  ),
)

calls_answers : (perform_all calls bank).0 ≡ true ∷ true ∷ true ∷ false ∷ true ∷ []
unfolding deposit_and_create_outbox_event deposit_body credit transfer_and_create_outbox_event
    transfer_body checked_pair move_funds increment_amount create_processed create_outbox create
    update_first locked_balances order_by_account insert_by_account find_processed find_balance
    transact fits_int8 ◌+ℤ◌ ◌-ℤ◌ reset_all_balances
calls_answers = refl

replay_example :
    Path
      (List Bool × Ledger)
      ((perform_all calls bank).0, ledger_of (perform_all calls bank).1)
      (perform_all_in calls (ledger_of bank))
replay_example = replay calls bank bank-DistinctIds bank-OnePerAccount calls-AllDrawNew
