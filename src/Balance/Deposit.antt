-- ===== src/Balance/Deposit.antt =====
-- `depositAndCreateOutboxEvent`: what a deposit does, on every path.
use nestjs_homework.Base.{
  none, some, [], ◌∷◌, ◌++◌, ◌≡◌, ◌≢◌, ◌⊎◌, sym, arith, subst, ◌∙◌, Option-cases, inl, inr,
}
use nestjs_homework.Base.Int.{◌+ℤ◌}
use nestjs_homework.Base.Result.{Result, ok, err, transact, transact_cases}
use nestjs_homework.Contracts.{deposit_paid_success}
use nestjs_homework.Balance.{Balance, BalanceDb, Fault, account_not_found}
use nestjs_homework.Balance.Repository.{
  find_balance, find_processed, Fresh, DepositArgs, credit, deposit_body,
  deposit_and_create_outbox_event,
}
use nestjs_homework.Balance.Effects.{credited, deposit_event, processed, credit_effect}
use nestjs_homework.Balance.Total.{total, Moves, credit-Moves}

-- With the row locked and the key not seen before, a deposit is the credit.
pub deposit_body_new :
    (fresh : Fresh) (a : DepositArgs) (db : BalanceDb) (b : Balance)
    → find_balance a.account_id a.currency db ≡ some b
    → find_processed a.idempotency_key db ≡ none
    → deposit_body fresh a db ≡ credit fresh a b db
unfolding deposit_body
deposit_body_new fresh a db b f h = ground arith

-- With no row the deposit fails, and with a key that is recorded it does nothing.
pub deposit_skipped :
    (fresh : Fresh) (a : DepositArgs) (db : BalanceDb)
    → (find_balance a.account_id a.currency db ≡ none)
      ⊎ (find_processed a.idempotency_key db ≢ none)
    → (deposit_and_create_outbox_event fresh a db).1 ≡ db
unfolding deposit_and_create_outbox_event transact deposit_body
deposit_skipped fresh a db h = ground arith

-- The tables after a deposit that was credited.
pub record Deposited (fresh : Fresh) (a : DepositArgs) (db db' : BalanceDb) : Type 0 where
  pub row : Balance
  pub found : find_balance a.account_id a.currency db ≡ some row
  pub new_key : find_processed a.idempotency_key db ≡ none
  pub written : db' ≡ record {
    balances = credited a.amount row.id db.balances;
    processed_events =
        db.processed_events ++ processed fresh a.idempotency_key deposit_paid_success ∷ [];
    outbox_events = db.outbox_events ++ deposit_event fresh a row ∷ [];
  }
  pub sums : total db' ≡ total db +ℤ a.amount

credit-Deposited :
    (fresh : Fresh) (a : DepositArgs) (db db' : BalanceDb) (b : Balance)
    → find_balance a.account_id a.currency db ≡ some b
    → find_processed a.idempotency_key db ≡ none
    → deposit_body fresh a db ≡ ok (tt, db')
    → Deposited fresh a db db'
credit-Deposited fresh a db db' b found new run =
    let credits = sym (deposit_body_new fresh a db b found new) ∙ run in
    record {
      row = b;
      found = found;
      new_key = new;
      written = credit_effect fresh a b db db' credits;
      sums = subst (Moves db a.amount) credits (credit-Moves fresh a b db);
    }

pub deposit_no_row :
    (fresh : Fresh) (a : DepositArgs) (db : BalanceDb)
    → find_balance a.account_id a.currency db ≡ none
    → deposit_and_create_outbox_event fresh a db ≡ (err account_not_found, db)
unfolding deposit_and_create_outbox_event transact deposit_body
deposit_no_row fresh a db h = ground arith

-- A call that finds the row and the key recorded succeeds and changes nothing.
pub deposit_repeated :
    (fresh : Fresh) (a : DepositArgs) (db : BalanceDb)
    → find_balance a.account_id a.currency db ≢ none
    → find_processed a.idempotency_key db ≢ none
    → deposit_and_create_outbox_event fresh a db ≡ (ok tt, db)
unfolding deposit_and_create_outbox_event transact deposit_body
deposit_repeated fresh a db f h = ground arith

-- What may come of a deposit.
pub data DepositOutcome (fresh : Fresh) (a : DepositArgs) (db : BalanceDb)
    : Result Fault (Unit {0}) × BalanceDb → Type 0 where
  refused : (e : Fault) → DepositOutcome fresh a db (err e, db)
  duplicate : find_processed a.idempotency_key db ≢ none → DepositOutcome fresh a db (ok tt, db)
  deposited : (db' : BalanceDb) → Deposited fresh a db db' → DepositOutcome fresh a db (ok tt, db')

-- A deposit is refused and changes nothing; or it succeeds and changes nothing, and its key was
-- recorded before; or it succeeds and credits in full: the amount on the balance, the key among the
-- processed events and the announcement in the outbox, all at once.
pub deposit_outcome :
    (fresh : Fresh) (a : DepositArgs) (db : BalanceDb)
    → DepositOutcome fresh a db (deposit_and_create_outbox_event fresh a db)
unfolding deposit_and_create_outbox_event
deposit_outcome fresh a db = elim (Option-cases (find_balance a.account_id a.currency db)) [
  | inl lost ↦ rw (deposit_no_row fresh a db lost) (refused account_not_found)
  | inr (b, found) ↦ elim (Option-cases (find_processed a.idempotency_key db)) [
    | inr (v, old) ↦ rw (deposit_repeated fresh a db (λ h. cc) (λ h. cc)) (duplicate (λ h. cc))
    | inl new ↦ elim (transact_cases (deposit_body fresh a) db) [
      | inl (p, e, run) ↦ rw run (deposited p.1 (credit-Deposited fresh a db p.1 b found new e))
      | inr (x, e, run) ↦ rw run (refused x)
    ]
  ]
]
