-- ===== src/Balance/Ledger/OneRow.antt =====
-- No call gives an account a second balance in a currency.
use nestjs_homework.Base.{
  none, List, [], ◌∷◌, ◌≡◌, refl, sym, arith, inl, inr, find, Option-cases, subst,
}
use nestjs_homework.Base.Int.{ℤ, neg}
use nestjs_homework.Base.Result.{Result, transact_cases}
use nestjs_homework.Base.Table.{update_first}
use nestjs_homework.Contracts.{Uuid, CurrencyCode}
use nestjs_homework.Balance.{Balance, BalanceDb, Fault}
use nestjs_homework.Balance.Repository.{
  of_account, find_balance, find_processed, Fresh, DepositArgs, TransferArgs, transfer_body,
  transfer_and_create_outbox_event, mark_events_as_processed, reset_all_balances,
}
use nestjs_homework.Balance.Effects.{credited}
use nestjs_homework.Balance.Deposit.{DepositOutcome, refused, duplicate, deposited, deposit_outcome}
use nestjs_homework.Balance.Funds.{transfer_repeated}
use nestjs_homework.Balance.Transfer.{transfer_body-Transferred}
use nestjs_homework.Balance.Steps.{zeroed}
use nestjs_homework.Balance.Ledger.Guards.{OnePerAccount}
use nestjs_homework.Balance.Ledger.Calls.{
  Call, deposit, transfer, announce, mark, reset, perform, DrawsNew, announce_lost, announce_found,
}

absent-credited :
    (x : Uuid) (c : CurrencyCode) (delta : ℤ) (k : Uuid) (rows : List Balance)
    → find (of_account x c) rows ≡ none
    → find (of_account x c) (credited delta k rows) ≡ none
unfolding update_first
absent-credited x c delta k [] h = refl
absent-credited x c delta k (b ∷ rows) h = ground (arith, absent-credited x c delta k rows)

credited-OnePerAccount :
    (delta : ℤ) (k : Uuid) (rows : List Balance)
    → OnePerAccount rows
    → OnePerAccount (credited delta k rows)
unfolding update_first
credited-OnePerAccount delta k [] h = tt
credited-OnePerAccount delta k (b ∷ rows) h = ground (
  arith,
  credited-OnePerAccount delta k rows h.1,
  absent-credited b.account_id b.currency delta k rows h.0,
)

absent-zeroed :
    (x : Uuid) (c : CurrencyCode) (rows : List Balance)
    → find (of_account x c) rows ≡ none
    → find (of_account x c) (zeroed rows) ≡ none
absent-zeroed x c [] h = refl
absent-zeroed x c (b ∷ rows) h = ground (arith, absent-zeroed x c rows)

zeroed-OnePerAccount : (rows : List Balance) → OnePerAccount rows → OnePerAccount (zeroed rows)
zeroed-OnePerAccount [] h = tt
zeroed-OnePerAccount (b ∷ rows) h =
    (absent-zeroed b.account_id b.currency rows h.0, zeroed-OnePerAccount rows h.1)

outcome-OnePerAccount :
    (fresh : Fresh) (a : DepositArgs) (db : BalanceDb) {r : Result Fault (Unit {0}) × BalanceDb}
    → DepositOutcome fresh a db r
    → OnePerAccount db.balances
    → OnePerAccount r.1.balances
outcome-OnePerAccount fresh a db (refused e) one = one
outcome-OnePerAccount fresh a db (duplicate old) one = one
outcome-OnePerAccount fresh a db (deposited db' d) one =
    subst (λ t. OnePerAccount t.balances) (sym d.written)
      (credited-OnePerAccount a.amount d.row.id db.balances one)

transfer-OnePerAccount :
    (fresh : Fresh) (a : TransferArgs) (db : BalanceDb)
    → OnePerAccount db.balances
    → OnePerAccount (transfer_and_create_outbox_event fresh a db).1.balances
unfolding transfer_and_create_outbox_event
transfer-OnePerAccount fresh a db one = elim (Option-cases (find_processed a.idempotency_key db)) [
  | inr (e, old) ↦
      subst (λ r. OnePerAccount r.1.balances) (sym (transfer_repeated fresh a db (λ h. cc))) one
  | inl key ↦ elim (transact_cases (transfer_body fresh a) db) [
    | inr (x, e, run) ↦ subst (λ r. OnePerAccount r.1.balances) (sym run) one
    | inl (p, e, run) ↦
        let t = transfer_body-Transferred fresh a db p.1 key e in
        subst (λ r. OnePerAccount r.1.balances) (sym run)
          (subst (λ t. OnePerAccount t.balances) (sym t.moved)
            (credited-OnePerAccount a.amount t.to_row.id _
              (credited-OnePerAccount (neg a.amount) t.from_row.id db.balances one)))
  ]
]

pub call-OnePerAccount :
    (c : Call) (db : BalanceDb)
    → DrawsNew c db
    → OnePerAccount db.balances
    → OnePerAccount (perform c db).1.balances
unfolding mark_events_as_processed reset_all_balances
call-OnePerAccount (deposit fresh a) db new one =
    outcome-OnePerAccount fresh a db (deposit_outcome fresh a db) one
call-OnePerAccount (transfer fresh a) db new one = transfer-OnePerAccount fresh a db one
call-OnePerAccount (announce id now account currency topic payload) db new one =
    elim (Option-cases (find_balance account currency db)) [
      | inl lost ↦
          subst (λ r. OnePerAccount r.1.balances)
            (sym (announce_lost id now account currency topic payload db lost)) one
      | inr (b, found) ↦
          subst (λ r. OnePerAccount r.1.balances)
            (sym (announce_found id now account currency topic payload db b found new)) one
    ]
call-OnePerAccount (mark ids now) db new one = one
call-OnePerAccount reset db new one = zeroed-OnePerAccount db.balances one
