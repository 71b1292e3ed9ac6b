-- ===== src/Balance/Ledger/Deposits.antt =====
-- `depositAndCreateOutboxEvent` against the ledger's deposit.
use nestjs_homework.Base.{
  Bool, true, false, none, some, ◌≡◌, refl, sym, ap, arith, inl, inr, is_some, Option-cases,
  Bool-cases, if◌then◌else◌, ◌∙◌,
}
use mathlib.Core.Option
use nestjs_homework.Base.Int.{◌+ℤ◌}
use nestjs_homework.Base.Result.{Result, transact}
use nestjs_homework.Contracts.{Uuid, deposit_paid_success}
use nestjs_homework.Balance.{Balance, BalanceDb, Fault}
use nestjs_homework.Balance.Repository.{
  amount_ok, find_balance, find_processed, Fresh, DepositArgs, deposit_and_create_outbox_event,
}
use nestjs_homework.Balance.Rows.{DistinctIds, find-has_id}
use nestjs_homework.Balance.Effects.{processed}
use nestjs_homework.Balance.Deposit.{deposit_body_new, deposit_no_row, deposit_repeated}
use nestjs_homework.Balance.Ledger.{
  Ledger, Entry, Entries, entry_of, ledger_of, add_to, with_key, deposit_in, deposited_in,
}
use nestjs_homework.Balance.Ledger.Views.{entries-credited, seen-append}
use nestjs_homework.Balance.Ledger.Guards.{is_ok, IsFreshIds, after_credit, credit_lem}

-- What a client sees of a call: whether it succeeds, and the ledger after it.
abbrev pub outcome : Result Fault (Unit {0}) × BalanceDb → Bool × Ledger
outcome r = (is_ok r.0, ledger_of r.1)

pub ledger_eq :
    {e f : Entries} {s t : Uuid → Bool}
    → e ≡ f
    → s ≡ t
    → Path Ledger (record { entry = e; seen = s }) (record { entry = f; seen = t })
ledger_eq p q = cc

deposit_in-none :
    (a : DepositArgs) (l : Ledger)
    → l.entry a.account_id a.currency ≡ none
    → deposit_in a l ≡ (false, l)
deposit_in-none a l h = ground arith

deposit_in-seen :
    (a : DepositArgs) (l : Ledger) (e : Entry)
    → l.entry a.account_id a.currency ≡ some e
    → l.seen a.idempotency_key ≡ true
    → deposit_in a l ≡ (true, l)
deposit_in-seen a l e h k = ground arith

deposit_in-new :
    (a : DepositArgs) (l : Ledger) (e : Entry)
    → l.entry a.account_id a.currency ≡ some e
    → l.seen a.idempotency_key ≡ false
    → deposit_in a l
      ≡ (if amount_ok (e.amount +ℤ a.amount) then (true, deposited_in a l) else (false, l))
deposit_in-new a l e h k = ground arith

module _ (fresh : Fresh) (a : DepositArgs) (db : BalanceDb) where
  ledger_of-after_credit :
      (b : Balance)
      → DistinctIds db.balances
      → find_balance a.account_id a.currency db ≡ some b
      → ledger_of (after_credit fresh a b db) ≡ record {
        entry = add_to a.account_id a.currency a.amount (ledger_of db).entry;
        seen = with_key a.idempotency_key (ledger_of db).seen;
      }
  unfolding find_balance find_processed
  ledger_of-after_credit b d found =
      ledger_eq (entries-credited a.account_id a.currency a.amount db.balances b d found)
        (seen-append (processed fresh a.idempotency_key deposit_paid_success) db.processed_events)

  deposit_new :
      (b : Balance)
      → IsFreshIds fresh db
      → DistinctIds db.balances
      → find_balance a.account_id a.currency db ≡ some b
      → find_processed a.idempotency_key db ≡ none
      → outcome (deposit_and_create_outbox_event fresh a db) ≡ deposit_in a (ledger_of db)
  unfolding deposit_and_create_outbox_event transact find_balance
  deposit_new b new d found key =
      let run =
        deposit_body_new fresh a db b found key
        ∙ credit_lem fresh a b db new key
            (find-has_id a.account_id a.currency db.balances b d found) in
      elim (Bool-cases (amount_ok (b.amount +ℤ a.amount))) [
        | inl fits ↦
            rw (transact, run, fits)
              (ap (λ l. (true, l)) (ledger_of-after_credit b d found)
                ∙ sym (
                    deposit_in-new a (ledger_of db) (entry_of b) (ap (Option.map entry_of) found)
                      (ap is_some key)
                    ∙ rw fits refl))
        | inr leaves ↦
            rw (transact, run, leaves)
              (sym (
                deposit_in-new a (ledger_of db) (entry_of b) (ap (Option.map entry_of) found)
                  (ap is_some key)
                ∙ rw leaves refl))
      ]

  -- A deposit succeeds exactly where the ledger's does, and leaves the ledger that it leaves.
  pub deposit_refines :
      IsFreshIds fresh db
      → DistinctIds db.balances
      → outcome (deposit_and_create_outbox_event fresh a db) ≡ deposit_in a (ledger_of db)
  deposit_refines new d = elim (Option-cases (find_balance a.account_id a.currency db)) [
    | inl lost ↦
        ap outcome (deposit_no_row fresh a db lost)
        ∙ sym (deposit_in-none a (ledger_of db) (ap (Option.map entry_of) lost))
    | inr (b, found) ↦ elim (Option-cases (find_processed a.idempotency_key db)) [
      | inl key ↦ deposit_new b new d found key
      | inr (e, old) ↦
          ap outcome (deposit_repeated fresh a db (λ h. cc) (λ h. cc))
          ∙ sym (
              deposit_in-seen a (ledger_of db) (entry_of b) (ap (Option.map entry_of) found)
                (ap is_some old))
    ]
  ]
