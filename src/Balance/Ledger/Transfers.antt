-- ===== src/Balance/Ledger/Transfers.antt =====
-- `transferAndCreateOutboxEvent` against the ledger's transfer.
use nestjs_homework.Base.{
  true, false, none, some, ◌&&◌, ◌≡◌, ◌≢◌, ◌⊎◌, refl, sym, ap, arith, inl, inr, find, is_some,
  Option-cases, Bool-cases, if◌then◌else◌, ◌∙◌,
}
use mathlib.Core.Option
use nestjs_homework.Base.Int.{neg}
use nestjs_homework.Base.Result.{Result, ok, err, transact, Result-cases}
use nestjs_homework.Contracts.{tranfer_inited}
use nestjs_homework.Balance.{Balance, BalanceDb, Fault, check_violation}
use nestjs_homework.Balance.Repository.{
  of_account, find_balance, find_processed, Fresh, TransferArgs, transfer_body,
  transfer_and_create_outbox_event,
}
use nestjs_homework.Balance.Rows.{DistinctIds, find-has_id, find-add_amount}
use nestjs_homework.Balance.Effects.{credited, processed, Cleared}
use nestjs_homework.Balance.Funds.{ids_differ, credited-DistinctIds, transfer_repeated}
use nestjs_homework.Balance.Transfer.{transfer_body_new}
use nestjs_homework.Balance.Ready.{checked_pair_of_Cleared}
use nestjs_homework.Balance.Ledger.{
  Ledger, Entry, entry_of, ledger_of, add_to, transfer_in, moved_in, may_pay, stays_ok,
}
use nestjs_homework.Balance.Ledger.Views.{entries-credited, seen-append}
use nestjs_homework.Balance.Ledger.Guards.{
  is_ok, guards, guards_refuse, guards_missing, IsFreshIds, OnePerAccount, after_move,
  move_funds_lem,
}
use nestjs_homework.Balance.Ledger.Deposits.{outcome, ledger_eq}

transfer_in-seen :
    (a : TransferArgs) (l : Ledger) → l.seen a.idempotency_key ≡ true → transfer_in a l ≡ (true, l)
transfer_in-seen a l h = ground arith

transfer_in-lost :
    (a : TransferArgs) (l : Ledger)
    → l.seen a.idempotency_key ≡ false
    → (l.entry a.from_account_id a.currency ≡ none) ⊎ (l.entry a.to_account_id a.currency ≡ none)
    → transfer_in a l ≡ (false, l)
transfer_in-lost a l h k = ground arith

transfer_in-known :
    (a : TransferArgs) (l : Ledger) (s r : Entry)
    → l.seen a.idempotency_key ≡ false
    → l.entry a.from_account_id a.currency ≡ some s
    → l.entry a.to_account_id a.currency ≡ some r
    → transfer_in a l
      ≡ (if may_pay a s r && stays_ok a s r then (true, moved_in a l) else (false, l))
transfer_in-known a l s r h fs fr = ground arith

module _ (fresh : Fresh) (a : TransferArgs) (db : BalanceDb) where
  ledger_of-after_move :
      (s r : Balance)
      → DistinctIds db.balances
      → r.id ≢ s.id
      → a.from_account_id ≢ a.to_account_id
      → find_balance a.from_account_id a.currency db ≡ some s
      → find_balance a.to_account_id a.currency db ≡ some r
      → ledger_of (after_move fresh a s r db) ≡ moved_in a (ledger_of db)
  unfolding find_balance find_processed
  ledger_of-after_move s r d apart ne fs fr =
      let rows = credited (neg a.amount) s.id db.balances in
      let debited =
        entries-credited a.from_account_id a.currency (neg a.amount) db.balances s d fs in
      let found : find (of_account a.to_account_id a.currency) rows ≡ some r =
        ground
          (arith, find-add_amount a.to_account_id a.currency s.id (neg a.amount) db.balances d) in
      let paid =
        entries-credited a.to_account_id a.currency a.amount rows r
          (credited-DistinctIds (neg a.amount) s.id db.balances d) found in
      ledger_eq (paid ∙ ap (add_to a.to_account_id a.currency a.amount) debited)
        (seen-append (processed fresh a.idempotency_key tranfer_inited) db.processed_events)

  abbrev result : Result Fault (Unit {0}) × BalanceDb
  result = transfer_and_create_outbox_event fresh a db

  transfer_refused :
      find_processed a.idempotency_key db ≡ none
      → is_ok (guards a db) ≡ false
      → outcome result ≡ (false, ledger_of db)
  unfolding transfer_and_create_outbox_event transact
  transfer_refused key refused = elim (Result-cases (guards a db)) [
    | inl (p, e) ↦ absurd (ground arith)
    | inr (x, e) ↦
        let run = transfer_body_new fresh a db key in
        let fails : transfer_body fresh a db ≡ err x = ground arith in rw (transact, fails) refl
  ]

  pays_apart :
      (s r : Balance)
      → may_pay a (entry_of s) (entry_of r) ≡ true
      → a.from_account_id ≢ a.to_account_id
  pays_apart s r pays = λ h. ground arith

  pays-Cleared :
      (s r : Balance)
      → find_balance a.from_account_id a.currency db ≡ some s
      → find_balance a.to_account_id a.currency db ≡ some r
      → may_pay a (entry_of s) (entry_of r) ≡ true
      → Cleared a db s r
  pays-Cleared s r fs fr pays = ground arith

  body_paid :
      (s r : Balance)
      → IsFreshIds fresh db
      → DistinctIds db.balances
      → find_processed a.idempotency_key db ≡ none
      → Cleared a db s r
      → a.from_account_id ≢ a.to_account_id
      → r.id ≢ s.id
      → transfer_body fresh a db ≡ (
          if stays_ok a (entry_of s) (entry_of r)
          then ok (tt, after_move fresh a s r db)
          else err check_violation)
  unfolding find_balance
  body_paid s r new d key cleared ne apart = ground (
    arith,
    transfer_body_new fresh a db key,
    checked_pair_of_Cleared a db s r ne cleared,
    move_funds_lem fresh a s r db new key
        (find-has_id a.from_account_id a.currency db.balances s d cleared.sender)
        (find-has_id a.to_account_id a.currency db.balances r d cleared.receiver) apart,
  )

  transfer_paid :
      (s r : Balance)
      → IsFreshIds fresh db
      → DistinctIds db.balances
      → find_processed a.idempotency_key db ≡ none
      → find_balance a.from_account_id a.currency db ≡ some s
      → find_balance a.to_account_id a.currency db ≡ some r
      → may_pay a (entry_of s) (entry_of r) ≡ true
      → outcome result ≡ (
          if stays_ok a (entry_of s) (entry_of r)
          then (true, moved_in a (ledger_of db))
          else (false, ledger_of db))
  unfolding transfer_and_create_outbox_event transact find_balance
  transfer_paid s r new d key fs fr pays =
      let ne = pays_apart s r pays in
      let differ =
        ids_differ a.from_account_id a.to_account_id a.currency a.currency db.balances s r d
          (inl ne) fs fr in
      let apart : r.id ≢ s.id = λ h. differ (sym h) in
      let run = body_paid s r new d key (pays-Cleared s r fs fr pays) ne apart in
      elim (Bool-cases (stays_ok a (entry_of s) (entry_of r))) [
        | inl fits ↦
            rw (transact, run, fits)
              (ap (λ l. (true, l)) (ledger_of-after_move s r d apart ne fs fr))
        | inr leaves ↦ rw (transact, run, leaves) refl
      ]

  transfer_known :
      (s r : Balance)
      → IsFreshIds fresh db
      → DistinctIds db.balances
      → OnePerAccount db.balances
      → find_processed a.idempotency_key db ≡ none
      → find_balance a.from_account_id a.currency db ≡ some s
      → find_balance a.to_account_id a.currency db ≡ some r
      → outcome result ≡ transfer_in a (ledger_of db)
  transfer_known s r new d one key fs fr =
      let known =
        transfer_in-known a (ledger_of db) (entry_of s) (entry_of r) (ap is_some key)
          (ap (Option.map entry_of) fs) (ap (Option.map entry_of) fr) in
      elim (Bool-cases (may_pay a (entry_of s) (entry_of r))) [
        | inl pays ↦ transfer_paid s r new d key fs fr pays ∙ sym (known ∙ rw pays refl)
        | inr stops ↦
            transfer_refused key (guards_refuse a db s r one fs fr stops)
            ∙ sym (known ∙ rw stops refl)
      ]

  -- A transfer succeeds exactly where the ledger's does, and leaves the ledger that it leaves.
  pub transfer_refines :
      IsFreshIds fresh db
      → DistinctIds db.balances
      → OnePerAccount db.balances
      → outcome result ≡ transfer_in a (ledger_of db)
  transfer_refines new d one = elim (Option-cases (find_processed a.idempotency_key db)) [
    | inr (e, old) ↦
        ap outcome (transfer_repeated fresh a db (λ h. cc))
        ∙ sym (transfer_in-seen a (ledger_of db) (ap is_some old))
    | inl key ↦
        let unseen = ap is_some key in
        elim (Option-cases (find_balance a.from_account_id a.currency db)) [
          | inl lost ↦
              transfer_refused key (guards_missing a db (inl lost))
              ∙ sym (transfer_in-lost a (ledger_of db) unseen (inl (ap (Option.map entry_of) lost)))
          | inr (s, fs) ↦ elim (Option-cases (find_balance a.to_account_id a.currency db)) [
            | inl lost ↦
                transfer_refused key (guards_missing a db (inr lost))
                ∙ sym
                    (transfer_in-lost a (ledger_of db) unseen (inr (ap (Option.map entry_of) lost)))
            | inr (r, fr) ↦ transfer_known s r new d one key fs fr
          ]
        ]
  ]
