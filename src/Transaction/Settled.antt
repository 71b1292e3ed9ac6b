-- ===== src/Transaction/Settled.antt =====
-- The answer of user-service that a deposit was credited: what `setStatusUpdatedAndCreateProcessedEvent` writes.
pub mod Pair
use nestjs_homework.Base.{
  any, ◌||◌, List, true, false, none, some, [], ◌∷◌, ◌++◌, ◌==◌, ◌≡◌, ◌≢◌, find, filter, length,
  arith, Option-cases, Bool-cases, inl, inr,
}
use nestjs_homework.Base.Result.{Result, ok, err, transact, transact_cases}
use nestjs_homework.Base.Table.{create, update_first}
use nestjs_homework.Contracts.{
  Uuid, completed, balance_updated, deposit_crediting_success, tranfer_success, TransactionStatus,
  is_completed,
}
use nestjs_homework.Transaction.{
  Transaction, TransactionDb, TransactionFault, unique_violation, transaction_not_found,
  status_mismatch,
}
use nestjs_homework.Transaction.Queries.{
  Body, has_id, with_status, find_processed, find_transaction, update_transaction, create_processed,
  in_pair,
}
use nestjs_homework.Transaction.Repository.{
  set_status_updated_and_create_processed_event,
  set_status_updated_by_ids_and_create_processed_event,
}

-- Some row of the handled events has the drawn id or the key already.
abbrev pub IsTaken : Uuid → Uuid → TransactionDb → Type 0
IsTaken id key db = any (λ e. e.id == id || e.idempotency_key == key) db.processed_events ≡ true

-- Why the answer to a deposit is refused.
pub data CreditRefusal (processed_id key id : Uuid) (db : TransactionDb)
    : TransactionFault → Type 0 where
  not_found :
      find_transaction id db ≡ none → CreditRefusal processed_id key id db transaction_not_found
  not_yet :
      (t : Transaction)
      → find_transaction id db ≡ some t
      → t.status ≢ completed
      → CreditRefusal processed_id key id db (status_mismatch t.status)
  clash : IsTaken processed_id key db → CreditRefusal processed_id key id db unique_violation

-- What may come of the answer to a deposit.
pub data Credited (processed_id key id : Uuid) (db : TransactionDb)
    : Result TransactionFault (Unit {0}) × TransactionDb → Type 0 where
  duplicate : find_processed key db ≢ none → Credited processed_id key id db (ok tt, db)
  refused :
      (e : TransactionFault)
      → find_processed key db ≡ none
      → CreditRefusal processed_id key id db e
      → Credited processed_id key id db (err e, db)
  updated :
      (t : Transaction)
      → find_transaction id db ≡ some t
      → t.status ≡ completed
      → find_processed key db ≡ none
      → Credited processed_id key id db (
        ok tt,
        record db {
          transactions = update_first (has_id t.id) (with_status balance_updated) db.transactions;
          processed_events =
              db.processed_events
              ++ record {
                id = processed_id;
                idempotency_key = key;
                topic = deposit_crediting_success;
              }
                ∷ [];
        },
      )

is_completed_eq : (s : TransactionStatus) → is_completed s ≡ true → s ≡ completed
is_completed_eq s h = ground arith

not_completed : (s : TransactionStatus) → is_completed s ≡ false → s ≢ completed
not_completed s h = λ e. ground arith

module _ (processed_id key id : Uuid) (db : TransactionDb) where
  abbrev credited : Result TransactionFault (Unit {0}) × TransactionDb
  credited = set_status_updated_and_create_processed_event processed_id key id db

  -- The two writes.
  abbrev marks : Transaction → Body (Unit {0})
  marks t s = elim (update_transaction t.id (with_status balance_updated) s) [
    | ok p ↦ create_processed processed_id key deposit_crediting_success p.1
    | err e ↦ err e
  ]

  credited_again : find_processed key db ≢ none → credited ≡ (ok tt, db)
  unfolding set_status_updated_and_create_processed_event transact
  credited_again h = ground arith

  credited_lost :
      find_processed key db ≡ none
      → find_transaction id db ≡ none
      → credited ≡ (err transaction_not_found, db)
  unfolding set_status_updated_and_create_processed_event transact
  credited_lost new lost = ground arith

  credited_early :
      (t : Transaction)
      → find_processed key db ≡ none
      → find_transaction id db ≡ some t
      → is_completed t.status ≡ false
      → credited ≡ (err (status_mismatch t.status), db)
  unfolding set_status_updated_and_create_processed_event transact
  credited_early t new found early = ground arith

  credited_runs :
      (t : Transaction)
      → find_processed key db ≡ none
      → find_transaction id db ≡ some t
      → is_completed t.status ≡ true
      → credited ≡ transact (marks t) db
  unfolding set_status_updated_and_create_processed_event transact
  credited_runs t new found ready = ground arith

  credited_writes :
      (t : Transaction) (p : Unit {0} × TransactionDb)
      → marks t db ≡ ok p
      → p.1 ≡ record db {
        transactions = update_first (has_id t.id) (with_status balance_updated) db.transactions;
        processed_events =
            db.processed_events
            ++ record {
              id = processed_id;
              idempotency_key = key;
              topic = deposit_crediting_success;
            }
              ∷ [];
      }
  unfolding update_transaction create_processed create
  credited_writes t p h = ground arith

  found_own :
      (rows : List Transaction) (t : Transaction)
      → find (has_id id) rows ≡ some t
      → find (has_id t.id) rows ≢ none
  found_own [] t h = cc
  found_own (x ∷ rows) t h = ground (arith, found_own rows t)

  credited_clash :
      (t : Transaction) (e : TransactionFault)
      → find_transaction id db ≡ some t
      → marks t db ≡ err e
      → (e ≡ unique_violation) × IsTaken processed_id key db
  unfolding update_transaction create_processed create find_transaction
  credited_clash t e found h = ground (arith, found_own db.transactions t found)

  -- The answer that a deposit was credited does nothing when its key is recorded. Otherwise, where the transaction is
  -- completed, its balance is marked as updated and the key is recorded, both at once. It is refused and
  -- changes nothing only where there is no such transaction, or it is not completed, or the id that is drawn
  -- for the record is taken.
  pub crediting_success_outcome : Credited processed_id key id db credited
  crediting_success_outcome = elim (Option-cases (find_processed key db)) [
    | inr (v, old) ↦ rw (credited_again (λ h. cc)) (duplicate (λ h. cc))
    | inl new ↦ elim (Option-cases (find_transaction id db)) [
      | inl e ↦ rw (credited_lost new e) (refused transaction_not_found new (not_found e))
      | inr (t, found) ↦ elim (Bool-cases (is_completed t.status)) [
        | inr e ↦
            rw (credited_early t new found e)
              (refused (status_mismatch t.status) new (not_yet t found (not_completed t.status e)))
        | inl ready ↦ rw (credited_runs t new found ready) (elim (transact_cases (marks t) db) [
          | inl (p, e, run) ↦
              rw (run, credited_writes t p e) (updated t found (is_completed_eq t.status ready) new)
          | inr (x, e, run) ↦
              let (same, taken) = credited_clash t x found e in
              rw (run, same) (refused unique_violation new (clash taken))
        ])
      ]
    ]
  ]
