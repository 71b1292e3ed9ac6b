-- ===== src/Transaction/Settled/Pair.antt =====
-- The answer of user-service that a transfer succeeded: what `setStatusUpdatedByIdsAndCreateProcessedEvent` writes.
use nestjs_homework.Base.{
  List, true, false, none, some, [], ◌∷◌, ◌++◌, ◌==◌, ◌≡◌, ◌≢◌, find, filter, length, refl, ◌⊎◌,
  arith, Option-cases, Bool-cases, inl, inr,
}
use nestjs_homework.Base.Result.{Result, ok, err, transact, transact_cases}
use nestjs_homework.Base.Table.{create, update_first}
use nestjs_homework.Contracts.{Uuid, balance_updated, tranfer_success}
use nestjs_homework.Transaction.{
  Transaction, TransactionDb, TransactionFault, unique_violation, record_not_found,
  transaction_not_found,
}
use nestjs_homework.Transaction.Queries.{
  Body, has_id, with_status, find_processed, find_transaction, update_transaction, create_processed,
  in_pair,
}
use nestjs_homework.Transaction.Repository.{set_status_updated_by_ids_and_create_processed_event}
use nestjs_homework.Transaction.Settled.{IsTaken}

-- Why the answer to a transfer is refused; no reason is a status.
pub data PairRefusal (processed_id key out_id in_id : Uuid) (db : TransactionDb)
    : TransactionFault → Type 0 where
  no_leg :
      find_transaction out_id db ≡ none
      → find_transaction in_id db ≡ none
      → PairRefusal processed_id key out_id in_id db transaction_not_found
  one_leg :
      (find_transaction out_id db ≡ none) ⊎ (find_transaction in_id db ≡ none)
      → PairRefusal processed_id key out_id in_id db record_not_found
  clash :
      IsTaken processed_id key db → PairRefusal processed_id key out_id in_id db unique_violation

-- What may come of the answer to a transfer.
pub data Settled (processed_id key out_id in_id : Uuid) (db : TransactionDb)
    : Result TransactionFault (Unit {0}) × TransactionDb → Type 0 where
  seen : find_processed key db ≢ none → Settled processed_id key out_id in_id db (ok tt, db)
  rejected :
      (e : TransactionFault)
      → find_processed key db ≡ none
      → PairRefusal processed_id key out_id in_id db e
      → Settled processed_id key out_id in_id db (err e, db)
  settled :
      (t : Transaction)
      → find_transaction out_id db ≡ some t
      → find_processed key db ≡ none
      → Settled processed_id key out_id in_id db (
        ok tt,
        record db {
          transactions =
              update_first
                (has_id in_id)
                (with_status balance_updated)
                (update_first (has_id out_id) (with_status balance_updated) db.transactions);
          processed_events =
              db.processed_events
              ++ record { id = processed_id; idempotency_key = key; topic = tranfer_success } ∷ [];
        },
      )

module _ (processed_id key out_id in_id : Uuid) (db : TransactionDb) where
  abbrev both : Result TransactionFault (Unit {0}) × TransactionDb
  both = set_status_updated_by_ids_and_create_processed_event processed_id key out_id in_id db

  -- The three writes.
  abbrev marks_both : Body (Unit {0})
  marks_both s = elim (update_transaction out_id (with_status balance_updated) s) [
    | ok p ↦ elim (update_transaction in_id (with_status balance_updated) p.1) [
      | ok q ↦ create_processed processed_id key tranfer_success q.1
      | err e ↦ err e
    ]
    | err e ↦ err e
  ]

  both_again : find_processed key db ≢ none → both ≡ (ok tt, db)
  unfolding set_status_updated_by_ids_and_create_processed_event transact
  both_again h = ground arith

  both_lost :
      find_processed key db ≡ none
      → (length (filter (in_pair out_id in_id) db.transactions) == 0) ≡ true
      → both ≡ (err transaction_not_found, db)
  unfolding set_status_updated_by_ids_and_create_processed_event transact
  both_lost new lost = ground arith

  both_runs :
      find_processed key db ≡ none
      → (length (filter (in_pair out_id in_id) db.transactions) == 0) ≡ false
      → both ≡ transact marks_both db
  unfolding set_status_updated_by_ids_and_create_processed_event transact
  both_runs new some_found = ground arith

  both_writes :
      (p : Unit {0} × TransactionDb)
      → marks_both db ≡ ok p
      → (t : Transaction) × (find_transaction out_id db ≡ some t)
        × (p.1 ≡ record db {
          transactions =
              update_first
                (has_id in_id)
                (with_status balance_updated)
                (update_first (has_id out_id) (with_status balance_updated) db.transactions);
          processed_events =
              db.processed_events
              ++ record { id = processed_id; idempotency_key = key; topic = tranfer_success } ∷ [];
        })
  unfolding update_transaction create_processed create find_transaction
  both_writes p h = elim (Option-cases (find (has_id out_id) db.transactions)) [
    | inl lost ↦ absurd (ground arith)
    | inr (t, found) ↦ (t, found, ground arith)
  ]

  no_legs :
      (rows : List Transaction)
      → (length (filter (in_pair out_id in_id) rows) == 0) ≡ true
      → (find (has_id out_id) rows ≡ none) × (find (has_id in_id) rows ≡ none)
  no_legs [] h = (refl, refl)
  no_legs (x ∷ rows) h = ground (arith, no_legs rows)

  find_marked :
      (rows : List Transaction)
      → find (has_id in_id) (update_first (has_id out_id) (with_status balance_updated) rows) ≡ none
      → find (has_id in_id) rows ≡ none
  unfolding update_first
  find_marked [] h = refl
  find_marked (x ∷ rows) h = ground (arith, find_marked rows)

  absent :
      (length (filter (in_pair out_id in_id) db.transactions) == 0) ≡ true
      → PairRefusal processed_id key out_id in_id db transaction_not_found
  unfolding find_transaction
  absent h = let (o, i) = no_legs db.transactions h in no_leg o i

  both_refused :
      (e : TransactionFault)
      → marks_both db ≡ err e
      → PairRefusal processed_id key out_id in_id db e
  unfolding update_transaction create_processed create find_transaction
  both_refused e h = elim (Option-cases (find (has_id out_id) db.transactions)) [
    | inl gone ↦ let same : e ≡ record_not_found = ground arith in rw same (one_leg (inl gone))
    | inr (t, found) ↦
        elim (Option-cases (
          find (has_id in_id)
            (update_first (has_id out_id) (with_status balance_updated) db.transactions))) [
              | inl gone ↦
                  let same : e ≡ record_not_found = ground arith in
                  rw same (one_leg (inr (find_marked db.transactions gone)))
              | inr (u, there) ↦
                  let (same, taken) : (e ≡ unique_violation) × IsTaken processed_id key db =
                    ground arith in
                  rw same (clash taken)
            ]
  ]

  -- The answer that a transfer succeeded does nothing when its key is recorded. Otherwise it marks the balances
  -- of both legs as updated and records the key, all at once, whatever the statuses of the legs are: it is refused
  -- and changes nothing only where a leg is missing, or the id that is drawn for the record is taken.
  pub transfer_success_outcome : Settled processed_id key out_id in_id db both
  transfer_success_outcome = elim (Option-cases (find_processed key db)) [
    | inr (v, old) ↦ rw (both_again (λ h. cc)) (seen (λ h. cc))
    | inl new ↦ elim (Bool-cases (length (filter (in_pair out_id in_id) db.transactions) == 0)) [
      | inl lost ↦ rw (both_lost new lost) (rejected transaction_not_found new (absent lost))
      | inr there ↦ rw (both_runs new there) (elim (transact_cases marks_both db) [
        | inl (p, e, run) ↦
            let (t, found, same) = both_writes p e in rw (run, same) (settled t found new)
        | inr (x, e, run) ↦ rw run (rejected x new (both_refused x e))
      ])
    ]
  ]
