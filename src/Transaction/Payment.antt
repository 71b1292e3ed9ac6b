-- ===== src/Transaction/Payment.antt =====
-- The payment webhook's two calls, `setStatusCompletedAndCreateOutboxEvent` and `setStatusTimeout`:
-- a payment is settled once.
use nestjs_homework.Base.{
  true, some, List, [], ◌∷◌, ◌++◌, ◌≡◌, refl, find, arith, Option-cases, inl, inr,
}
use nestjs_homework.Base.Result.{ok, err, transact, transact_rollback}
use nestjs_homework.Base.Table.{create, update_first}
use nestjs_homework.Contracts.{Uuid, Time, completed, timeout, is_pending, TransactionStatus}
use nestjs_homework.Transaction.{Transaction, TransactionDb, TransactionFault, status_mismatch}
use nestjs_homework.Transaction.Queries.{
  has_id, is_payment, with_status, find_payment, create_outbox, update_transaction,
}
use nestjs_homework.Transaction.Repository.{
  paid_event, set_status_completed_and_create_outbox_event, set_status_timeout,
}
use nestjs_homework.Transaction.Advance.{DistinctIds, is_settled}
use nestjs_homework.Transaction.Steps.{Reach, Reach-Advance}

find-has_id :
    (p : Uuid) (rows : List Transaction) (t : Transaction)
    → DistinctIds rows
    → find (is_payment p) rows ≡ some t
    → find (has_id t.id) rows ≡ some t
find-has_id p [] t d h = cc
find-has_id p (x ∷ rows) t d h = ground (arith, find-has_id p rows t d.1)

-- With distinct ids, an update by the id of the payment's row is an update of that row.
find-updated_payment :
    (p : Uuid) (s : TransactionStatus) (rows : List Transaction) (t : Transaction)
    → DistinctIds rows
    → find (is_payment p) rows ≡ some t
    → find (is_payment p) (update_first (has_id t.id) (with_status s) rows) ≡ some (with_status s t)
unfolding update_first
find-updated_payment p s [] t d h = cc
find-updated_payment p s (x ∷ rows) t d h =
    ground (arith, find-updated_payment p s rows t d.1, find-has_id p rows t d.1)

-- What `setStatusCompletedAndCreateOutboxEvent` writes when it succeeds.
pub record Completed (event_id : Uuid) (now : Time) (payment : Uuid) (db db' : TransactionDb)
    : Type 0 where
  pub row : Transaction
  pub found : find_payment payment db ≡ some row
  pub was_pending : is_pending row.status ≡ true
  pub written : db' ≡ record db {
    transactions = update_first (has_id row.id) (with_status completed) db.transactions;
    outbox_events = db.outbox_events ++ paid_event event_id now row ∷ [];
  }

-- The call succeeds only on the pending transaction of the payment; then the one row is completed
-- and one event, which carries its id, account, currency and amount, is in the outbox.
pub webhook_completes :
    (event_id : Uuid) (now : Time) (payment : Uuid) (db : TransactionDb) {id : Uuid}
    → (set_status_completed_and_create_outbox_event event_id now payment db).0 ≡ ok id
    → Completed event_id now payment db
        (set_status_completed_and_create_outbox_event event_id now payment db).1
unfolding set_status_completed_and_create_outbox_event transact update_transaction create_outbox
    create
webhook_completes event_id now payment db h = elim (Option-cases (find_payment payment db)) [
  | inl e ↦ absurd (ground arith)
  | inr (t, e) ↦ record { row = t; found = e; was_pending = ground arith; written = ground arith }
]

pub completed_rollback :
    (event_id : Uuid) (now : Time) (payment : Uuid) (db : TransactionDb) {e : TransactionFault}
    → (set_status_completed_and_create_outbox_event event_id now payment db).0 ≡ err e
    → (set_status_completed_and_create_outbox_event event_id now payment db).1 ≡ db
unfolding set_status_completed_and_create_outbox_event
completed_rollback event_id now payment db {e} h = transact_rollback _ db e h

-- What `setStatusTimeout` writes when it succeeds.
pub record TimedOut (payment : Uuid) (db db' : TransactionDb) : Type 0 where
  pub row : Transaction
  pub found : find_payment payment db ≡ some row
  pub was_pending : is_pending row.status ≡ true
  pub written : db' ≡ record db {
    transactions = update_first (has_id row.id) (with_status timeout) db.transactions;
  }

pub timeout_effect :
    (payment : Uuid) (db : TransactionDb) {id : Uuid}
    → (set_status_timeout payment db).0 ≡ ok id
    → TimedOut payment db (set_status_timeout payment db).1
unfolding set_status_timeout transact update_transaction
timeout_effect payment db h = elim (Option-cases (find_payment payment db)) [
  | inl e ↦ absurd (ground arith)
  | inr (t, e) ↦ record { row = t; found = e; was_pending = ground arith; written = ground arith }
]

pub timeout_rollback :
    (payment : Uuid) (db : TransactionDb) {e : TransactionFault}
    → (set_status_timeout payment db).0 ≡ err e
    → (set_status_timeout payment db).1 ≡ db
unfolding set_status_timeout
timeout_rollback payment db {e} h = transact_rollback _ db e h

settled_of_Completed :
    (event_id : Uuid) (now : Time) (payment : Uuid) (db db' : TransactionDb)
    → DistinctIds db.transactions
    → Completed event_id now payment db db'
    → is_settled (find_payment payment db') ≡ true
unfolding find_payment
settled_of_Completed event_id now payment db db' d c =
    rw c.written (rw (find-updated_payment payment completed db.transactions c.row d c.found) refl)

refused_of_settled :
    (event_id : Uuid) (now : Time) (payment : Uuid) (db : TransactionDb)
    → is_settled (find_payment payment db) ≡ true
    → (s : TransactionStatus) × (set_status_completed_and_create_outbox_event event_id now payment
          db
        ≡ (err (status_mismatch s), db))
      × (set_status_timeout payment db ≡ (err (status_mismatch s), db))
unfolding set_status_completed_and_create_outbox_event set_status_timeout transact
refused_of_settled event_id now payment db h = elim (Option-cases (find_payment payment db)) [
  | inl e ↦ absurd (ground arith)
  | inr (t, e) ↦ (t.status, ground arith, ground arith)
]

-- A payment is settled once: after a webhook has completed it, and whatever calls of the repository
-- came in between, every further webhook for it, of success or of cancellation, is refused with the
-- status that it found, and changes nothing.
pub completed_once :
    (event_id event_id' : Uuid) (now now' : Time) (payment : Uuid) (db : TransactionDb) {id : Uuid}
    {db' : TransactionDb}
    → DistinctIds db.transactions
    → (set_status_completed_and_create_outbox_event event_id now payment db).0 ≡ ok id
    → Reach (set_status_completed_and_create_outbox_event event_id now payment db).1 db'
    → (s : TransactionStatus) × (set_status_completed_and_create_outbox_event event_id' now' payment
          db'
        ≡ (err (status_mismatch s), db'))
      × (set_status_timeout payment db' ≡ (err (status_mismatch s), db'))
completed_once event_id event_id' now now' payment db {db' = db'} d h r =
    refused_of_settled event_id' now' payment db' (
      (Reach-Advance r).settled payment (
        settled_of_Completed event_id now payment db _ d
          (webhook_completes event_id now payment db h)))

timeout_settles :
    (payment : Uuid) (db : TransactionDb) {id : Uuid}
    → DistinctIds db.transactions
    → (set_status_timeout payment db).0 ≡ ok id
    → is_settled (find_payment payment (set_status_timeout payment db).1) ≡ true
unfolding set_status_timeout transact update_transaction find_payment
timeout_settles payment db d h = elim (Option-cases (find_payment payment db)) [
  | inl e ↦ absurd (ground arith)
  | inr (t, e) ↦ ground (arith, find-updated_payment payment timeout db.transactions t d e)
]

-- A payment that was cancelled is never credited afterwards: every further webhook is refused.
pub timeout_once :
    (event_id : Uuid) (now : Time) (payment : Uuid) (db : TransactionDb) {id : Uuid}
    {db' : TransactionDb}
    → DistinctIds db.transactions
    → (set_status_timeout payment db).0 ≡ ok id
    → Reach (set_status_timeout payment db).1 db'
    → (s : TransactionStatus) × (set_status_completed_and_create_outbox_event event_id now payment
          db'
        ≡ (err (status_mismatch s), db'))
      × (set_status_timeout payment db' ≡ (err (status_mismatch s), db'))
timeout_once event_id now payment db {db' = db'} d h r =
    refused_of_settled event_id now payment db'
      ((Reach-Advance r).settled payment (timeout_settles payment db d h))
