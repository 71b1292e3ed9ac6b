-- ===== src/Transaction/Transfer.antt =====
-- `createTransfer`: the two legs of a transfer and its event.
use nestjs_homework.Base.{
  Option, none, some, [], ◌∷◌, ◌++◌, ◌≡◌, refl, find, arith, ◌∙◌, Option-cases, inl, inr, Text,
  same_text_refl, find-append_new, find-append_old,
}
use nestjs_homework.Base.Int.{pos, ◌+ℤ◌, int_laws}
use nestjs_homework.Base.Result.{Result, ok, err, transact, transact_cases}
use nestjs_homework.Base.Table.{create}
use nestjs_homework.Transaction.{Transaction, TransactionDb, TransactionFault}
use nestjs_homework.Transaction.Queries.{has_text, insert_transaction, create_outbox}
use nestjs_homework.Transaction.Repository.{
  TransferIds, NewTransfer, out_transaction, in_transaction, inited_event, create_transfer,
  or_insert_transfer,
}

abbrev pub find_key : Text → TransactionDb → Option Transaction
find_key key db = find (has_text key) db.transactions

-- What may come of `createTransfer`.
pub data TransferOutcome (ids : TransferIds) (a : NewTransfer) (db : TransactionDb)
    : Result TransactionFault Transaction × TransactionDb → Type 0 where
  known :
      (t : Transaction)
      → find_key a.idempotency_key db ≡ some t
      → TransferOutcome ids a db (ok t, db)
  refused : (e : TransactionFault) → TransferOutcome ids a db (err e, db)
  made :
      find_key a.idempotency_key db ≡ none
      → TransferOutcome ids a db (
        ok (out_transaction ids a),
        record db {
          transactions =
              (db.transactions ++ out_transaction ids a ∷ []) ++ in_transaction ids a ∷ [];
          outbox_events = db.outbox_events ++ inited_event ids a ∷ [];
        },
      )

module _ (ids : TransferIds) (a : NewTransfer) (db : TransactionDb) where
  returns_known :
      (t : Transaction)
      → find_key a.idempotency_key db ≡ some t
      → create_transfer ids a db ≡ (ok t, db)
  unfolding create_transfer transact
  returns_known t e = ground arith

  runs_new :
      find_key a.idempotency_key db ≡ none
      → create_transfer ids a db ≡ transact (or_insert_transfer ids a none) db
  unfolding create_transfer transact
  runs_new e = ground arith

  stores_both :
      (p : Transaction × TransactionDb)
      → or_insert_transfer ids a none db ≡ ok p
      → p ≡ (
        out_transaction ids a,
        record db {
          transactions =
              (db.transactions ++ out_transaction ids a ∷ []) ++ in_transaction ids a ∷ [];
          outbox_events = db.outbox_events ++ inited_event ids a ∷ [];
        },
      )
  unfolding insert_transaction create_outbox create
  stores_both p h = ground arith

pub create_transfer_outcome :
    (ids : TransferIds) (a : NewTransfer) (db : TransactionDb)
    → TransferOutcome ids a db (create_transfer ids a db)
create_transfer_outcome ids a db = elim (Option-cases (find_key a.idempotency_key db)) [
  | inr (t, e) ↦ rw (returns_known ids a db t e) (known t e)
  | inl new ↦ rw (runs_new ids a db new) (elim (transact_cases (or_insert_transfer ids a none) db) [
    | inl (p, e, run) ↦ rw (run, stores_both ids a db p e) (made new)
    | inr (x, e, run) ↦ rw run (refused x)
  ])
]

-- The two legs of a stored transfer cancel out, and each refers to the other.
pub legs_cancel :
    (ids : TransferIds) (a : NewTransfer)
    → ((out_transaction ids a).amount +ℤ (in_transaction ids a).amount ≡ pos 0)
      × ((out_transaction ids a).reference_id ≡ some (in_transaction ids a).id)
      × ((in_transaction ids a).reference_id ≡ some (out_transaction ids a).id)
legs_cancel ids a = (omega int_laws, refl, refl)

TransferOutcome-again :
    (ids ids' : TransferIds) (a a' : NewTransfer) (db : TransactionDb)
    (out : Result TransactionFault Transaction × TransactionDb)
    → TransferOutcome ids a db out
    → (t : Transaction) → out.0 ≡ ok t
    → a'.idempotency_key ≡ a.idempotency_key
    → create_transfer ids' a' out.1 ≡ (ok t, out.1)
TransferOutcome-again ids ids' a a' db _ (known x e) t h same =
    returns_known ids' a' db t (rw same (ground (arith, e)))
TransferOutcome-again ids ids' a a' db _ (refused e) t h same = cc
TransferOutcome-again ids ids' a a' db _ (made new) t h same =
    let k = a.idempotency_key in
    let legs = db.transactions ++ out_transaction ids a ∷ [] in
    let first : find (has_text k) legs ≡ some (out_transaction ids a) =
      find-append_new (has_text k) db.transactions (out_transaction ids a) new (same_text_refl k) in
    let both : find (has_text k) (legs ++ in_transaction ids a ∷ [])
        ≡ some (out_transaction ids a) =
      find-append_old (has_text k) legs (in_transaction ids a ∷ []) (λ gone. cc) ∙ first in
    returns_known ids' a' _ t (rw same (ground (arith, both)))

-- `createTransfer` is idempotent: called again under the same key, whatever its other arguments, it
-- returns the transaction that the first call returned and stores nothing.
pub create_transfer_idempotent :
    (ids ids' : TransferIds) (a a' : NewTransfer) (db : TransactionDb) {t : Transaction}
    → (create_transfer ids a db).0 ≡ ok t
    → a'.idempotency_key ≡ a.idempotency_key
    → create_transfer ids' a' (create_transfer ids a db).1 ≡ (ok t, (create_transfer ids a db).1)
create_transfer_idempotent ids ids' a a' db {t} h same =
    TransferOutcome-again ids ids' a a' db _ (create_transfer_outcome ids a db) t h same
