-- ===== src/Transaction/Calls.antt =====
-- Each call of the repository of transactions, alone: a status only advances, and nothing is forgotten.
use nestjs_homework.Base.{
  ℕ, Bool, true, false, Option, none, some, ◌≡◌, refl, ◌==◌, find, filter, length, ltb, arith,
  is_some, not,
}
use nestjs_homework.Base.Result.{Result, transact, Tx, pure, gets, or_throw, throw_if, ◌>>=◌}
use nestjs_homework.Base.Preserves.{
  Preserves, Preserves-pure, Preserves-gets, Preserves-or_throw, Preserves-throw_if, Preserves-if,
  Preserves-bind, transact-Preserves,
}
use nestjs_homework.Contracts.{
  Uuid, Time, Topic, completed, timeout, balance_updated, failed, is_pending, is_completed, is_null,
  deposit_crediting_success, tranfer_success,
}
use nestjs_homework.Outbox.{new_event}
use nestjs_homework.Transaction.{
  Transaction, TransactionDb, TransactionFault, transaction_not_found, status_mismatch,
  event_not_found, payload_not_found, record_not_found,
}
use nestjs_homework.Transaction.Queries.{
  has_text, with_status, retried, find_payment, find_processed, find_transaction, find_event,
  in_pair,
}
use nestjs_homework.Transaction.Repository.{
  or_insert, or_insert_transfer, create_transaction, TransferIds, NewTransfer, out_transaction,
  in_transaction, inited_event, create_transfer, paid_event,
  set_status_completed_and_create_outbox_event, set_status_timeout,
  set_status_updated_and_create_processed_event,
  set_status_updated_by_ids_and_create_processed_event,
}
use nestjs_homework.Transaction.Retries.{
  RetryIds, republish, throw_exhausted, recreate_outbox_event, recreate_transfer_outbox_event,
}
use nestjs_homework.Transaction.Advance.{
  Advance, Advance-refl, Advance-trans, with_status-IsOnward, retried-IsOnward,
  update_transaction-Preserves, update_pair-Preserves, insert_transaction-Preserves,
  create_processed-Preserves, create_outbox-Preserves,
}

-- The rules of `Base.Preserves` at `Advance`.
and_then :
    {A B : Type 0} (m : Tx TransactionFault TransactionDb A)
    (f : A → Tx TransactionFault TransactionDb B)
    → Preserves Advance m
    → ((a : A) → Preserves Advance (f a))
    → Preserves Advance (m >>= f)
and_then = Preserves-bind Advance-trans

done : {A : Type 0} (a : A) → Preserves {E = TransactionFault} Advance (pure a)
done = Preserves-pure Advance-refl

reads : {A : Type 0} (f : TransactionDb → A) → Preserves {E = TransactionFault} Advance (gets f)
reads = Preserves-gets Advance-refl

throws : (b : Bool) (e : TransactionFault) → Preserves Advance (throw_if b e)
throws = Preserves-throw_if Advance-refl

needs : {A : Type 0} (o : Option A) (e : TransactionFault) → Preserves Advance (or_throw o e)
needs = Preserves-or_throw Advance-refl

commits :
    {A : Type 0} (m : Tx TransactionFault TransactionDb A) (db : TransactionDb)
    → Preserves Advance m
    → Advance db (transact m db).1
commits = transact-Preserves Advance-refl

or_insert-Preserves : (t : Transaction) (o : Option Transaction) → Preserves Advance (or_insert t o)
or_insert-Preserves t (some x) = done x.id
or_insert-Preserves t none = and_then _ _ (insert_transaction-Preserves t) λ made. done made.id

pub create_transaction-Advance :
    (t : Transaction) (db : TransactionDb) → Advance db (create_transaction t db).1
unfolding create_transaction
create_transaction-Advance t db = commits _ db (
    and_then _ _ (reads (λ (s : TransactionDb). find (has_text t.idempotency_key) s.transactions))
      (or_insert-Preserves t))

or_insert_transfer-Preserves :
    (ids : TransferIds) (a : NewTransfer) (o : Option Transaction)
    → Preserves Advance (or_insert_transfer ids a o)
or_insert_transfer-Preserves ids a (some x) = done x
or_insert_transfer-Preserves ids a none =
    and_then _ _ (insert_transaction-Preserves (out_transaction ids a)) λ tx_out.
      and_then _ _ (insert_transaction-Preserves (in_transaction ids a))
        λ _. and_then _ _ (create_outbox-Preserves (inited_event ids a)) λ _. done tx_out

pub create_transfer-Advance :
    (ids : TransferIds) (a : NewTransfer) (db : TransactionDb)
    → Advance db (create_transfer ids a db).1
unfolding create_transfer
create_transfer-Advance ids a db = commits _ db (
    and_then _ _ (reads (λ (s : TransactionDb). find (has_text a.idempotency_key) s.transactions))
      (or_insert_transfer-Preserves ids a))

pub set_status_completed-Advance :
    (event_id : Uuid) (now : Time) (payment : Uuid) (db : TransactionDb)
    → Advance db (set_status_completed_and_create_outbox_event event_id now payment db).1
unfolding set_status_completed_and_create_outbox_event
set_status_completed-Advance event_id now payment db = commits _ db (
    and_then _ _ (reads (find_payment payment)) λ o.
      and_then _ _ (needs o transaction_not_found) λ row.
        and_then _ _ (throws (not (is_pending row.status)) (status_mismatch row.status)) λ _.
          and_then _ _
            (update_transaction-Preserves (with_status completed)
              (with_status-IsOnward completed refl) row.id)
            λ _.
              and_then _ _ (create_outbox-Preserves (paid_event event_id now row)) λ _. done row.id)

pub set_status_timeout-Advance :
    (payment : Uuid) (db : TransactionDb) → Advance db (set_status_timeout payment db).1
unfolding set_status_timeout
set_status_timeout-Advance payment db = commits _ db (
    and_then _ _ (reads (find_payment payment)) λ o.
      and_then _ _ (needs o transaction_not_found) λ row.
        and_then _ _ (throws (not (is_pending row.status)) (status_mismatch row.status)) λ _.
          and_then _ _
            (update_transaction-Preserves (with_status timeout) (with_status-IsOnward timeout refl)
              row.id)
            λ _. done row.id)

pub set_status_updated-Advance :
    (id key transaction : Uuid) (db : TransactionDb)
    → Advance db (set_status_updated_and_create_processed_event id key transaction db).1
unfolding set_status_updated_and_create_processed_event
set_status_updated-Advance id key transaction db = commits _ db (
    and_then _ _ (reads (find_processed key)) λ old. Preserves-if (is_some old) _ _ (done tt) (
      and_then _ _ (reads (find_transaction transaction)) λ o.
        and_then _ _ (needs o transaction_not_found) λ row.
          and_then _ _ (throws (not (is_completed row.status)) (status_mismatch row.status)) λ _.
            and_then _ _
              (update_transaction-Preserves (with_status balance_updated)
                (with_status-IsOnward balance_updated refl) row.id)
              λ _. create_processed-Preserves id key deposit_crediting_success))

republish-Preserves :
    (ids : RetryIds) (key event_id : Uuid) (topic : Topic)
    → Preserves Advance (republish ids key event_id topic)
unfolding republish
republish-Preserves ids key event_id topic = and_then _ _ (reads (find_event event_id)) λ o.
    and_then _ _ (needs o event_not_found) λ event.
      and_then _ _ (throws (is_null event.payload) payload_not_found) λ _.
        and_then _ _
          (create_outbox-Preserves
            (new_event ids.outbox_id event.owner_id event.topic event.payload ids.now))
          λ _. and_then _ _ (create_processed-Preserves ids.processed_id key topic) λ _. done false

throw_exhausted-db :
    (out : Result TransactionFault Bool × TransactionDb) → (throw_exhausted out).1 ≡ out.1
throw_exhausted-db out = ground arith

pub recreate_outbox_event-Advance :
    (ids : RetryIds) (key transaction event : Uuid) (max_retry : ℕ) (topic : Topic)
    (db : TransactionDb)
    → Advance db (recreate_outbox_event ids key transaction event max_retry topic db).1
unfolding recreate_outbox_event
recreate_outbox_event-Advance ids key transaction event max_retry topic db = rw throw_exhausted-db (
    commits _ db (
      and_then _ _ (reads (find_processed key)) λ old. Preserves-if (is_some old) _ _ (done false) (
        and_then _ _ (reads (find_transaction transaction)) λ o.
          and_then _ _ (needs o transaction_not_found) λ row.
            and_then _ _ (update_transaction-Preserves retried retried-IsOnward transaction) λ _.
              and_then _ _ (reads (find_transaction transaction)) λ p.
                and_then _ _ (needs p record_not_found) λ updated.
                  Preserves-if (ltb updated.retry_count max_retry) _ _
                    (republish-Preserves ids key event topic)
                    (and_then _ _
                      (update_transaction-Preserves (with_status failed)
                        (with_status-IsOnward failed refl) transaction)
                      λ _. done true))))

pub recreate_transfer_outbox_event-Advance :
    (ids : RetryIds) (key out_id in_id event : Uuid) (max_retry : ℕ) (topic : Topic)
    (db : TransactionDb)
    → Advance db (recreate_transfer_outbox_event ids key out_id in_id event max_retry topic db).1
unfolding recreate_transfer_outbox_event
recreate_transfer_outbox_event-Advance ids key out_id in_id event max_retry topic db =
    rw throw_exhausted-db (
      commits _ db (
        and_then _ _ (reads (find_processed key)) λ old.
          Preserves-if (is_some old) _ _ (done false) (
            and_then _ _
              (reads (λ (s : TransactionDb). filter (in_pair out_id in_id) s.transactions))
              λ txs. and_then _ _ (throws (ltb (length txs) 2) transaction_not_found) λ _.
                and_then _ _ (update_pair-Preserves retried retried-IsOnward out_id in_id) λ _.
                  and_then _ _
                    (reads (λ (s : TransactionDb). find (in_pair out_id in_id) s.transactions))
                    λ p. and_then _ _ (needs p record_not_found) λ updated.
                      Preserves-if (ltb updated.retry_count max_retry) _ _
                        (republish-Preserves ids key event topic)
                        (and_then _ _
                          (update_pair-Preserves (with_status failed)
                            (with_status-IsOnward failed refl) out_id in_id)
                          λ _. done true))))

pub set_status_updated_by_ids-Advance :
    (id key out_id in_id : Uuid) (db : TransactionDb)
    → Advance db (set_status_updated_by_ids_and_create_processed_event id key out_id in_id db).1
unfolding set_status_updated_by_ids_and_create_processed_event
set_status_updated_by_ids-Advance id key out_id in_id db = commits _ db (
    and_then _ _ (reads (find_processed key)) λ old. Preserves-if (is_some old) _ _ (done tt) (
      and_then _ _ (reads (λ (s : TransactionDb). filter (in_pair out_id in_id) s.transactions))
        λ rows. and_then _ _ (throws (length rows == 0) transaction_not_found) λ _.
          and_then _ _
            (update_transaction-Preserves (with_status balance_updated)
              (with_status-IsOnward balance_updated refl) out_id)
            λ _.
              and_then _ _
                (update_transaction-Preserves (with_status balance_updated)
                  (with_status-IsOnward balance_updated refl) in_id)
                λ _. create_processed-Preserves id key tranfer_success))
