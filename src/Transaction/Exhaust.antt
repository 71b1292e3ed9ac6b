-- ===== src/Transaction/Exhaust.antt =====
-- `recreateOutboxEvent` over time: how often the event of one transaction is published again.
use nestjs_homework.Base.{
  ℕ, some, List, [], ◌∷◌, ◌+◌, ◌-◌, ◌<◌, ◌≤◌, ◌≡◌, refl, find, arith, length, length-append, ap,
  subst, sym, ◌⊎◌, inl, inr,
}
use nestjs_homework.Base.Result.{Result}
use nestjs_homework.Base.Table.{update_first, find-update_first}
use nestjs_homework.Contracts.{Uuid, Topic, failed}
use nestjs_homework.Outbox.{new_event}
use nestjs_homework.Transaction.{Transaction, TransactionDb, TransactionFault}
use nestjs_homework.Transaction.Queries.{has_id, with_status, retried, find_transaction}
use nestjs_homework.Transaction.Retries.{RetryIds, recreate_outbox_event}
use nestjs_homework.Transaction.Retry.{
  RetryOutcome, duplicate, unknown, refused, republished, exhausted, recreate_outbox_event_outcome,
  bumped,
}

-- A message that says that an event of the transaction failed.
pub record FailedEvent : Type 0 where
  pub ids : RetryIds
  pub key : Uuid
  pub event_id : Uuid
  pub topic : Topic

module _ (id : Uuid) (max_retry : ℕ) where
  abbrev pub retry :
      FailedEvent → TransactionDb → Result TransactionFault (Unit {0}) × TransactionDb
  retry m db = recreate_outbox_event m.ids m.key id m.event_id max_retry m.topic db

  unfoldable pub retry_all : List FailedEvent → TransactionDb → TransactionDb
  retry_all [] db = db
  retry_all (m ∷ ms) db = retry_all ms (retry m db).1

  -- The copies that the count still allows.
  abbrev pub left : Transaction → ℕ
  left t = max_retry - (t.retry_count + 1)

  -- What the calls did to the row `t` of the transaction and the outbox.
  pub record Retried (t : Transaction) (db db' : TransactionDb) : Type 0 where
    pub row : Transaction
    pub found : find_transaction id db' ≡ some row
    pub copies : length db'.outbox_events + left row ≤ length db.outbox_events + left t
    pub counted : (row ≡ t) ⊎ (t.retry_count < row.retry_count)
    pub exhausts : (row ≡ t) ⊎ (row.retry_count < max_retry) ⊎ (row.status ≡ failed)

  same_id : (rows : List Transaction) (t : Transaction) → find (has_id id) rows ≡ some t → t.id ≡ id
  same_id [] t h = cc
  same_id (x ∷ rows) t h = ground (arith, same_id rows t)

  find_updated :
      (f : Transaction → Transaction) (rows : List Transaction) (t : Transaction)
      → find (has_id id) rows ≡ some t
      → (f t).id ≡ t.id
      → find (has_id id) (update_first (has_id id) f rows) ≡ some (f t)
  find_updated f rows t h keeps =
      find-update_first (has_id id) f rows t h (ground (arith, same_id rows t h))

  Retried-refl :
      (t : Transaction) (db : TransactionDb) → find_transaction id db ≡ some t → Retried t db db
  Retried-refl t db h = record {
    row = t;
    found = h;
    copies = omega arith;
    counted = inl refl;
    exhausts = inl refl;
  }

  count_of :
      (t t' : Transaction) (db : TransactionDb)
      → find_transaction id db ≡ some t
      → find_transaction id db ≡ some t'
      → t.retry_count ≡ t'.retry_count
  count_of t t' db h k = cc

  retry_step :
      (m : FailedEvent) (db : TransactionDb) (t : Transaction)
      {r : Result TransactionFault (Unit {0}) × TransactionDb}
      → RetryOutcome m.ids m.key id m.event_id max_retry m.topic db r
      → find_transaction id db ≡ some t
      → Retried t db r.1
  unfolding find_transaction
  retry_step m db t (duplicate old) h = Retried-refl t db h
  retry_step m db t (unknown new lost) h = Retried-refl t db h
  retry_step m db t (refused t' e new found room why) h = Retried-refl t db h
  retry_step m db t (republished t' event new found room at) h =
      let same = count_of t t' db h found in
      record {
        row = retried t;
        found = find_updated retried db.transactions t h refl;
        copies = omega (
          arith,
          same,
          length-append db.outbox_events
              (new_event m.ids.outbox_id event.owner_id event.topic event.payload m.ids.now ∷ []),
        );
        counted = inr (omega arith);
        exhausts = inr (inl (omega (arith, same)));
      }
  retry_step m db t (exhausted t' new found spent) h = record {
    row = with_status failed (retried t);
    found =
        find_updated (with_status failed) (bumped id db) (retried t)
          (find_updated retried db.transactions t h refl) refl;
    copies = omega arith;
    counted = inr (omega arith);
    exhausts = inr (inr refl);
  }

  Retried-trans :
      (t : Transaction) (db db' db'' : TransactionDb) (p : Retried t db db')
      → Retried p.row db' db''
      → Retried t db db''
  Retried-trans t db db' db'' p q = record {
    row = q.row;
    found = q.found;
    copies = omega (arith, p.copies, q.copies);
    counted = elim q.counted [
      | inl same ↦ subst (λ r. (r ≡ t) ⊎ (t.retry_count < r.retry_count)) (sym same) p.counted
      | inr more ↦ inr (elim p.counted [
        | inl same ↦ omega (arith, ap (λ r. r.retry_count) same)
        | inr less ↦ omega arith
      ])
    ];
    exhausts = elim q.exhausts [
      | inl same ↦
          subst (λ r. (r ≡ t) ⊎ (r.retry_count < max_retry) ⊎ (r.status ≡ failed)) (sym same)
            p.exhausts
      | inr later ↦ inr later
    ];
  }

  -- However many messages say that an event of the transaction failed, and whichever their keys and events are, the copies
  -- published come to an end: they are at most as many as the count of retries leaves. The row stays as it was, or its count
  -- has grown, and then the count is still below `maxRetry` or the transaction has failed.
  pub retry_all-Retried :
      (ms : List FailedEvent) (db : TransactionDb) (t : Transaction)
      → find_transaction id db ≡ some t
      → Retried t db (retry_all ms db)
  unfolding retry_all
  retry_all-Retried [] db t h = Retried-refl t db h
  retry_all-Retried (m ∷ ms) db t h =
      let first =
        retry_step m db t
          (recreate_outbox_event_outcome m.ids m.key id m.event_id max_retry m.topic db) h in
      Retried-trans t db (retry m db).1 (retry_all ms (retry m db).1) first
        (retry_all-Retried ms (retry m db).1 first.row first.found)
