-- ===== src/Transaction/Advance.antt =====
-- What every transaction of the repository keeps of the tables: distinct ids, a payment once settled
-- stays settled, and a key once recorded stays recorded.
use nestjs_homework.Base.{
  Bool, true, false, Option, none, some, List, [], ◌∷◌, ◌++◌, ◌≡◌, ◌≢◌, refl, sym, not, find, any,
  arith, subst, ◌∙◌, find-append_old,
}
use nestjs_homework.Base.Preserves.{Preserves}
use nestjs_homework.Base.Table.{create, update_first, update_many}
use nestjs_homework.Contracts.{Uuid, Topic, TransactionStatus, is_pending}
use nestjs_homework.Outbox.{OutboxEvent, has_key}
use nestjs_homework.Transaction.{Transaction, TransactionDb}
use nestjs_homework.Transaction.Queries.{
  has_id, is_payment, same_transaction, insert_transaction, create_processed, create_outbox,
  update_transaction, update_pair, in_pair, with_status, retried, find_payment, find_processed,
}

abbrev pub DistinctIds : List Transaction → Type 0
DistinctIds [] = Unit
DistinctIds (t ∷ rows) = (find (has_id t.id) rows ≡ none) × DistinctIds rows

abbrev pub is_settled : Option Transaction → Bool
is_settled none = false
is_settled (some t) = not (is_pending t.status)

pub record Advance (db db' : TransactionDb) : Type 0 where
  pub ids : DistinctIds db.transactions → DistinctIds db'.transactions
  pub settled :
      (payment : Uuid)
      → is_settled (find_payment payment db) ≡ true
      → is_settled (find_payment payment db') ≡ true
  pub keys : (key : Uuid) → find_processed key db ≢ none → find_processed key db' ≢ none

pub Advance-refl : (db : TransactionDb) → Advance db db
Advance-refl db = record { ids = λ h. h; settled = λ p h. h; keys = λ k h. h }

pub Advance-trans :
    (db db' db'' : TransactionDb) → Advance db db' → Advance db' db'' → Advance db db''
Advance-trans db db' db'' p q = record {
  ids = λ h. q.ids (p.ids h);
  settled = λ k h. q.settled k (p.settled k h);
  keys = λ k h. q.keys k (p.keys k h);
}

-- A change of a row that keeps its id and its payment, and makes nothing pending.
pub record IsOnward (change : Transaction → Transaction) : Type 0 where
  pub id : (t : Transaction) → (change t).id ≡ t.id
  pub payment : (t : Transaction) → (change t).provider_payment_id ≡ t.provider_payment_id
  pub status :
      (t : Transaction) → is_pending t.status ≡ false → is_pending (change t).status ≡ false

pub with_status-IsOnward : (s : TransactionStatus) → is_pending s ≡ false → IsOnward (with_status s)
with_status-IsOnward s h = record { id = λ t. refl; payment = λ t. refl; status = λ t e. h }

pub retried-IsOnward : IsOnward retried
retried-IsOnward = record { id = λ t. refl; payment = λ t. refl; status = λ t e. e }

module _ (change : Transaction → Transaction) (onward : IsOnward change) where
  find-update_first-none :
      (id k : Uuid) (rows : List Transaction)
      → find (has_id id) rows ≡ none
      → find (has_id id) (update_first (has_id k) change rows) ≡ none
  unfolding update_first
  find-update_first-none id k [] h = refl
  find-update_first-none id k (t ∷ rows) h =
      ground (arith, find-update_first-none id k rows, onward.id t)

  update_first-DistinctIds :
      (k : Uuid) (rows : List Transaction)
      → DistinctIds rows
      → DistinctIds (update_first (has_id k) change rows)
  unfolding update_first
  update_first-DistinctIds k [] h = tt
  update_first-DistinctIds k (t ∷ rows) h = ground (
    arith,
    update_first-DistinctIds k rows h.1,
    find-update_first-none t.id k rows h.0,
    onward.id t,
  )

  settled-update_first :
      (p k : Uuid) (rows : List Transaction)
      → is_settled (find (is_payment p) rows) ≡ true
      → is_settled (find (is_payment p) (update_first (has_id k) change rows)) ≡ true
  unfolding update_first
  settled-update_first p k [] h = h
  settled-update_first p k (t ∷ rows) h =
      ground (arith, settled-update_first p k rows, onward.payment t, onward.status t)

  find-update_many-none :
      (id out_id in_id : Uuid) (rows : List Transaction)
      → find (has_id id) rows ≡ none
      → find (has_id id) (update_many (in_pair out_id in_id) change rows) ≡ none
  unfolding update_many
  find-update_many-none id out_id in_id [] h = refl
  find-update_many-none id out_id in_id (t ∷ rows) h =
      ground (arith, find-update_many-none id out_id in_id rows, onward.id t)

  update_many-DistinctIds :
      (out_id in_id : Uuid) (rows : List Transaction)
      → DistinctIds rows
      → DistinctIds (update_many (in_pair out_id in_id) change rows)
  unfolding update_many
  update_many-DistinctIds out_id in_id [] h = tt
  update_many-DistinctIds out_id in_id (t ∷ rows) h = ground (
    arith,
    update_many-DistinctIds out_id in_id rows h.1,
    find-update_many-none t.id out_id in_id rows h.0,
    onward.id t,
  )

  settled-update_many :
      (p out_id in_id : Uuid) (rows : List Transaction)
      → is_settled (find (is_payment p) rows) ≡ true
      → is_settled (find (is_payment p) (update_many (in_pair out_id in_id) change rows)) ≡ true
  unfolding update_many
  settled-update_many p out_id in_id [] h = h
  settled-update_many p out_id in_id (t ∷ rows) h =
      ground (arith, settled-update_many p out_id in_id rows, onward.payment t, onward.status t)

  pub update_transaction-Preserves : (id : Uuid) → Preserves Advance (update_transaction id change)
  unfolding update_transaction find_payment find_processed
  update_transaction-Preserves id = record {
    commits = λ db db' u h.
        let e : db' ≡ record db { transactions = update_first (has_id id) change db.transactions } =
          ground arith in
        subst (Advance db) (sym e) (record {
          ids = update_first-DistinctIds id db.transactions;
          settled = λ p s. settled-update_first p id db.transactions s;
          keys = λ k old. old;
        });
  }

  pub update_pair-Preserves :
      (out_id in_id : Uuid) → Preserves Advance (update_pair out_id in_id change)
  unfolding update_pair find_payment find_processed
  update_pair-Preserves out_id in_id = record {
    commits = λ db db' u h.
        let e : db' ≡ record db {
          transactions = update_many (in_pair out_id in_id) change db.transactions;
        } =
          ground arith in
        subst (Advance db) (sym e) (record {
          ids = update_many-DistinctIds out_id in_id db.transactions;
          settled = λ p s. settled-update_many p out_id in_id db.transactions s;
          keys = λ k old. old;
        });
  }

find-append_none :
    (id : Uuid) (t : Transaction) (rows : List Transaction)
    → find (has_id id) rows ≡ none
    → has_id id t ≡ false
    → find (has_id id) (rows ++ t ∷ []) ≡ none
find-append_none id t [] h e = ground arith
find-append_none id t (x ∷ rows) h e = ground (arith, find-append_none id t rows)

append-DistinctIds :
    (t : Transaction) (rows : List Transaction)
    → any (same_transaction t) rows ≡ false
    → DistinctIds rows
    → DistinctIds (rows ++ t ∷ [])
append-DistinctIds t [] h d = (refl, tt)
append-DistinctIds t (x ∷ rows) h d =
    let other : has_id x.id t ≡ false = ground arith in
    let later : any (same_transaction t) rows ≡ false = ground arith in
    (find-append_none x.id t rows d.0 other, append-DistinctIds t rows later d.1)

settled-append :
    (p : Uuid) (t : Transaction) (rows : List Transaction)
    → is_settled (find (is_payment p) rows) ≡ true
    → is_settled (find (is_payment p) (rows ++ t ∷ [])) ≡ true
settled-append p t [] h = cc
settled-append p t (x ∷ rows) h = ground (arith, settled-append p t rows)

pub insert_transaction-Preserves : (t : Transaction) → Preserves Advance (insert_transaction t)
unfolding insert_transaction create find_payment find_processed
insert_transaction-Preserves t = record {
  commits = λ db db' u h.
      let free : any (same_transaction t) db.transactions ≡ false = ground arith in
      let e : db' ≡ record db { transactions = db.transactions ++ t ∷ [] } = ground arith in
      subst (Advance db) (sym e) (record {
        ids = append-DistinctIds t db.transactions free;
        settled = λ p s. settled-append p t db.transactions s;
        keys = λ k old. old;
      });
}

pub create_processed-Preserves :
    (id key : Uuid) (topic : Topic) → Preserves Advance (create_processed id key topic)
unfolding create_processed create find_payment find_processed
create_processed-Preserves id key topic = record {
  commits = λ db db' u h.
      let e : db' ≡ record db {
        processed_events =
            db.processed_events ++ record { id = id; idempotency_key = key; topic = topic } ∷ [];
      } =
        ground arith in
      subst (Advance db) (sym e) (record {
        ids = λ d. d;
        settled = λ p s. s;
        keys =
            λ k old gone. old (sym (find-append_old (has_key k) db.processed_events _ old) ∙ gone);
      });
}

pub create_outbox-Preserves : (event : OutboxEvent) → Preserves Advance (create_outbox event)
unfolding create_outbox create find_payment find_processed
create_outbox-Preserves event = record {
  commits = λ db db' u h.
      let e : db' ≡ record db { outbox_events = db.outbox_events ++ event ∷ [] } = ground arith in
      subst (Advance db) (sym e) (record { ids = λ d. d; settled = λ p s. s; keys = λ k old. old });
}
