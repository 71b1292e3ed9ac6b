-- ===== src/Balance/Keeps.antt =====
-- What every transaction of the repository keeps of the tables: distinct primary keys, amounts in
-- range, and the keys that are recorded. One rule for each way to build a transaction body.
use nestjs_homework.Base.{
  true, none, some, List, [], ◌∷◌, ◌++◌, ◌≡◌, ◌≢◌, sym, find, arith, subst, ◌∙◌, is_some,
  Option-cases, inl, inr, All, find-append_old,
}
use nestjs_homework.Base.Int.{ℤ, neg, ◌+ℤ◌}
use nestjs_homework.Base.Result.{Result, ok, err}
use nestjs_homework.Base.Preserves.{
  Preserves, Preserves-pure, Preserves-gets, Preserves-or_throw, Preserves-if, Preserves-bind,
  transact-Preserves,
}
use nestjs_homework.Base.Table.{create, All-update_first}
use nestjs_homework.Contracts.{Uuid, Time, CurrencyCode, Topic, Payload}
use nestjs_homework.Outbox.{OutboxEvent, new_event}
use nestjs_homework.Outbox.{has_key}
use nestjs_homework.Balance.{Balance, BalanceDb, Fault, account_not_found}
use nestjs_homework.Balance.Repository.{
  locked_balances, checked_pair, lift, has_id, amount_ok, add_amount, find_balance, find_processed,
  Fresh, DepositArgs, TransferArgs, deposit_body, transfer_body, increment_amount, create_processed,
  create_outbox, credit, move_funds, create_outbox_event,
}
use nestjs_homework.Balance.Rows.{DistinctIds}
use nestjs_homework.Balance.Effects.{credited}
use nestjs_homework.Balance.Funds.{credited-DistinctIds}

abbrev pub AmountsOk : List Balance → Type 0
AmountsOk = All (λ b. amount_ok b.amount ≡ true)

-- What a call did to the tables that the invariants are about.
pub record Keeps (db db' : BalanceDb) : Type 0 where
  pub ids : DistinctIds db.balances → DistinctIds db'.balances
  pub amounts : AmountsOk db.balances → AmountsOk db'.balances
  pub keys : (key : Uuid) → find_processed key db ≢ none → find_processed key db' ≢ none

pub Keeps-refl : (db : BalanceDb) → Keeps db db
Keeps-refl db = record { ids = λ h. h; amounts = λ h. h; keys = λ k h. h }

pub Keeps-trans : (db db' db'' : BalanceDb) → Keeps db db' → Keeps db' db'' → Keeps db db''
Keeps-trans db db' db'' p q = record {
  ids = λ h. q.ids (p.ids h);
  amounts = λ h. q.amounts (p.amounts h);
  keys = λ k h. q.keys k (p.keys k h);
}

amounts-credited :
    (id : Uuid) (delta : ℤ) (rows : List Balance) (b : Balance)
    → find (has_id id) rows ≡ some b
    → amount_ok (b.amount +ℤ delta) ≡ true
    → AmountsOk rows
    → AmountsOk (credited delta id rows)
amounts-credited id delta rows b f fits h =
    All-update_first (λ b. amount_ok b.amount ≡ true) (has_id id) (add_amount delta) rows b f fits h

increment_amount_inv :
    (id : Uuid) (delta : ℤ) (db db' : BalanceDb) (u : Unit {0})
    → increment_amount id delta db ≡ ok (u, db')
    → (b : Balance) × (find (has_id id) db.balances ≡ some b)
      × (amount_ok (b.amount +ℤ delta) ≡ true)
      × (db' ≡ record db { balances = credited delta id db.balances })
unfolding increment_amount
increment_amount_inv id delta db db' u h = elim (Option-cases (find (has_id id) db.balances)) [
  | inl e ↦ absurd (ground arith)
  | inr (b, e) ↦ (b, e, ground arith, ground arith)
]

increment_amount-Preserves : (id : Uuid) (delta : ℤ) → Preserves Keeps (increment_amount id delta)
unfolding find_processed
increment_amount-Preserves id delta = record {
  commits = λ db db' u h.
      let (b, found, fits, e) = increment_amount_inv id delta db db' u h in
      subst (Keeps db) (sym e) (record {
        ids = credited-DistinctIds delta id db.balances;
        amounts = amounts-credited id delta db.balances b found fits;
        keys = λ k old. old;
      });
}

create_processed_inv :
    (id key : Uuid) (topic : Topic) (db db' : BalanceDb) (u : Unit {0})
    → create_processed id key topic db ≡ ok (u, db')
    → db' ≡ record db {
      processed_events =
          db.processed_events ++ record { id = id; idempotency_key = key; topic = topic } ∷ [];
    }
unfolding create_processed create
create_processed_inv id key topic db db' u h = ground arith

create_processed-Preserves :
    (id key : Uuid) (topic : Topic) → Preserves Keeps (create_processed id key topic)
unfolding find_processed
create_processed-Preserves id key topic = record {
  commits = λ db db' u h.
      subst (Keeps db) (sym (create_processed_inv id key topic db db' u h)) (record {
        ids = λ d. d;
        amounts = λ d. d;
        keys =
            λ k old gone. old (sym (find-append_old (has_key k) db.processed_events _ old) ∙ gone);
      });
}

create_outbox-Preserves : (e : OutboxEvent) → Preserves Keeps (create_outbox e)
unfolding create_outbox create find_processed
create_outbox-Preserves e = record {
  commits = λ db db' u h. record {
    ids = λ d. subst DistinctIds (ground arith) d;
    amounts = λ d. subst AmountsOk (ground arith) d;
    keys = λ k old gone. old (subst (λ rows. find (has_key k) rows ≡ none) (ground arith) gone);
  };
}

credit-Preserves :
    (fresh : Fresh) (a : DepositArgs) (b : Balance) → Preserves Keeps (credit fresh a b)
unfolding credit
credit-Preserves fresh a b =
    Preserves-bind Keeps-trans _ _ (increment_amount-Preserves b.id a.amount) λ _.
      Preserves-bind Keeps-trans _ _ (create_processed-Preserves _ _ _) λ _.
        Preserves-bind Keeps-trans _ _ (create_outbox-Preserves _) λ _. Preserves-pure Keeps-refl tt

move_funds-Preserves :
    (fresh : Fresh) (a : TransferArgs) (s r : Balance) → Preserves Keeps (move_funds fresh a s r)
unfolding move_funds
move_funds-Preserves fresh a s r =
    Preserves-bind Keeps-trans _ _ (increment_amount-Preserves s.id (neg a.amount)) λ _.
      Preserves-bind Keeps-trans _ _ (increment_amount-Preserves r.id a.amount) λ _.
        Preserves-bind Keeps-trans _ _ (create_processed-Preserves _ _ _) λ _.
          Preserves-bind Keeps-trans _ _ (create_outbox-Preserves _)
            λ _. Preserves-pure Keeps-refl tt

lift-Preserves : {A : Type 0} (r : Result Fault A) → Preserves Keeps (lift r)
lift-Preserves (ok a) = Preserves-pure Keeps-refl a
lift-Preserves (err e) = record { commits = λ db db' b h. cc }

pub deposit_body-Preserves :
    (fresh : Fresh) (a : DepositArgs) → Preserves Keeps (deposit_body fresh a)
unfolding deposit_body
deposit_body-Preserves fresh a =
    Preserves-bind Keeps-trans _ _
      (Preserves-gets Keeps-refl (find_balance a.account_id a.currency))
      λ o. Preserves-bind Keeps-trans _ _ (Preserves-or_throw Keeps-refl o account_not_found) λ b.
        Preserves-bind Keeps-trans _ _
          (Preserves-gets Keeps-refl (find_processed a.idempotency_key))
          λ old.
            Preserves-if (is_some old) _ _ (Preserves-pure Keeps-refl tt)
              (credit-Preserves fresh a b)

pub transfer_body-Preserves :
    (fresh : Fresh) (a : TransferArgs) → Preserves Keeps (transfer_body fresh a)
unfolding transfer_body
transfer_body-Preserves fresh a =
    Preserves-bind Keeps-trans _ _ (Preserves-gets Keeps-refl (find_processed a.idempotency_key))
      λ old. Preserves-if (is_some old) _ _ (Preserves-pure Keeps-refl tt) (
        Preserves-bind Keeps-trans _ _
          (Preserves-gets Keeps-refl (locked_balances a.from_account_id a.to_account_id a.currency))
          λ rows.
            Preserves-bind Keeps-trans _ _ (lift-Preserves (checked_pair a rows))
              λ pair. move_funds-Preserves fresh a pair.0 pair.1)

pub create_outbox_event-Keeps :
    (id : Uuid) (now : Time) (account : Uuid) (currency : CurrencyCode) (topic : Topic)
    (payload : Payload) (db : BalanceDb)
    → Keeps db (create_outbox_event id now account currency topic payload db).1
unfolding create_outbox_event
create_outbox_event-Keeps id now account currency topic payload db =
    transact-Preserves Keeps-refl _ db (
      Preserves-bind Keeps-trans _ _ (Preserves-gets Keeps-refl (find_balance account currency))
        λ o.
          Preserves-bind Keeps-trans _ _ (Preserves-or_throw Keeps-refl o account_not_found)
            λ b. create_outbox-Preserves (new_event id b.id topic payload now))
