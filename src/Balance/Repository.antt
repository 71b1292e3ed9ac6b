-- ===== src/Balance/Repository.antt =====
-- apps/user-service/src/core/repositories/balance.repository.ts, one function for each method.
-- A transaction body is a `Tx`; each method with `$transaction` runs its body by `transact`. What
-- `uuidv7()` and the clock return are arguments.
use nestjs_homework.Base.{
  ℕ, Bool, Option, none, some, List, [], ◌∷◌, ◌==◌, ◌&&◌, ◌||◌, not, find, filter, length, ltb, leb,
  is_some, elem, map, if◌then◌else◌,
}
use nestjs_homework.Base.Int.{ℤ, pos, neg, ◌+ℤ◌, ltb_ℤ, fits_int8}
use nestjs_homework.Base.Result.{Result, ok, err, Tx, pure, gets, or_throw, transact, ◌>>=◌, ◌>>◌}
use nestjs_homework.Base.Table.{create, update_first}
use nestjs_homework.Contracts.{
  Uuid, Time, CurrencyCode, Topic, Payload, deposit_paid_success, tranfer_inited,
  deposit_crediting_success, tranfer_success, crediting, transferred,
}
use nestjs_homework.Outbox
use nestjs_homework.Outbox.{
  OutboxEvent, ProcessedEvent, has_key, same_processed, same_event, new_event,
}
use nestjs_homework.Balance.{
  Balance, BalanceDb, Fault, account_not_found, one_account_missing, one_balance_missing,
  balance_blocked, insufficient_funds, record_not_found, check_violation, unique_violation,
}

-- `where: { accountId }`
unfoldable pub find_balances : Uuid → BalanceDb → List Balance
find_balances account db = filter (λ b. b.account_id == account) db.balances

-- `where: { accountId, currency }`
abbrev pub of_account : Uuid → CurrencyCode → Balance → Bool
of_account account currency b = b.account_id == account && b.currency == currency

unfoldable pub find_balance : Uuid → CurrencyCode → BalanceDb → Option Balance
find_balance account currency db = find (of_account account currency) db.balances

abbrev pub has_id : Uuid → Balance → Bool
has_id id b = b.id == id

-- The `CHECK (amount >= 0)` of the migrations and the range of the column.
abbrev pub amount_ok : ℤ → Bool
amount_ok a = not (ltb_ℤ a (pos 0)) && fits_int8 a

abbrev pub add_amount : ℤ → Balance → Balance
add_amount delta b = record b { amount = b.amount +ℤ delta }

-- `tx.balance.update({ where: { id }, data: { amount: { increment } } })`; a decrement is the
-- increment of the opposite.
unfoldable pub increment_amount : Uuid → ℤ → Tx Fault BalanceDb (Unit {0})
increment_amount id delta db = elim (find (has_id id) db.balances) [
  | none ↦ err record_not_found
  | some b ↦
      if amount_ok (b.amount +ℤ delta)
      then ok (tt, record db { balances = update_first (has_id id) (add_amount delta) db.balances })
      else err check_violation
]

unfoldable pub find_processed : Uuid → BalanceDb → Option ProcessedEvent
find_processed key db = find (has_key key) db.processed_events

-- `tx.processedEvent.create`: `id` and `idempotencyKey` are unique.
unfoldable pub create_processed : Uuid → Uuid → Topic → Tx Fault BalanceDb (Unit {0})
create_processed id key topic db =
    elim (create same_processed (record { id = id; idempotency_key = key; topic = topic })
      db.processed_events) [
        | none ↦ err unique_violation
        | some rows ↦ ok (tt, record db { processed_events = rows })
      ]

-- `tx.outboxEvent.create`: `id` is unique.
unfoldable pub create_outbox : OutboxEvent → Tx Fault BalanceDb OutboxEvent
create_outbox event db = elim (create same_event event db.outbox_events) [
  | none ↦ err unique_violation
  | some rows ↦ ok (event, record db { outbox_events = rows })
]

-- What `uuidv7()` returns for the two rows of one call, and the time of the call.
pub record Fresh : Type 0 where
  pub processed_id : Uuid
  pub outbox_id : Uuid
  pub now : Time

pub record DepositArgs : Type 0 where
  pub idempotency_key : Uuid
  pub currency : CurrencyCode
  pub amount : ℤ
  pub account_id : Uuid
  pub transaction_id : Uuid
  pub event_id : Uuid

-- After the guards of `depositAndCreateOutboxEvent`: credit, record the key, announce.
unfoldable pub credit : Fresh → DepositArgs → Balance → Tx Fault BalanceDb (Unit {0})
credit fresh a balance = do
  increment_amount balance.id a.amount
  create_processed fresh.processed_id a.idempotency_key deposit_paid_success
  create_outbox (
      new_event fresh.outbox_id balance.id deposit_crediting_success
        (crediting (record { event_id = a.event_id; transaction_id = a.transaction_id })) fresh.now)
  pure tt

unfoldable pub deposit_body : Fresh → DepositArgs → Tx Fault BalanceDb (Unit {0})
deposit_body fresh a = do
  balance ← or_throw (← gets (find_balance a.account_id a.currency)) account_not_found
  already_exist ← gets (find_processed a.idempotency_key)
  if is_some already_exist then pure tt else credit fresh a balance

unfoldable pub deposit_and_create_outbox_event :
    Fresh → DepositArgs → BalanceDb → Result Fault (Unit {0}) × BalanceDb
deposit_and_create_outbox_event fresh a = transact (deposit_body fresh a)

unfoldable pub create_outbox_event :
    Uuid
    → Time
    → Uuid
    → CurrencyCode
    → Topic
    → Payload
    → BalanceDb
    → Result Fault OutboxEvent × BalanceDb
create_outbox_event id now account currency topic payload = transact (do
  balance ← or_throw (← gets (find_balance account currency)) account_not_found
  create_outbox (new_event id balance.id topic payload now))

-- `ORDER BY account_id`, stable.
unfoldable pub insert_by_account : Balance → List Balance → List Balance
insert_by_account b [] = b ∷ []
insert_by_account b (x ∷ xs) =
    if leb b.account_id x.account_id then b ∷ x ∷ xs else x ∷ insert_by_account b xs

unfoldable pub order_by_account : List Balance → List Balance
unfolding insert_by_account
order_by_account [] = []
order_by_account (x ∷ xs) = insert_by_account x (order_by_account xs)

-- `[from, to].sort()`
abbrev pub sort_pair : Uuid → Uuid → Uuid × Uuid
sort_pair a b = if leb a b then (a, b) else (b, a)

-- The rows that the transfer locks.
unfoldable pub locked_balances : Uuid → Uuid → CurrencyCode → BalanceDb → List Balance
locked_balances from to currency db =
    let (first_id, second_id) = sort_pair from to in
    order_by_account (
      filter (λ b. elem b.account_id (first_id ∷ second_id ∷ []) && b.currency == currency)
        db.balances)

pub record TransferArgs : Type 0 where
  pub idempotency_key : Uuid
  pub from_account_id : Uuid
  pub to_account_id : Uuid
  pub currency : CurrencyCode
  pub amount : ℤ
  pub event_id : Uuid
  pub out_id : Uuid
  pub in_id : Uuid

-- After the guards of `transferAndCreateOutboxEvent`.
unfoldable pub move_funds : Fresh → TransferArgs → Balance → Balance → Tx Fault BalanceDb (Unit {0})
move_funds fresh a sender receiver = do
  increment_amount sender.id (neg a.amount)
  increment_amount receiver.id a.amount
  create_processed fresh.processed_id a.idempotency_key tranfer_inited
  create_outbox (
      new_event fresh.outbox_id sender.id tranfer_success
        (transferred (record { event_id = a.event_id; out_id = a.out_id; in_id = a.in_id }))
        fresh.now)
  pure tt

-- The guards on the locked rows.
unfoldable pub checked_pair : TransferArgs → List Balance → Result Fault (Balance × Balance)
checked_pair a rows =
    if ltb (length rows) 2
    then err one_account_missing
    else elim (find (λ b. b.account_id == a.from_account_id) rows) [
      | none ↦ err one_balance_missing
      | some sender ↦ elim (find (λ b. b.account_id == a.to_account_id) rows) [
        | none ↦ err one_balance_missing
        | some receiver ↦
            if is_some sender.blocked_at || is_some receiver.blocked_at
            then err balance_blocked
            else if ltb_ℤ sender.amount a.amount
            then err insufficient_funds
            else ok (sender, receiver)
      ]
    ]

abbrev pub lift : {A : Type 0} → Result Fault A → Tx Fault BalanceDb A
lift (ok a) db = ok (a, db)
lift (err e) db = err e

unfoldable pub transfer_body : Fresh → TransferArgs → Tx Fault BalanceDb (Unit {0})
transfer_body fresh a = do
  already_exist ← gets (find_processed a.idempotency_key)
  if is_some already_exist then pure tt else (do
    rows ← gets (locked_balances a.from_account_id a.to_account_id a.currency)
    pair ← lift (checked_pair a rows)
    move_funds fresh a pair.0 pair.1)

unfoldable pub transfer_and_create_outbox_event :
    Fresh → TransferArgs → BalanceDb → Result Fault (Unit {0}) × BalanceDb
transfer_and_create_outbox_event fresh a = transact (transfer_body fresh a)

-- `UPDATE balances SET amount = 0`, with the number of rows.
unfoldable pub reset_all_balances : BalanceDb → ℕ × BalanceDb
reset_all_balances db = (
  length db.balances,
  record db { balances = map {A = Balance} (λ b. record b { amount = pos 0 }) db.balances },
)

unfoldable pub find_unprocessed_events : ℕ → BalanceDb → List OutboxEvent
find_unprocessed_events limit db = Outbox.find_unprocessed_events limit db.outbox_events

unfoldable pub mark_events_as_processed : List Uuid → Time → BalanceDb → BalanceDb
mark_events_as_processed ids now db = record db {
  outbox_events = Outbox.mark_events_as_processed ids now db.outbox_events;
}
