-- ===== src/Balance/Effects.antt =====
-- The tables after a successful `credit` or `move_funds`, and what the guards of a transfer give.
use nestjs_homework.Base.{none, some, List, [], ◌∷◌, ◌++◌, ◌≡◌, arith}
use nestjs_homework.Base.Int.{ℤ, neg, ◌≤ℤ◌}
use nestjs_homework.Base.Result.{ok}
use nestjs_homework.Base.Table.{create, update_first}
use nestjs_homework.Contracts.{
  Uuid, Topic, deposit_paid_success, tranfer_inited, deposit_crediting_success, tranfer_success,
  crediting, transferred,
}
use nestjs_homework.Outbox.{OutboxEvent, ProcessedEvent, new_event}
use nestjs_homework.Balance.{Balance, BalanceDb}
use nestjs_homework.Balance.Repository.{
  has_id, add_amount, increment_amount, create_processed, create_outbox, find_balance, Fresh,
  DepositArgs, TransferArgs, credit, move_funds, checked_pair, locked_balances,
}
use nestjs_homework.Balance.Rows.{find_sender, find_receiver}

abbrev pub credited : ℤ → Uuid → List Balance → List Balance
credited delta id = update_first (has_id id) (add_amount delta)

abbrev pub deposit_event : Fresh → DepositArgs → Balance → OutboxEvent
deposit_event fresh a b =
    new_event fresh.outbox_id b.id deposit_crediting_success
      (crediting (record { event_id = a.event_id; transaction_id = a.transaction_id })) fresh.now

abbrev pub transfer_event : Fresh → TransferArgs → Balance → OutboxEvent
transfer_event fresh a b =
    new_event fresh.outbox_id b.id tranfer_success
      (transferred (record { event_id = a.event_id; out_id = a.out_id; in_id = a.in_id })) fresh.now

abbrev pub processed : Fresh → Uuid → Topic → ProcessedEvent
processed fresh key topic = record { id = fresh.processed_id; idempotency_key = key; topic = topic }

pub credit_effect :
    (fresh : Fresh) (a : DepositArgs) (b : Balance) (db db' : BalanceDb)
    → credit fresh a b db ≡ ok (tt, db')
    → db' ≡ record {
      balances = credited a.amount b.id db.balances;
      processed_events =
          db.processed_events ++ processed fresh a.idempotency_key deposit_paid_success ∷ [];
      outbox_events = db.outbox_events ++ deposit_event fresh a b ∷ [];
    }
unfolding credit increment_amount create_processed create_outbox create
credit_effect fresh a b db db' h = ground arith

pub move_funds_effect :
    (fresh : Fresh) (a : TransferArgs) (s r : Balance) (db db' : BalanceDb)
    → move_funds fresh a s r db ≡ ok (tt, db')
    → db' ≡ record {
      balances = credited a.amount r.id (credited (neg a.amount) s.id db.balances);
      processed_events =
          db.processed_events ++ processed fresh a.idempotency_key tranfer_inited ∷ [];
      outbox_events = db.outbox_events ++ transfer_event fresh a s ∷ [];
    }
unfolding move_funds increment_amount create_processed create_outbox create
move_funds_effect fresh a s r db db' h = ground arith

-- The rows that passed the guards are those of the two accounts, open, and the sender's covers.
pub record Cleared (a : TransferArgs) (db : BalanceDb) (s r : Balance) : Type 0 where
  pub sender : find_balance a.from_account_id a.currency db ≡ some s
  pub receiver : find_balance a.to_account_id a.currency db ≡ some r
  pub sender_open : s.blocked_at ≡ none
  pub receiver_open : r.blocked_at ≡ none
  pub covered : a.amount ≤ℤ s.amount

pub checked_pair-Cleared :
    (a : TransferArgs) (db : BalanceDb) (s r : Balance)
    → checked_pair a (locked_balances a.from_account_id a.to_account_id a.currency db) ≡ ok (s, r)
    → Cleared a db s r
unfolding checked_pair
checked_pair-Cleared a db s r h = ground (
  arith,
  find_sender a.from_account_id a.to_account_id a.currency db,
  find_receiver a.from_account_id a.to_account_id a.currency db,
)
