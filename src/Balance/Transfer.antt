-- ===== src/Balance/Transfer.antt =====
-- `transferAndCreateOutboxEvent`: what a transfer does, on every path.
use nestjs_homework.Base.{none, [], ◌∷◌, ◌++◌, ◌≡◌, arith, inl, inr}
use nestjs_homework.Base.Int.{neg}
use nestjs_homework.Base.Result.{ok, err, transact, Result-cases}
use nestjs_homework.Contracts.{tranfer_inited}
use nestjs_homework.Balance.{Balance, BalanceDb}
use nestjs_homework.Balance.Repository.{
  find_processed, Fresh, TransferArgs, move_funds, transfer_body, checked_pair, locked_balances,
  transfer_and_create_outbox_event,
}
use nestjs_homework.Balance.Effects.{
  credited, transfer_event, processed, move_funds_effect, Cleared, checked_pair-Cleared,
}

-- A transfer under a key not seen before is the guards, then the move.
pub transfer_body_new :
    (fresh : Fresh) (a : TransferArgs) (db : BalanceDb)
    → find_processed a.idempotency_key db ≡ none
    → transfer_body fresh a db
      ≡ elim (checked_pair a (locked_balances a.from_account_id a.to_account_id a.currency db)) [
        | ok p ↦ move_funds fresh a p.0 p.1 db
        | err e ↦ err e
      ]
unfolding transfer_body
transfer_body_new fresh a db h = ground arith

-- What a successful transfer under a new key has done to the tables.
pub record Transferred (fresh : Fresh) (a : TransferArgs) (db db' : BalanceDb) : Type 0 where
  pub from_row : Balance
  pub to_row : Balance
  pub cleared : Cleared a db from_row to_row
  pub moved : db' ≡ record {
    balances = credited a.amount to_row.id (credited (neg a.amount) from_row.id db.balances);
    processed_events = db.processed_events ++ processed fresh a.idempotency_key tranfer_inited ∷ [];
    outbox_events = db.outbox_events ++ transfer_event fresh a from_row ∷ [];
  }

pub transfer_body-Transferred :
    (fresh : Fresh) (a : TransferArgs) (db db' : BalanceDb)
    → find_processed a.idempotency_key db ≡ none
    → transfer_body fresh a db ≡ ok (tt, db')
    → Transferred fresh a db db'
transfer_body-Transferred fresh a db db' new done =
    let run = transfer_body_new fresh a db new in
    elim (Result-cases
      (checked_pair a (locked_balances a.from_account_id a.to_account_id a.currency db))) [
        | inl (p, e) ↦ record {
          from_row = p.0;
          to_row = p.1;
          cleared = checked_pair-Cleared a db p.0 p.1 e;
          moved = move_funds_effect fresh a p.0 p.1 db db' (ground arith);
        }
        | inr (x, e) ↦ absurd (ground arith)
      ]

pub transfer-Transferred :
    (fresh : Fresh) (a : TransferArgs) (db : BalanceDb)
    → find_processed a.idempotency_key db ≡ none
    → (transfer_and_create_outbox_event fresh a db).0 ≡ ok tt
    → Transferred fresh a db (transfer_and_create_outbox_event fresh a db).1
unfolding transfer_and_create_outbox_event transact
transfer-Transferred fresh a db new done = elim (Result-cases (transfer_body fresh a db)) [
  | inl (p, e) ↦ transfer_body-Transferred fresh a db _ new (ground arith)
  | inr (x, e) ↦ absurd (ground arith)
]
