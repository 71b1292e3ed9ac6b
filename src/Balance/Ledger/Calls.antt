-- ===== src/Balance/Ledger/Calls.antt =====
-- Sequences of calls of the repository, and the same calls of the ledger.
use nestjs_homework.Base.{
  Bool, true, false, none, some, List, [], ◌∷◌, ◌++◌, ◌==◌, ◌≡◌, arith, any, is_some,
}
use nestjs_homework.Base.Result.{Result, ok, err, transact}
use nestjs_homework.Base.Table.{create}
use nestjs_homework.Contracts.{Uuid, Time, CurrencyCode, Topic, Payload}
use nestjs_homework.Outbox.{OutboxEvent, new_event}
use nestjs_homework.Balance.{Balance, BalanceDb, Fault, account_not_found}
use nestjs_homework.Balance.Repository.{
  find_balance, Fresh, DepositArgs, TransferArgs, create_outbox, create_outbox_event,
  deposit_and_create_outbox_event, transfer_and_create_outbox_event, mark_events_as_processed,
  reset_all_balances,
}
use nestjs_homework.Balance.Ledger.{Ledger, deposit_in, transfer_in, reset_in}
use nestjs_homework.Balance.Ledger.Guards.{is_ok, IsFreshIds}

-- One call of the repository that writes, with its arguments.
pub data Call : Type 0 where
  deposit : Fresh → DepositArgs → Call
  transfer : Fresh → TransferArgs → Call
  announce : Uuid → Time → Uuid → CurrencyCode → Topic → Payload → Call
  mark : List Uuid → Time → Call
  reset : Call

abbrev pub answered : {A : Type 0} → Result Fault A × BalanceDb → Bool × BalanceDb
answered r = (is_ok r.0, r.1)

-- Whether the call succeeds, and the tables after it.
abbrev pub perform : Call → BalanceDb → Bool × BalanceDb
perform (deposit fresh a) db = answered (deposit_and_create_outbox_event fresh a db)
perform (transfer fresh a) db = answered (transfer_and_create_outbox_event fresh a db)
perform (announce id now account currency topic payload) db =
    answered (create_outbox_event id now account currency topic payload db)
perform (mark ids now) db = (true, mark_events_as_processed ids now db)
perform reset db = (true, (reset_all_balances db).1)

-- The same call of the ledger, where announcing reads an entry and marking is nothing.
abbrev pub perform_in : Call → Ledger → Bool × Ledger
perform_in (deposit fresh a) l = deposit_in a l
perform_in (transfer fresh a) l = transfer_in a l
perform_in (announce id now account currency topic payload) l =
    (is_some (l.entry account currency), l)
perform_in (mark ids now) l = (true, l)
perform_in reset l = (true, reset_in l)

abbrev pub perform_all : List Call → BalanceDb → List Bool × BalanceDb
perform_all [] db = ([], db)
perform_all (c ∷ cs) db =
    let first = perform c db in let rest = perform_all cs first.1 in (first.0 ∷ rest.0, rest.1)

abbrev pub perform_all_in : List Call → Ledger → List Bool × Ledger
perform_all_in [] l = ([], l)
perform_all_in (c ∷ cs) l =
    let first = perform_in c l in let rest = perform_all_in cs first.1 in (first.0 ∷ rest.0, rest.1)

-- The ids that a call draws are new when it is made.
abbrev pub DrawsNew : Call → BalanceDb → Type 0
DrawsNew (deposit fresh a) db = IsFreshIds fresh db
DrawsNew (transfer fresh a) db = IsFreshIds fresh db
DrawsNew (announce id now account currency topic payload) db =
    any (λ e. e.id == id) db.outbox_events ≡ false
DrawsNew (mark ids now) db = Unit
DrawsNew reset db = Unit

abbrev pub AllDrawNew : List Call → BalanceDb → Type 0
AllDrawNew [] db = Unit
AllDrawNew (c ∷ cs) db = DrawsNew c db × AllDrawNew cs (perform c db).1

module _ (id : Uuid) (now : Time) (account : Uuid) (currency : CurrencyCode) (topic : Topic)
    (payload : Payload) (db : BalanceDb) where
  abbrev pub announced : Result Fault OutboxEvent × BalanceDb
  announced = create_outbox_event id now account currency topic payload db

  pub announce_lost :
      find_balance account currency db ≡ none → announced ≡ (err account_not_found, db)
  unfolding create_outbox_event transact
  announce_lost lost = ground arith

  pub announce_found :
      (b : Balance)
      → find_balance account currency db ≡ some b
      → any (λ e. e.id == id) db.outbox_events ≡ false
      → let e = new_event id b.id topic payload now in
        announced ≡ (ok e, record db { outbox_events = db.outbox_events ++ e ∷ [] })
  unfolding create_outbox_event transact create_outbox create
  announce_found b found new = ground arith
