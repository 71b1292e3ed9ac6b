-- ===== src/Balance/Ledger/Replay.antt =====
-- The replay of the repository's calls in the ledger.
use nestjs_homework.Base.{
  Bool, true, false, List, [], ◌∷◌, ◌==◌, ◌≡◌, refl, sym, ap, inl, inr, any, is_some, Option-cases,
  ◌∙◌,
}
use mathlib.Core.Option
use nestjs_homework.Base.Result.{Result}
use nestjs_homework.Contracts.{Uuid, Time, CurrencyCode, Topic, Payload}
use nestjs_homework.Outbox.{OutboxEvent}
use nestjs_homework.Balance.{BalanceDb, Fault}
use nestjs_homework.Balance.Repository.{
  find_balance, find_processed, create_outbox_event, mark_events_as_processed, reset_all_balances,
}
use nestjs_homework.Balance.Rows.{DistinctIds}
use nestjs_homework.Balance.Steps
use nestjs_homework.Balance.Steps.{zeroed, Step, Step-Keeps}
use nestjs_homework.Balance.Ledger.{Ledger, entry_of, ledger_of}
use nestjs_homework.Balance.Ledger.Views.{entries-reset}
use nestjs_homework.Balance.Ledger.Guards.{is_ok, OnePerAccount}
use nestjs_homework.Balance.Ledger.Deposits.{ledger_eq, deposit_refines}
use nestjs_homework.Balance.Ledger.Transfers.{transfer_refines}
use nestjs_homework.Balance.Ledger.Calls.{
  Call, deposit, transfer, announce, mark, reset, perform, perform_in, perform_all, perform_all_in,
  DrawsNew, AllDrawNew, announce_lost, announce_found,
}
use nestjs_homework.Balance.Ledger.OneRow.{call-OnePerAccount}

module _ (id : Uuid) (now : Time) (account : Uuid) (currency : CurrencyCode) (topic : Topic)
    (payload : Payload) (db : BalanceDb) where
  abbrev reply : Result Fault OutboxEvent × BalanceDb
  reply = create_outbox_event id now account currency topic payload db

  announce_refines :
      any (λ e. e.id == id) db.outbox_events ≡ false
      → Path
          (Bool × Ledger)
          (is_ok reply.0, ledger_of reply.1)
          (is_some ((ledger_of db).entry account currency), ledger_of db)
  unfolding find_balance find_processed
  announce_refines new = elim (Option-cases (find_balance account currency db)) [
    | inl lost ↦
        ap {B = Bool × Ledger} (λ r. (is_ok r.0, ledger_of r.1))
          (announce_lost id now account currency topic payload db lost)
        ∙ ap {B = Bool × Ledger} (λ b. (is_some (Option.map entry_of b), ledger_of db)) (sym lost)
    | inr (b, found) ↦
        ap {B = Bool × Ledger} (λ r. (is_ok r.0, ledger_of r.1))
          (announce_found id now account currency topic payload db b found new)
        ∙ ap {B = Bool × Ledger} (λ b. (is_some (Option.map entry_of b), ledger_of db)) (sym found)
  ]

call_refines :
    (c : Call) (db : BalanceDb)
    → DrawsNew c db
    → DistinctIds db.balances
    → OnePerAccount db.balances
    → Path
        (Bool × Ledger)
        ((perform c db).0, ledger_of (perform c db).1)
        (perform_in c (ledger_of db))
unfolding mark_events_as_processed reset_all_balances find_balance find_processed
call_refines (deposit fresh a) db new d one = deposit_refines fresh a db new d
call_refines (transfer fresh a) db new d one = transfer_refines fresh a db new d one
call_refines (announce id now account currency topic payload) db new d one =
    announce_refines id now account currency topic payload db new
call_refines (mark ids now) db new d one = refl
call_refines reset db new d one = ap (λ l. (true, l)) (ledger_eq (entries-reset db.balances) refl)

step_of : (c : Call) (db : BalanceDb) → Step db (perform c db).1
step_of (deposit fresh a) db = Steps.deposit fresh a
step_of (transfer fresh a) db = Steps.transfer fresh a
step_of (announce id now account currency topic payload) db =
    Steps.announce id now account currency topic payload
step_of (mark ids now) db = Steps.mark ids now
step_of reset db = Steps.reset

-- Any sequence of calls, in any order, gives the answers of the ledger and leaves the ledger's state, where
-- the tables start with distinct primary keys and one balance for an account and a currency,
-- and the ids that each call draws are new: a call succeeds exactly where the ledger's operation does.
pub replay :
    (cs : List Call) (db : BalanceDb)
    → DistinctIds db.balances
    → OnePerAccount db.balances
    → AllDrawNew cs db
    → Path
        (List Bool × Ledger)
        ((perform_all cs db).0, ledger_of (perform_all cs db).1)
        (perform_all_in cs (ledger_of db))
replay [] db d one new = refl
replay (c ∷ cs) db d one new =
    let first = call_refines c db new.0 d one in
    let rest =
      replay cs (perform c db).1 ((Step-Keeps (step_of c db)).ids d)
        (call-OnePerAccount c db new.0 one) new.1 in
    ap {B = List Bool × Ledger} (λ t. ((perform c db).0 ∷ t.0, t.1)) rest
    ∙ ap {B = List Bool × Ledger} (λ f. let t = perform_all_in cs f.1 in (f.0 ∷ t.0, t.1)) first
