-- ===== src/Balance/Steps.antt =====
-- The database of balances over time: any sequence of the repository's calls, in any order, keeps
-- the invariants of the tables and never forgets a key.
use nestjs_homework.Base.{none, List, [], ◌∷◌, ◌≡◌, refl, find, arith, map}
use nestjs_homework.Base.Int.{pos, fits_int8}
use nestjs_homework.Base.Preserves.{transact-Preserves}
use nestjs_homework.Contracts.{Uuid, Time, CurrencyCode, Topic, Payload}
use nestjs_homework.Balance.{Balance, BalanceDb}
use nestjs_homework.Balance.Repository.{
  has_id, find_processed, Fresh, DepositArgs, TransferArgs, deposit_and_create_outbox_event,
  transfer_and_create_outbox_event, create_outbox_event, reset_all_balances,
  mark_events_as_processed,
}
use nestjs_homework.Balance.Rows.{DistinctIds}
use nestjs_homework.Balance.Keeps.{
  AmountsOk, Keeps, Keeps-refl, Keeps-trans, deposit_body-Preserves, transfer_body-Preserves,
  create_outbox_event-Keeps,
}

-- One call of the repository that writes.
pub data Step (db : BalanceDb) : BalanceDb → Type 0 where
  deposit :
      (fresh : Fresh) (a : DepositArgs) → Step db (deposit_and_create_outbox_event fresh a db).1
  transfer :
      (fresh : Fresh) (a : TransferArgs) → Step db (transfer_and_create_outbox_event fresh a db).1
  announce :
      (id : Uuid) (now : Time) (account : Uuid) (currency : CurrencyCode) (topic : Topic)
      (payload : Payload)
      → Step db (create_outbox_event id now account currency topic payload db).1
  mark : (ids : List Uuid) (now : Time) → Step db (mark_events_as_processed ids now db)
  reset : Step db (reset_all_balances db).1

pub data Reach (db : BalanceDb) : BalanceDb → Type 0 where
  here : Reach db db
  next : {db' db'' : BalanceDb} → Reach db db' → Step db' db'' → Reach db db''

abbrev pub zeroed : List Balance → List Balance
zeroed = map {A = Balance} (λ b. record b { amount = pos 0 })

find-zeroed :
    (id : Uuid) (rows : List Balance)
    → find (has_id id) rows ≡ none
    → find (has_id id) (zeroed rows) ≡ none
find-zeroed id [] h = refl
find-zeroed id (b ∷ rows) h = ground (arith, find-zeroed id rows)

zeroed-DistinctIds : (rows : List Balance) → DistinctIds rows → DistinctIds (zeroed rows)
zeroed-DistinctIds [] h = tt
zeroed-DistinctIds (b ∷ rows) h = (find-zeroed b.id rows h.0, zeroed-DistinctIds rows h.1)

zeroed-AmountsOk : (rows : List Balance) → AmountsOk (zeroed rows)
unfolding fits_int8
zeroed-AmountsOk [] = tt
zeroed-AmountsOk (b ∷ rows) = (refl, zeroed-AmountsOk rows)

pub Step-Keeps : {db db' : BalanceDb} → Step db db' → Keeps db db'
unfolding deposit_and_create_outbox_event transfer_and_create_outbox_event mark_events_as_processed
    reset_all_balances find_processed
Step-Keeps {db} (deposit fresh a) =
    transact-Preserves Keeps-refl _ db (deposit_body-Preserves fresh a)
Step-Keeps {db} (transfer fresh a) =
    transact-Preserves Keeps-refl _ db (transfer_body-Preserves fresh a)
Step-Keeps {db} (announce id now account currency topic payload) =
    create_outbox_event-Keeps id now account currency topic payload db
Step-Keeps (mark ids now) = record { ids = λ h. h; amounts = λ h. h; keys = λ k h. h }
Step-Keeps {db} reset = record {
  ids = zeroed-DistinctIds db.balances;
  amounts = λ h. zeroed-AmountsOk db.balances;
  keys = λ k h. h;
}

pub Reach-Keeps : {db db' : BalanceDb} → Reach db db' → Keeps db db'
Reach-Keeps {db} here = Keeps-refl db
Reach-Keeps (next r s) = Keeps-trans _ _ _ (Reach-Keeps r) (Step-Keeps s)
