-- ===== src/Balance/Once.antt =====
-- Each idempotency key takes effect once, whatever is called in between.
use nestjs_homework.Base.{
  none, List, [], ◌∷◌, ◌++◌, ◌≡◌, ◌≢◌, refl, sym, find, arith, subst, ap, Option-cases, inl, inr,
  find-append_new,
}
use nestjs_homework.Base.Result.{Result, ok}
use nestjs_homework.Contracts.{Uuid}
use nestjs_homework.Outbox.{ProcessedEvent, has_key}
use nestjs_homework.Balance.{BalanceDb, Fault}
use nestjs_homework.Balance.Repository.{
  find_processed, Fresh, DepositArgs, TransferArgs, deposit_and_create_outbox_event,
  transfer_and_create_outbox_event,
}
use nestjs_homework.Balance.Transfer.{transfer-Transferred}
use nestjs_homework.Balance.Funds.{transfer_repeated}
use nestjs_homework.Balance.Deposit.{
  DepositOutcome, refused, duplicate, deposited, deposit_outcome, deposit_skipped,
}
use nestjs_homework.Balance.Steps.{Reach, Reach-Keeps}

recorded :
    (key : Uuid) (e : ProcessedEvent) (rows : List ProcessedEvent) (db' : BalanceDb)
    → e.idempotency_key ≡ key
    → find (has_key key) rows ≡ none
    → db'.processed_events ≡ rows ++ e ∷ []
    → find_processed key db' ≢ none
unfolding find_processed
recorded key e rows db' same new w gone =
    ground (arith, find-append_new (has_key key) rows e new (ground arith))

DepositOutcome-key :
    (fresh : Fresh) (a : DepositArgs) (db : BalanceDb) (out : Result Fault (Unit {0}) × BalanceDb)
    → DepositOutcome fresh a db out
    → out.0 ≡ ok tt
    → find_processed a.idempotency_key out.1 ≢ none
unfolding find_processed
DepositOutcome-key fresh a db _ (refused e) h = cc
DepositOutcome-key fresh a db _ (duplicate old) h = old
DepositOutcome-key fresh a db _ (deposited db' d) h =
    recorded a.idempotency_key _ db.processed_events db' refl d.new_key
      (ap (λ (s : BalanceDb). s.processed_events) d.written)

-- Once a deposit has succeeded, no later deposit under its key changes anything, whatever calls of
-- the repository came in between and whatever its other arguments are.
pub deposit_once :
    (fresh fresh' : Fresh) (a a' : DepositArgs) (db : BalanceDb) {db' : BalanceDb}
    → (deposit_and_create_outbox_event fresh a db).0 ≡ ok tt
    → Reach (deposit_and_create_outbox_event fresh a db).1 db'
    → a'.idempotency_key ≡ a.idempotency_key
    → (deposit_and_create_outbox_event fresh' a' db').1 ≡ db'
deposit_once fresh fresh' a a' db {db'} done r same = deposit_skipped fresh' a' db' (
    inr (
      subst (λ k. find_processed k db' ≢ none) (sym same)
        ((Reach-Keeps r).keys a.idempotency_key
          (DepositOutcome-key fresh a db _ (deposit_outcome fresh a db) done))))

transfer_key :
    (fresh : Fresh) (a : TransferArgs) (db : BalanceDb)
    → (transfer_and_create_outbox_event fresh a db).0 ≡ ok tt
    → find_processed a.idempotency_key (transfer_and_create_outbox_event fresh a db).1 ≢ none
unfolding find_processed
transfer_key fresh a db done = elim (Option-cases (find_processed a.idempotency_key db)) [
  | inl new ↦
      let t = transfer-Transferred fresh a db new done in
      recorded a.idempotency_key _ db.processed_events
        (transfer_and_create_outbox_event fresh a db).1 refl new
        (ap (λ (s : BalanceDb). s.processed_events) t.moved)
  | inr (v, old) ↦
      subst
        (λ (out : Result Fault (Unit {0}) × BalanceDb).
          find_processed a.idempotency_key out.1 ≢ none)
        (sym (transfer_repeated fresh a db (λ h. cc))) (λ h. cc)
]

-- Once a transfer has succeeded, every later transfer under its key succeeds and changes nothing,
-- whatever calls of the repository came in between and whatever its other arguments are.
pub transfer_once :
    (fresh fresh' : Fresh) (a a' : TransferArgs) (db : BalanceDb) {db' : BalanceDb}
    → (transfer_and_create_outbox_event fresh a db).0 ≡ ok tt
    → Reach (transfer_and_create_outbox_event fresh a db).1 db'
    → a'.idempotency_key ≡ a.idempotency_key
    → transfer_and_create_outbox_event fresh' a' db' ≡ (ok tt, db')
transfer_once fresh fresh' a a' db {db'} done r same = transfer_repeated fresh' a' db' (
    subst (λ k. find_processed k db' ≢ none) (sym same)
      ((Reach-Keeps r).keys a.idempotency_key (transfer_key fresh a db done)))
