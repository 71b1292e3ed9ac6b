-- ===== src/Balance/Consumed.antt =====
-- What the consumer of deposits of balance-kafka.service.ts leaves behind, on every path, and what either
-- consumer of that file leaves when it fails.
use nestjs_homework.Base.{
  Option, none, some, [], ◌∷◌, ◌++◌, ◌≡◌, ◌≢◌, subst, refl, sym, arith, Option-cases, inl, inr,
}
use nestjs_homework.Base.Int.{ℤ}
use nestjs_homework.Base.Result.{Result, ok, err, transact, transact_cases}
use nestjs_homework.Base.Table.{create}
use nestjs_homework.Contracts.{
  Uuid, CurrencyCode, Topic, Payload, DepositPaidSuccessPayload, deposit_credited,
  deposit_crediting_failed, crediting,
}
use nestjs_homework.Outbox.{OutboxEvent, new_event}
use nestjs_homework.Balance.{Balance, BalanceDb, Fault, account_not_found}
use nestjs_homework.Balance.Repository.{
  find_balance, find_processed, create_outbox, create_outbox_event, deposit_and_create_outbox_event,
}
use nestjs_homework.Balance.Deposit.{
  Deposited, DepositOutcome, refused, duplicate, deposited, deposit_outcome,
}
use nestjs_homework.Balance.KafkaService.{
  rescue, emit, Consumer, Draws, announce_failure, deposit_args, try_deposit, deposit_to_balance,
}

-- What a failed message leaves: the failure event in the outbox, or nothing and the error.
pub data Announced (draws : Draws) (account : Uuid) (currency : CurrencyCode) (topic : Topic)
    (payload : Payload) (c : Consumer) : Result Fault (Unit {0}) × Consumer → Type 0 where
  stored :
      (b : Balance)
      → find_balance account currency c.db ≡ some b
      → Announced draws account currency topic payload c (
        ok tt,
        record c {
          db = record c.db {
            outbox_events =
                c.db.outbox_events
                ++ new_event draws.failed_id b.id topic payload draws.failed_at ∷ [];
          };
        },
      )
  rethrown : (e : Fault) → Announced draws account currency topic payload c (err e, c)

module _ (draws : Draws) (account : Uuid) (currency : CurrencyCode) (topic : Topic)
    (payload : Payload) (db : BalanceDb) where
  abbrev failure_event : Balance → OutboxEvent
  failure_event b = new_event draws.failed_id b.id topic payload draws.failed_at

  abbrev creation : Result Fault OutboxEvent × BalanceDb
  creation = create_outbox_event draws.failed_id draws.failed_at account currency topic payload db

  creation_lost : find_balance account currency db ≡ none → creation ≡ (err account_not_found, db)
  unfolding create_outbox_event transact
  creation_lost lost = ground arith

  creation_runs :
      (b : Balance)
      → find_balance account currency db ≡ some b
      → creation ≡ transact (create_outbox (failure_event b)) db
  unfolding create_outbox_event transact
  creation_runs b found = ground arith

  creation_stores :
      (b : Balance) (p : OutboxEvent × BalanceDb)
      → create_outbox (failure_event b) db ≡ ok p
      → p.1 ≡ record db { outbox_events = db.outbox_events ++ failure_event b ∷ [] }
  unfolding create_outbox create
  creation_stores b p h = ground arith

pub announce_failure-Announced :
    (draws : Draws) (account : Uuid) (currency : CurrencyCode) (topic : Topic) (payload : Payload)
    (c : Consumer)
    → Announced draws account currency topic payload c
        (announce_failure draws account currency topic payload c)
unfolding announce_failure
announce_failure-Announced draws account currency topic payload c =
    elim (Option-cases (find_balance account currency c.db)) [
      | inl lost ↦ rw (creation_lost draws account currency topic payload c.db lost) (rethrown _)
      | inr (b, found) ↦
          rw (creation_runs draws account currency topic payload c.db b found)
            (elim (transact_cases
              (create_outbox (failure_event draws account currency topic payload c.db b)) c.db) [
                | inl (p, e, run) ↦
                    rw (run, creation_stores draws account currency topic payload c.db b p e)
                      (stored b found)
                | inr (x, e, run) ↦ rw run (rethrown x)
              ])
    ]

abbrev deposit_failure : DepositPaidSuccessPayload → Payload
deposit_failure p = crediting (record { event_id = p.event_id; transaction_id = p.transaction_id })

-- What may come of a message that a deposit was paid.
pub data DepositConsumed (draws : Draws) (header : Option Uuid) (p : DepositPaidSuccessPayload)
    (c : Consumer) : Result Fault (Unit {0}) × Consumer → Type 0 where
  done :
      (key : Uuid) (amount : ℤ) (db' : BalanceDb)
      → header ≡ some key
      → p.amount ≡ some amount
      → Deposited draws.fresh (deposit_args key amount p) c.db db'
      → DepositConsumed draws header p c (
        ok tt,
        record {
          db = db';
          notifications =
              c.notifications
              ++ deposit_credited p.transaction_id p.account_id amount p.currency ∷ [];
        },
      )
  seen :
      (key : Uuid) (amount : ℤ)
      → header ≡ some key
      → p.amount ≡ some amount
      → find_processed key c.db ≢ none
      → DepositConsumed draws header p c (
        ok tt,
        record c {
          notifications =
              c.notifications
              ++ deposit_credited p.transaction_id p.account_id amount p.currency ∷ [];
        },
      )
  failed :
      (out : Result Fault (Unit {0}) × Consumer)
      → Announced draws p.account_id p.currency deposit_crediting_failed (deposit_failure p) c out
      → DepositConsumed draws header p c out

announced :
    (draws : Draws) (header : Option Uuid) (p : DepositPaidSuccessPayload) (c : Consumer)
    → DepositConsumed draws header p c (
        announce_failure draws p.account_id p.currency deposit_crediting_failed
          (deposit_failure p)
          c)
announced draws header p c = failed _ (
    announce_failure-Announced draws p.account_id p.currency deposit_crediting_failed
      (deposit_failure p) c)

-- After the repository has answered.
abbrev answered :
    Draws
    → DepositPaidSuccessPayload
    → ℤ
    → Consumer
    → Result Fault (Unit {0}) × BalanceDb
    → Result Fault (Unit {0}) × Consumer
answered draws p amount c out =
    rescue
      (elim out.0 [
        | ok u ↦ (
          ok tt,
          emit (deposit_credited p.transaction_id p.account_id amount p.currency)
              (record c { db = out.1 }),
        )
        | err e ↦ (err e, record c { db = out.1 })
      ])
      (announce_failure draws p.account_id p.currency deposit_crediting_failed (deposit_failure p))

consume_outcome :
    (draws : Draws) (key : Uuid) (amount : ℤ) (p : DepositPaidSuccessPayload) (c : Consumer)
    (out : Result Fault (Unit {0}) × BalanceDb)
    → p.amount ≡ some amount
    → DepositOutcome draws.fresh (deposit_args key amount p) c.db out
    → DepositConsumed draws (some key) p c (answered draws p amount c out)
unfolding deposit_args
consume_outcome draws key amount p c _ h (refused e) = announced draws (some key) p c
consume_outcome draws key amount p c _ h (duplicate old) = seen key amount refl h old
consume_outcome draws key amount p c _ h (deposited db' d) = done key amount db' refl h d

unreadable :
    (draws : Draws) (key : Uuid) (p : DepositPaidSuccessPayload) (c : Consumer)
    → p.amount ≡ none
    → deposit_to_balance draws (some key) p c
      ≡ announce_failure draws p.account_id p.currency deposit_crediting_failed
          (deposit_failure p)
          c
unfolding deposit_to_balance try_deposit
unreadable draws key p c h = ground arith

readable :
    (draws : Draws) (key : Uuid) (amount : ℤ) (p : DepositPaidSuccessPayload) (c : Consumer)
    → p.amount ≡ some amount
    → deposit_to_balance draws (some key) p c
      ≡ answered draws p amount c
          (deposit_and_create_outbox_event draws.fresh (deposit_args key amount p) c.db)
unfolding deposit_to_balance try_deposit
readable draws key amount p c h = ground arith

-- A message that a deposit was paid ends in one of three ways: credited once and in full, with a
-- notification; seen before, with the balances unchanged and a notification; or failed, with the
-- balances unchanged, no notification, and either the failure event in the outbox or the error
-- thrown on to the broker.
pub deposit_to_balance_outcome :
    (draws : Draws) (header : Option Uuid) (p : DepositPaidSuccessPayload) (c : Consumer)
    → DepositConsumed draws header p c (deposit_to_balance draws header p c)
unfolding deposit_to_balance try_deposit
deposit_to_balance_outcome draws none p c = announced draws none p c
deposit_to_balance_outcome draws (some key) p c = elim (Option-cases p.amount) [
  | inl bad ↦
      subst (DepositConsumed draws (some key) p c) (sym (unreadable draws key p c bad))
        (announced draws (some key) p c)
  | inr (amount, good) ↦
      subst (DepositConsumed draws (some key) p c) (sym (readable draws key amount p c good)) (
        consume_outcome draws key amount p c _ good
          (deposit_outcome draws.fresh (deposit_args key amount p) c.db))
]
