-- ===== src/Balance.antt =====
-- The balances of user-service: the tables of apps/user-service/prisma/schema.prisma that
-- apps/user-service/src/core/repositories/balance.repository.ts uses. The repository and the
-- services over it are in the modules below.
pub mod Repository
pub mod Total
pub mod Rows
pub mod Effects
pub mod Transfer
pub mod Funds
pub mod Deposit
pub mod Keeps
pub mod Steps
pub mod Once
pub mod KafkaService
pub mod Consumed
pub mod TransferConsumed
pub mod Ready
pub mod Ledger
pub mod Money
pub mod Service
mod Samples
mod Tests
use nestjs_homework.Base.{
  ℕ, Bool, Option, none, some, List, [], ◌∷◌, ◌==◌, ◌&&◌, ◌||◌, find, if◌then◌else◌,
}
use nestjs_homework.Base.Int.{ℤ, pos, ◌+ℤ◌, ltb_ℤ, fits_int8}
use nestjs_homework.Base.Result.{Result, ok, err, Tx}
use nestjs_homework.Base.Table.{create, update_first}
use nestjs_homework.Contracts.{Uuid, Time, Topic, CurrencyCode}
use nestjs_homework.Outbox.{OutboxEvent, ProcessedEvent}

pub record Balance : Type 0 where
  pub id : Uuid
  pub amount : ℤ
  pub currency : CurrencyCode
  pub account_id : Uuid
  pub blocked_at : Option Time

pub record BalanceDb : Type 0 where
  pub balances : List Balance
  pub processed_events : List ProcessedEvent
  pub outbox_events : List OutboxEvent

-- What the repository and the Kafka service throw, and the errors of the database.
pub data Fault : Type 0 where
  account_not_found one_account_missing one_balance_missing balance_blocked insufficient_funds :
      Fault
  record_not_found check_violation unique_violation : Fault
  header_missing bad_amount : Fault
